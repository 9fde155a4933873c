-- ===== src/FdIo.antt =====
-- The FdIO object of io.c, which reads and writes a descriptor without waiting. What `read` and `write`
-- answer is a list of parameters; `none` is a failed assertion, or a call without an answer.
pub mod Writing
pub mod Reading
use casycom.Base.{
  ℕ, ◌+◌, ◌-◌, Bool, true, false, not, ◌||◌, List, [], ◌∷◌, ◌++◌, Option, none, some, ◌==◌,
  if◌then◌else◌, length, take,
}
use casycom.Base.Bytes.{memcpy}
use casycom.Base.Chain.{◌>>=◌}
use casycom.Msg.{Proxy, Msg}
use casycom.Vector.{CharVector, erase_n}
use casycom.Protocol.Io.{io_r_read, io_r_written}
use casycom.Protocol.Timer.{watch, watch_read, watch_write, timer_none, no_fd}

-- `rbuf` and `wbuf` are the client's vectors with their addresses, none for null.
pub record FdIo : Type 0 where
  pub reply : Proxy
  pub fd : ℕ
  pub timer : Proxy
  pub eof : Bool
  pub rbuf : Option (ℕ × CharVector)
  pub wbuf : Option (ℕ × CharVector)

abbrev pub fd_io_create : Proxy → Proxy → FdIo
fd_io_create reply timer = record {
  reply = reply;
  fd = no_fd;
  timer = timer;
  eof = false;
  rbuf = none;
  wbuf = none;
}

abbrev pub fd_io_attach : FdIo → ℕ → FdIo
fd_io_attach o fd = record o { fd = fd }

-- What a call answers: `D` when it goes through, the bytes read or the number of bytes written; 0 or
-- `ECONNRESET`; `EAGAIN`; `EINTR`; or the text of another error.
pub data Answer (D : Type 0) : Type 0 where
  done : D → Answer D
  closed : Answer D
  again : Answer D
  interrupted : Answer D
  failed : List ℕ → Answer D

-- How a loop ends.
pub data Ending : Type 0 where
  complete : Ending
  at_eof : Ending
  must_wait : Ending
  with_error : List ℕ → Ending

-- `if (r <= 0)`, but for `EINTR`.
abbrev pub is_eof : Ending → Bool
is_eof complete = false
is_eof at_eof = true
is_eof must_wait = false
is_eof (with_error e) = false

-- `o->rbuf->size += r`, where `read` has put the bytes.
unfoldable pub received : CharVector → List ℕ → CharVector
received v bytes = record v { d = memcpy v.d v.size bytes; size = v.size + length bytes }

unfoldable pub read_loop : List (Answer (List ℕ)) → CharVector → Option (CharVector × Ending)
unfolding received
read_loop [] v = if v.allocated - v.size == 0 then some (v, complete) else none
read_loop (done bytes ∷ calls) v =
    let rest = read_loop calls (received v bytes) in
    if v.allocated - v.size == 0 then some (v, complete) else rest
read_loop (closed ∷ calls) v = some (v, if v.allocated - v.size == 0 then complete else at_eof)
read_loop (again ∷ calls) v = some (v, if v.allocated - v.size == 0 then complete else must_wait)
read_loop (interrupted ∷ calls) v =
    let rest = read_loop calls v in if v.allocated - v.size == 0 then some (v, complete) else rest
read_loop (failed e ∷ calls) v =
    some (v, if v.allocated - v.size == 0 then complete else with_error e)

-- The bytes written come first, then the vector and how the loop ended.
pub record Written : Type 0 where
  pub bytes : List ℕ
  pub left : CharVector
  pub ending : Ending

abbrev pub after_write : List ℕ → Written → Written
after_write bytes w = record w { bytes = bytes ++ w.bytes }

abbrev pub wrote_nothing : CharVector → Ending → Written
wrote_nothing v ending = record {
  bytes = [];
  left = v;
  ending = if v.size == 0 then complete else ending;
}

unfoldable pub write_loop : List (Answer ℕ) → CharVector → Option Written
write_loop [] v = if v.size == 0 then some (wrote_nothing v complete) else none
write_loop (done r ∷ calls) v =
    let rest = erase_n v 0 r >>= write_loop calls in
    if v.size == 0
    then some (wrote_nothing v complete)
    else (rest >>= λ w. some (after_write (take r v.d) w))
write_loop (closed ∷ calls) v = some (wrote_nothing v at_eof)
write_loop (again ∷ calls) v = some (wrote_nothing v must_wait)
write_loop (interrupted ∷ calls) v =
    let rest = write_loop calls v in if v.size == 0 then some (wrote_nothing v complete) else rest
write_loop (failed e ∷ calls) v = some (wrote_nothing v (with_error e))

-- The object after a part of the handler, the messages sent, the watch command, and the error raised.
-- The object is marked unused exactly when a call meets the end, which is then its `eof`.
pub record Turn : Type 0 where
  pub o : FdIo
  pub msgs : List Msg
  pub ccmd : ℕ
  pub error : Option (List ℕ)

error_of : Ending → Option (List ℕ)
error_of complete = none
error_of at_eof = none
error_of must_wait = none
error_of (with_error e) = some e

cmd_of : ℕ → Ending → ℕ
cmd_of cmd complete = 0
cmd_of cmd at_eof = 0
cmd_of cmd must_wait = cmd
cmd_of cmd (with_error e) = 0

-- A message, if it is to be sent.
send_if : Bool → Option Msg → Option (List Msg)
send_if true msg = msg >>= λ m. some (m ∷ [])
send_if false msg = some []

-- `if (o->rbuf)`.
unfoldable pub read_part : List (Answer (List ℕ)) → FdIo → Option Turn
unfolding error_of cmd_of send_if
read_part calls o = elim o.rbuf [
  | none ↦ some (record { o = o; msgs = []; ccmd = 0; error = none })
  | some buf ↦
      if o.eof
      then (do
        m ← io_r_read o.reply 0
        some (record { o = record o { rbuf = none }; msgs = m ∷ []; ccmd = 0; error = none }))
      else (do
        (v, ending) ← read_loop calls buf.1
        let eof = is_eof ending
        news ← send_if (not (buf.1.size == v.size) || eof) (io_r_read o.reply buf.0)
        end ← send_if eof (io_r_read o.reply 0)
        some (record {
          o = record o { eof = eof; rbuf = if eof then none else some (buf.0, v) };
          msgs = news ++ end;
          ccmd = cmd_of watch_read ending;
          error = error_of ending;
        }))
]

-- `if (o->wbuf)`.
unfoldable pub write_part : List (Answer ℕ) → FdIo → Option Turn
unfolding error_of cmd_of send_if
write_part calls o = elim o.wbuf [
  | none ↦ some (record { o = o; msgs = []; ccmd = 0; error = none })
  | some buf ↦
      if o.eof
      then (do
        m ← io_r_written o.reply 0
        some (record { o = record o { wbuf = none }; msgs = m ∷ []; ccmd = 0; error = none }))
      else (do
        w ← write_loop calls buf.1
        let eof = is_eof w.ending
        let emptied = w.left.size == 0
        news ←
            send_if (if buf.1.size == w.left.size then false else (emptied || eof))
              (io_r_written o.reply (buf.0))
        end ← send_if eof (io_r_written o.reply 0)
        some (record {
          o = record o { eof = eof; wbuf = if emptied || eof then none else some (buf.0, w.left) };
          msgs = news ++ end;
          ccmd = cmd_of watch_write w.ending;
          error = error_of w.ending;
        }))
]

-- `FdIO_TimerR_timer`: the object, the messages in their order, and the errors.
unfoldable pub fd_io_timer :
    List (Answer (List ℕ))
    → List (Answer ℕ)
    → FdIo
    → Option (FdIo × List Msg × List (Option (List ℕ)))
unfolding read_part write_part send_if
fd_io_timer reads writes o = do
  r ← read_part reads o
  w ← write_part writes r.o
  let ccmd = r.ccmd + w.ccmd
  wait ← send_if (not (ccmd == 0)) (watch o.timer ccmd o.fd timer_none)
  some (w.o, r.msgs ++ (w.msgs ++ wait), r.error ∷ w.error ∷ [])

abbrev pub fd_io_read :
    ℕ × CharVector
    → List (Answer (List ℕ))
    → List (Answer ℕ)
    → FdIo
    → Option (FdIo × List Msg × List (Option (List ℕ)))
fd_io_read d reads writes o = fd_io_timer reads writes (record o { rbuf = some d })

abbrev pub fd_io_write :
    ℕ × CharVector
    → List (Answer (List ℕ))
    → List (Answer ℕ)
    → FdIo
    → Option (FdIo × List Msg × List (Option (List ℕ)))
fd_io_write d reads writes o = fd_io_timer reads writes (record o { wbuf = some d })
