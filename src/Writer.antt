-- ===== src/Writer.antt =====
-- `Extern_writing` of xcom.c: the queued messages, written to a socket that takes some bytes of what it is
-- given. What `sendmsg` answers is a list of parameters.
pub mod Pending
pub mod Steps
pub mod Refines
use casycom.Base.{
  ℕ, ◌+◌, ◌-◌, ◌^◌, Bool, true, false, not, ◌&&◌, ◌||◌, List, [], ◌∷◌, ◌++◌, Option, none, some,
  ltb, leb, ◌==◌, if◌then◌else◌, length, take, drop, ceilg,
}
use casycom.Base.Chain.{◌>>=◌, ◌>>◌, assert}
use casycom.Stm.{le_value}
use casycom.Msg.{Interface, Msg, no_fd_in_message, message_body_alignment}
use casycom.FdIo.{
  Answer, Ending, done, closed, again, interrupted, failed, complete, at_eof, must_wait, with_error,
}
use casycom.Wire.{marshal}

-- The fields of an `Extern` that the writing side uses.
pub record Sender : Type 0 where
  pub outgoing : List Msg
  pub h_written : ℕ
  pub b_written : ℕ

-- What the calls took: the bytes and the descriptors. The ending tells the result: only `must_wait`
-- is true, and `at_eof` and `with_error` close the socket.
pub record Sent : Type 0 where
  pub bytes : List ℕ
  pub fds : List ℕ
  pub sender : Sender
  pub ending : Ending

abbrev pub stop : Sender → Ending → Sent
stop s ending = record { bytes = []; fds = []; sender = s; ending = ending }

-- `hbuf.h.sz`, and the bytes of the body that are sent.
unfoldable pub body_size : Msg → ℕ
unfolding ceilg
body_size msg = ceilg msg.size message_body_alignment

unfoldable pub body_bytes : Msg → List ℕ
unfolding body_size
body_bytes msg = take (body_size msg) msg.body

-- The two parts that `sendmsg` is given.
unfoldable pub given : List ℕ → Msg → Sender → List ℕ
unfolding body_bytes
given hdr msg s = drop s.h_written hdr ++ drop s.b_written (body_bytes msg)

-- The descriptor in the body; a negative one is not closed.
unfoldable pub fd_passed : Msg → List ℕ
fd_passed msg =
    if msg.fdoffset == no_fd_in_message
    then []
    else le_value (take 4 (drop msg.fdoffset msg.body)) ∷ []

unfoldable pub once_passed : Msg → Msg
unfolding fd_passed
once_passed msg = elim (fd_passed msg) [
  | [] ↦ msg
  | fd ∷ fds ↦ if ltb fd (2 ^ 31) then record msg { fdoffset = no_fd_in_message } else msg
]

-- What the loop does when `bw` bytes are written of the message at the front, with `hsz` bytes of header.
unfoldable pub advance : ℕ → Msg → List Msg → Sender → ℕ → Option Sender
unfolding body_size once_passed
advance hsz msg rest s bw =
    let left = if ltb s.h_written hsz then hsz - s.h_written else 0 in
    let hbw = if ltb left bw then left else bw in
    let h = s.h_written + hbw in
    let b = s.b_written + (bw - hbw) in
    do
      assert (leb b (body_size msg))
      some (
          if leb (body_size msg) b
          then record { outgoing = rest; h_written = 0; b_written = 0 }
          else record { outgoing = once_passed msg ∷ rest; h_written = h; b_written = b })

unfoldable pub writing : (ℕ → Interface) → List (Answer ℕ) → Sender → Option Sent
unfolding given advance fd_passed
writing interfaces [] s = elim s.outgoing [ [] ↦ some (stop s complete) | msg ∷ rest ↦ none ]
writing interfaces (a ∷ calls) s = elim s.outgoing [
  | [] ↦ some (stop s complete)
  | msg ∷ rest ↦ marshal interfaces msg >>= λ hdr. elim a [
    | done bw ↦ do
      s' ← advance (length hdr) msg rest s bw
      w ← writing interfaces calls s'
      some (record w { bytes = take bw (given hdr msg s) ++ w.bytes; fds = fd_passed msg ++ w.fds })
    | closed ↦ some (stop s at_eof)
    | again ↦ some (stop s must_wait)
    | interrupted ↦ writing interfaces calls s
    | failed e ↦ some (stop s (with_error e))
  ]
]
