-- ===== src/Tests/Sockets.antt =====
-- A message of COM on its way through a socket.
use casycom.Base.{
  ℕ, ◌%◌, ◌≤◌, ◌≡◌, refl, true, [], ◌∷◌, List, some, none, arith, ceilg, length, replicate, inl,
  inr, Bool-cases, ◌==◌,
}
use casycom.Iids
use casycom.Msg.{Msg, no_fd_in_message}
use casycom.Stm.{le_value}
use casycom.FdIo.{Answer, done, again, interrupted}
use casycom.Wire.{header_at, validate_message_header}
use casycom.Wire.RoundTrip.{IsWritable}
use casycom.Writer.{Sender}
use casycom.Writer.Refines.{Refines}
use casycom.Externs.{Extern}
use casycom.Externs.Incoming.Recognised.{IsImported}
use casycom.Externs.Reading.{scatter, header_room, body_room}
use casycom.Externs.Reading.Buffer.{IsReading, capacity, scatter-buffer, scatter-overflow}
use casycom.Tests.Nets.{interfaces, program, net, extern_with, message}

-- An empty text.
abbrev pub sent : Msg
sent = message Iids.com_iid 9 0 4 (replicate 8 0)

abbrev pub method : List ℕ × List ℕ
method = (b'e' ∷ b'r' ∷ b'r' ∷ b'o' ∷ b'r' ∷ [], b's' ∷ [])

pub sent-IsWritable : IsWritable interfaces sent method
unfolding ceilg
sent-IsWritable = record {
  found = refl;
  first = λ j m' lt. absurd (omega arith);
  name = (omega arith, (omega arith, (omega arith, tt)));
  method = (omega arith, (omega arith, (omega arith, (omega arith, (omega arith, tt)))));
  signature = (omega arith, tt);
  room = omega arith;
  size = omega arith;
  extid = omega arith;
  fdoffset = omega arith;
}

-- `10`, then an interruption, and the socket is full.
abbrev writes : List (Answer ℕ)
writes = done 10 ∷ interrupted ∷ again ∷ []

abbrev writer : Sender
writer = record { outgoing = sent ∷ []; h_written = 0; b_written = 0 }

pub com-IsImported : IsImported program net Iids.com_iid
com-IsImported = record {
  known = inl (inl (inl refl));
  unique = λ i same. elim (Bool-cases (i == Iids.com_iid)) [
    | inl e ↦ ground (arith, e)
    | inr e ↦ elim (Bool-cases (i == 20)) [
      | inl f ↦ absurd (let q = rw (e, f) at same in cc)
      | inr f ↦ absurd (let q = rw (e, f) at same in cc)
    ]
  ];
}

-- A body of `sz` bytes, without a descriptor, after a header of `hsz` bytes.
abbrev announcing : ℕ → ℕ → Extern
announcing sz hsz = extern_with true 8 (sz ∷ 0 ∷ 0 ∷ 0 ∷ 6 ∷ 0 ∷ 255 ∷ hsz ∷ replicate 240 0)

announcing-IsReading : IsReading (announcing 8 16)
unfolding header_at le_value validate_message_header
announcing-IsReading = record {
  buffer = refl;
  byte = omega arith;
  valid = refl;
  begun = omega arith;
  within = omega arith;
}

abbrev some_bytes : List ℕ
some_bytes = 1 ∷ 2 ∷ 3 ∷ []

enough : length some_bytes ≤ capacity (announcing 8 16)
unfolding header_room body_room header_at le_value
enough = omega arith

scatter-buffer_example :
    (o : Extern) × (scatter some_bytes (announcing 8 16) ≡ some o)
    × (length o.h_buf ≡ 248)
    × (o.h_read ≡ 8)
scatter-buffer_example = scatter-buffer (announcing 8 16) some_bytes announcing-IsReading enough

zero_header :
    ((header_at (announcing 8 0).h_buf).hsz ≡ 0)
    × ((header_at (announcing 8 0).h_buf).sz % 8 ≡ 0)
    × ((header_at (announcing 8 0).h_buf).fdoffset ≡ no_fd_in_message)
unfolding header_at le_value
zero_header = (refl, refl, refl)

scatter-overflow_example :
    (validate_message_header (header_at (announcing 8 0).h_buf) ≡ true)
    × (scatter (replicate 241 7) (announcing 8 0) ≡ none)
scatter-overflow_example =
    scatter-overflow (announcing 8 0) (replicate 241 7) zero_header.0 zero_header.1 zero_header.2
      refl (omega arith) (omega arith)
