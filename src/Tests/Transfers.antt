-- ===== src/Tests/Transfers.antt =====
-- An empty error text on its way from one Extern to another, in pieces.
use casycom.Base.{ℕ, ◌≡◌, refl, true, [], ◌∷◌, ◌++◌, List, some, arith, ceilg, replicate}
use casycom.Iids
use casycom.Msg.{begin}
use casycom.Msg.Signature.{validate_signature, validate_sigelement}
use casycom.Stm.{read_string, read_pod}
use casycom.FdIo.{Answer, done, complete}
use casycom.Wire.{marshal}
use casycom.Writer.{Sent, writing, body_size, body_bytes, given, advance}
use casycom.Writer.Pending.{header_of}
use casycom.Writer.Steps.{allowed}
use casycom.Externs.Reading.{reading}
use casycom.Externs.Reading.Arrival.{calls_of}
use casycom.Externs.Reading.Beginning.{starting, message_of}
use casycom.Externs.Frames.{IsSendable, only}
use casycom.Externs.Transfer.{IsExpected, IsReceived, reading-writing}
use casycom.Tests.Nets.{interfaces, program, net, extern_with}
use casycom.Tests.Sockets.{sent, method, sent-IsWritable, com-IsImported}

sendable : IsSendable interfaces sent method
unfolding body_size ceilg
sendable = record {
  writable = sent-IsWritable;
  no_fd = refl;
  some_body = omega arith;
  block = omega arith;
}

abbrev writes : List (Answer ℕ)
writes = done 10 ∷ done 22 ∷ []

abbrev fixed : List ℕ
fixed = 8 ∷ 0 ∷ 0 ∷ 0 ∷ 6 ∷ 0 ∷ 255 ∷ 24 ∷ []

abbrev interface_name : List ℕ
interface_name = b'C' ∷ b'O' ∷ b'M' ∷ 0 ∷ []

abbrev error : List ℕ
error = b'e' ∷ b'r' ∷ b'r' ∷ b'o' ∷ b'r' ∷ 0 ∷ b's' ∷ 0 ∷ replicate 12 0

abbrev all_sent : Sent
all_sent = record {
  bytes = fixed ++ (interface_name ++ error);
  fds = [];
  sender = record { outgoing = []; h_written = 0; b_written = 0 };
  ending = complete;
}

may_write : allowed interfaces writes (only sent) ≡ true
unfolding allowed marshal header_of body_size ceilg given advance
may_write = refl

written_all : writing interfaces writes (only sent) ≡ some all_sent
unfolding writing marshal header_of body_size ceilg given advance
written_all = refl

expected :
    IsExpected interfaces sent method sendable program net (extern_with true 0 []) Iids.com_iid
unfolding validate_signature validate_sigelement read_string read_pod message_of begin body_bytes
expected = record { imported = com-IsImported; same = refl; a_method = omega arith; body = refl }

reading-writing_example :
    IsReceived interfaces sent method sendable program net
      (extern_with true 0 [])
      Iids.com_iid
      []
      []
      []
      (reading program [] []
        (calls_of
          ((8 ∷ 0 ∷ 0 ∷ []) ∷ [])
          (0 ∷ 6 ∷ 0 ∷ 255 ∷ 24 ∷ [])
          (calls_of (interface_name ∷ []) error []))
        (starting (extern_with true 0 []) 0 (replicate 248 0))
        net)
reading-writing_example =
    reading-writing interfaces sent method sendable program net (extern_with true 0 []) Iids.com_iid
      [] [] [] writes all_sent (replicate 248 0) ((8 ∷ 0 ∷ 0 ∷ []) ∷ []) (0 ∷ 6 ∷ 0 ∷ 255 ∷ 24 ∷ [])
      (interface_name ∷ []) error may_write written_all refl expected refl (omega arith)
      (omega arith) refl refl
