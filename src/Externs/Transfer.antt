-- ===== src/Externs/Transfer.antt =====
-- A message from one Extern to another: what `Extern_writing` has put on the socket arrives in pieces.
use casycom.Base.{
  ℕ, ◌<◌, ◌≡◌, ◌≢◌, refl, ap, sym, ◌∙◌, true, List, ◌++◌, Option, some, length, take, drop,
  take-append-drop,
}
use mathlib.Core.List.{append_assoc}
use casycom.Msg.{Interface, Msg, method_invalid}
use casycom.Msg.Signature.{validate_signature}
use casycom.FdIo.{Answer, complete}
use casycom.Wire.{header_bytes, header_size, header_buf_size}
use casycom.Wire.RoundTrip.{header, drop-header_bytes, marshal-eq}
use casycom.Writer.{Sent, writing, body_bytes}
use casycom.Writer.Pending.{frame}
use casycom.Writer.Steps.{allowed}
use casycom.Externs.Frames.{
  only, its_fields, its_names, header_of-eq, frame-IsFrame, written-frame, IsSendable,
}
use casycom.Externs.{Extern, Net}
use casycom.Externs.Incoming.{Program, recognise}
use casycom.Externs.Incoming.Recognised.{IsImported, Arrives, as_sent, recognise-marshal}
use casycom.Externs.Reading.{Chunk, reading, complete_message}
use casycom.Externs.Reading.Position.{at}
use casycom.Externs.Reading.Arrival.{join, calls_of, goes_on}
use casycom.Externs.Reading.Beginning.{starting, message_of}
use casycom.Externs.Reading.Whole.{IsWhole, reading-IsWhole, size-message_of, take-block}

module _ (interfaces : ℕ → Interface) (sent : Msg) (m : List ℕ × List ℕ)
    (s : IsSendable interfaces sent m) {U : Type 0} (p : Program) (n : Net U) (base : Extern) where
  -- The message that the reader makes.
  abbrev pub received : Msg
  received = record (message_of base (its_fields interfaces sent m s)) { body = body_bytes sent }

  -- The reader knows the interface, and the body passes the check of the signature there.
  pub record IsExpected (iid : ℕ) : Type 0 where
    pub imported : IsImported p n iid
    pub same : p.interfaces iid ≡ interfaces sent.h.interface
    pub a_method : sent.imethod ≢ method_invalid
    pub body :
        validate_signature m.1 (as_sent received iid sent.imethod received.size) ≡ some sent.size

  -- The reader comes to validate the message with its header in the buffer, and recognises it.
  pub record IsReceived (iid : ℕ) (multiple recvmsg : List ℕ) (calls : List (Answer Chunk))
      (r : Option (Extern × Net U)) : Type 0 where
    pub object : Extern
    pub validated : r ≡ goes_on p multiple recvmsg calls (complete_message p object received n)
    pub recognised :
        recognise p object received n ≡ some (some (as_sent received iid sent.imethod sent.size))

  frame-parts :
      (frame interfaces sent
        ≡ header_bytes (its_fields interfaces sent m s)
          ++ (its_names interfaces sent m s ++ body_bytes sent))
  unfolding frame
  frame-parts =
      ap (λ (h : List ℕ). h ++ body_bytes sent) (header_of-eq interfaces sent m s)
      ∙ append_assoc (header_bytes (its_fields interfaces sent m s)) (its_names interfaces sent m s)
          (body_bytes sent)

  IsWhole-IsReceived :
      (iid : ℕ) (multiple recvmsg : List ℕ) (calls : List (Answer Chunk))
      (r : Option (Extern × Net U))
      → IsExpected iid
      → IsWhole
          (its_fields interfaces sent m s)
          (its_names interfaces sent m s)
          (body_bytes sent)
          (frame-IsFrame interfaces sent m s)
          base
          p
          multiple
          recvmsg
          calls
          n
          r
      → IsReceived iid multiple recvmsg calls r
  IsWhole-IsReceived iid multiple recvmsg calls r e w =
      let hdr = header interfaces sent m s.writable in
      let object = at base (length hdr) (length (body_bytes sent)) received w.buf in
      let arrives : Arrives p n object received interfaces sent m hdr iid = record {
        imported = e.imported;
        same = e.same;
        rest = drop (length hdr) w.buf;
        buffer =
            sym (take-append-drop (length hdr) w.buf)
            ∙ ap (λ (t : List ℕ). t ++ drop (length hdr) w.buf) w.front;
        read = refl;
        a_method = e.a_method;
        body = e.body;
        size = size-message_of base (its_fields interfaces sent m s);
      } in
      record {
        object = object;
        validated = w.goes_on_with;
        recognised =
            recognise-marshal p n object received interfaces sent m hdr iid s.writable
              (marshal-eq interfaces sent m s.writable) arrives;
      }

  take-frame :
      take header_size (frame interfaces sent) ≡ header_bytes (its_fields interfaces sent m s)
  take-frame =
      ap (take header_size) frame-parts
      ∙ take-block (its_fields interfaces sent m s)
          (its_names interfaces sent m s ++ body_bytes sent)

  drop-frame :
      drop header_size (frame interfaces sent) ≡ its_names interfaces sent m s ++ body_bytes sent
  drop-frame =
      ap (drop header_size) frame-parts
      ∙ drop-header_bytes (its_fields interfaces sent m s)
          (its_names interfaces sent m s ++ body_bytes sent)

  -- A message without a descriptor, with a body, and with names that make a header of at most 240
  -- bytes before its padding, less than the 248 that the writer lets pass, is written by
  -- `Extern_writing` of one side until it is done; its method is the first one with its name and
  -- signature. However the calls of `sendmsg` there and those of `recvmsg` on the other side cut
  -- the bytes into pieces, as long as a piece ends with the fixed header and the last ones are
  -- not empty, `Extern_reading` of the other side puts them together: when the interface is known
  -- there under a unique name and the body passes the check of the method's signature, it comes
  -- to the validation of a message with the body that was sent, and recognises the interface, the
  -- method and the size that it had.
  pub reading-writing :
      (iid : ℕ) (multiple recvmsg : List ℕ) (calls : List (Answer Chunk)) (writes : List (Answer ℕ))
      (w : Sent) (buf : List ℕ) (pieces : List (List ℕ)) (last : List ℕ) (pieces' : List (List ℕ))
      (last' : List ℕ)
      → allowed interfaces writes (only sent) ≡ true
      → writing interfaces writes (only sent) ≡ some w
      → w.ending ≡ complete
      → IsExpected iid
      → length buf ≡ header_buf_size
      → 0 < length last
      → 0 < length last'
      → join pieces last ≡ take header_size w.bytes
      → join pieces' last' ≡ drop header_size w.bytes
      → IsReceived iid multiple recvmsg calls (
          reading p multiple recvmsg
            (calls_of pieces last (calls_of pieces' last' calls))
            (starting base 0 buf)
            n)
  reading-writing iid multiple recvmsg calls writes w buf pieces last pieces' last' a e done
        expected buffer some_last some_last' fixed others =
      let bytes = written-frame interfaces sent m s writes w a e done in
      IsWhole-IsReceived iid multiple recvmsg calls _ expected (
        reading-IsWhole (its_fields interfaces sent m s) (its_names interfaces sent m s)
          (body_bytes sent) (frame-IsFrame interfaces sent m s) base p multiple recvmsg calls n buf
          pieces last pieces' last' buffer some_last some_last'
          (fixed ∙ (ap (take header_size) bytes ∙ take-frame))
          (others ∙ (ap (drop header_size) bytes ∙ drop-frame)))
