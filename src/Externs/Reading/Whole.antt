-- ===== src/Externs/Reading/Whole.antt =====
-- A whole message, from its first byte to its last.
use casycom.Base.{
  ℕ, ◌+◌, ◌<◌, ◌≡◌, refl, ap, sym, ◌∙◌, true, false, List, [], ◌∷◌, ◌++◌, Option, arith, length,
  take, drop, ◌==◌, length-replicate, ceilg,
}
use mathlib.Core.List.{append-nil}
use casycom.Base.Bytes.{memcpy}
use casycom.Msg.{begin}
use casycom.Stm.{le_bytes}
use casycom.FdIo.{Answer}
use casycom.Wire.{
  ExtMsgHeader, header_at, header_bytes, header_size, header_buf_size, validate_message_header,
}
use casycom.Wire.RoundTrip.{drop-header_bytes}
use casycom.Externs.{Extern, Net}
use casycom.Externs.Incoming.{Program}
use casycom.Externs.Reading.{Chunk, reading, complete_message}
use casycom.Externs.Reading.Position.{IsFrame, IsAt, at, block, length-block, header_at-front}
use casycom.Externs.Reading.Arrival.{join, calls_of, goes_on, length-join, reading-pieces}
use casycom.Externs.Reading.Beginning.{
  starting, IsStarting, message_of, reading-begun, reading-fixed, front-after, buffer-after,
  left-after, length_piece,
}

length-message_of :
    (base : Extern) (fields : ExtMsgHeader)
    → 0 < fields.sz
    → validate_message_header fields ≡ true
    → length (message_of base fields).body ≡ fields.sz
unfolding message_of begin validate_message_header ceilg
length-message_of base fields some_body valid =
    let some_bytes : (fields.sz == 0) ≡ false = ground (arith, some_body) in
    let aligned : ceilg fields.sz 8 ≡ fields.sz = ground (arith, valid) in
    rw some_bytes (length-replicate {A = ℕ} (ceilg fields.sz 8) 0 ∙ aligned)

pub size-message_of :
    (base : Extern) (fields : ExtMsgHeader) → (message_of base fields).size ≡ fields.sz
unfolding message_of begin
size-message_of base fields = refl

pub take-block :
    (fields : ExtMsgHeader) (names : List ℕ)
    → take header_size (block fields names) ≡ header_bytes fields
unfolding header_bytes le_bytes
take-block fields names = refl

take-header_bytes :
    (fields : ExtMsgHeader) → take header_size (header_bytes fields) ≡ header_bytes fields
unfolding header_bytes le_bytes
take-header_bytes fields = refl

module _ (fields : ExtMsgHeader) (names body : List ℕ) (f : IsFrame fields names body)
    (base : Extern) where
  -- Where the fixed header ends.
  fixed-IsAt :
      (buf : List ℕ)
      → length buf ≡ header_buf_size
      → take header_size buf ≡ take header_size (header_bytes fields)
      → IsAt fields names body header_size 0 (message_of base fields) buf
  fixed-IsAt buf buffer front =
      let len = length-block fields names body f in
      let some_body : 0 < fields.sz = omega (arith, f.sz, f.some_body) in
      let space = length-message_of base fields some_body f.valid in
      record {
        inside = record { header = omega (arith, len); body = omega arith; in_order = λ h. refl };
        begun = omega arith;
        buffer = buffer;
        space = space ∙ f.sz;
        size = size-message_of base fields ∙ f.sz;
        front = front ∙ (take-header_bytes fields ∙ sym (take-block fields names));
        text = refl;
      }

  -- The fixed header is read, and the message for it made.
  pub record IsBegun {U : Type 0} (p : Program) (multiple recvmsg : List ℕ)
      (calls : List (Answer Chunk)) (n : Net U) (r : Option (Extern × Net U)) : Type 0 where
    pub buf : List ℕ
    pub begun : IsAt fields names body header_size 0 (message_of base fields) buf
    pub goes_on :
        r ≡ reading p multiple recvmsg calls (at base header_size 0 (message_of base fields) buf) n

  module _ {U : Type 0} (p : Program) (multiple recvmsg : List ℕ) (calls : List (Answer Chunk))
      (n : Net U) (last : List ℕ) (some_last : 0 < length last) where
    reading-fixed_pieces :
        (pieces : List (List ℕ)) (h : ℕ) (buf : List ℕ)
        → IsStarting fields h buf
        → drop h (header_bytes fields) ≡ join pieces last
        → IsBegun p multiple recvmsg calls n
            (reading p multiple recvmsg (calls_of pieces last calls) (starting base h buf) n)
    reading-fixed_pieces [] h buf i piece =
        let here : drop h (header_bytes fields) ≡ last ++ [] = piece ∙ sym (append-nil last) in
        let len = length_piece fields base h buf i last [] here in
        let front = front-after fields base h buf i last [] here in
        let all_read : h + length last ≡ header_size = omega (arith, len) in
        let buffer = buffer-after fields base h buf i last [] here in
        let begun = fixed-IsAt (memcpy buf h last) buffer (rw all_read at front) in
        let own : header_at (memcpy buf h last) ≡ fields =
          header_at-front fields names body f header_size (memcpy buf h last) begun.begun
            begun.front in
        record {
          buf = memcpy buf h last;
          begun = begun;
          goes_on =
              reading-fixed fields base h buf i last [] here p multiple recvmsg calls n refl own
                f.valid;
        }
    reading-fixed_pieces (c ∷ pieces) h buf i piece =
        let more : 0 < length (join pieces last) =
          let l = length-join pieces last in omega (arith, l, some_last) in
        let len = length_piece fields base h buf i c (join pieces last) piece in
        let next : IsStarting fields (h + length c) (memcpy buf h c) = record {
          below = omega (arith, len, more);
          buffer = buffer-after fields base h buf i c (join pieces last) piece;
          front = front-after fields base h buf i c (join pieces last) piece;
        } in
        let r =
          reading-fixed_pieces pieces (h + length c) (memcpy buf h c) next
            (left-after fields base h buf i c (join pieces last) piece) in
        record {
          buf = r.buf;
          begun = r.begun;
          goes_on =
              reading-begun fields base h buf i c (join pieces last) piece p multiple recvmsg
                (calls_of pieces last calls) n more
              ∙ r.goes_on;
        }

  module _ {U : Type 0} (p : Program) (multiple recvmsg : List ℕ) (calls : List (Answer Chunk))
      (n : Net U) where
    -- The message is whole, with just this body, and its header and names stand in the buffer.
    pub record IsWhole (r : Option (Extern × Net U)) : Type 0 where
      pub buf : List ℕ
      pub front : take (length (block fields names)) buf ≡ block fields names
      pub goes_on_with :
          r
          ≡ goes_on p multiple recvmsg calls (
              complete_message p
                (at base
                  (length (block fields names))
                  (length body)
                  (record (message_of base fields) { body = body })
                  buf)
                (record (message_of base fields) { body = body })
                n)

    pub reading-IsWhole :
        (buf : List ℕ) (pieces : List (List ℕ)) (last : List ℕ) (pieces' : List (List ℕ))
        (last' : List ℕ)
        → length buf ≡ header_buf_size
        → 0 < length last
        → 0 < length last'
        → join pieces last ≡ header_bytes fields
        → join pieces' last' ≡ names ++ body
        → IsWhole (
            reading p multiple recvmsg
              (calls_of pieces last (calls_of pieces' last' calls))
              (starting base 0 buf)
              n)
    reading-IsWhole buf pieces last pieces' last' buffer some_last some_last' fixed others =
        let start : IsStarting fields 0 buf = record {
          below = omega arith;
          buffer = buffer;
          front = refl;
        } in
        let b =
          reading-fixed_pieces p multiple recvmsg (calls_of pieces' last' calls) n last some_last
            pieces 0 buf start (sym fixed) in
        let left : drop header_size (block fields names) ++ body ≡ join pieces' last' =
          ap (λ (t : List ℕ). t ++ body) (drop-header_bytes fields names) ∙ sym others in
        let (buf', front, e) =
          reading-pieces fields names body f base p multiple recvmsg calls n last' some_last'
            pieces' header_size 0 (message_of base fields) b.buf b.begun left in
        record { buf = buf'; front = front; goes_on_with = b.goes_on ∙ e }
