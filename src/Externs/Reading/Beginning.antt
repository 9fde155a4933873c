-- ===== src/Externs/Reading/Beginning.antt =====
-- The fixed header of a message, which arrives in pieces too.
use casycom.Base.{
  ℕ, ◌+◌, ◌-◌, ◌<◌, ◌≡◌, refl, ap, sym, ◌∙◌, true, false, List, [], ◌∷◌, ◌++◌, none, some, arith,
  length, take, drop, ltb, leb, ◌==◌, length-append, length-drop, take-append-drop, le→leb, lt→ltb,
  inl, inr, Bool-cases,
}
use casycom.Base.Bytes.{memcpy, length-memcpy}
use casycom.Msg.{Msg, begin, method_create_object}
use casycom.FdIo.{Answer}
use casycom.FdIo.Reading.{take-memcpy}
use casycom.Wire.{
  ExtMsgHeader, header_at, header_bytes, header_size, header_buf_size, validate_message_header,
}
use casycom.Wire.Strings.{take-length, drop-length, drop-drop}
use casycom.Wire.RoundTrip.{length-header_bytes}
use casycom.Externs.{Extern, Net}
use casycom.Externs.Incoming.{Program}
use casycom.Externs.Reading.{
  Chunk, header_room, body_room, next_at, at_most, scatter, receive, reading, has_message,
  take_ancillary, after_counts, start_message, announced, fill,
}
use casycom.Externs.Reading.Pieces.{take_plus}
use casycom.Externs.Reading.Position.{at, piece_of}

-- The reader is between two messages, or has `h` bytes of a fixed header.
abbrev pub starting : Extern → ℕ → List ℕ → Extern
starting base h buf = record base { h_read = h; b_read = 0; in_msg = none; h_buf = buf }

pub record IsStarting (fields : ExtMsgHeader) (h : ℕ) (buf : List ℕ) : Type 0 where
  pub below : h < header_size
  pub buffer : length buf ≡ header_buf_size
  pub front : take h buf ≡ take h (header_bytes fields)

-- The message that is made for a fixed header.
unfoldable pub message_of : Extern → ExtMsgHeader → Msg
unfolding begin
message_of base fields = record (begin base.reply method_create_object fields.sz) {
  extid = fields.extid;
  fdoffset = fields.fdoffset;
}

start_message-whole :
    {U : Type 0} (base : Extern) (h br : ℕ) (d : List ℕ) (n : Net U)
    → (br == 0) ≡ false
    → leb h header_size ≡ true
    → h + br ≡ header_size
    → validate_message_header (header_at d) ≡ true
    → start_message br (starting base h d) n
      ≡ some (true, at base header_size 0 (message_of base (header_at d)) d, n)
unfolding start_message announced validate_message_header header_at begin message_of
start_message-whole base h br d n some_read first all_read valid =
    rw (some_read, first, all_read, valid) refl

module _ (fields : ExtMsgHeader) (base : Extern) (h : ℕ) (buf : List ℕ)
    (i : IsStarting fields h buf) where
  header_room-starting : header_room (starting base h buf) ≡ 0
  unfolding header_room
  header_room-starting = ground (arith, i.below)

  body_room-starting : body_room (starting base h buf) ≡ 0
  unfolding body_room
  body_room-starting = ground (arith, i.below)

  next_at-starting : next_at (starting base h buf) ≡ h
  unfolding next_at
  next_at-starting = ground (arith, i.below)

  has_message-starting : has_message (starting base h buf) ≡ true
  unfolding has_message
  has_message-starting = ground (arith, i.below)

  module _ (c rest : List ℕ) (piece : drop h (header_bytes fields) ≡ c ++ rest) where
    pub length_piece : h + length c + length rest ≡ header_size
    length_piece = omega (
      arith,
      i.below,
      ap (λ (t : List ℕ). length t) piece,
      length-append c rest,
      length-drop h (header_bytes fields),
      length-header_bytes fields,
    )

    pub front-after :
        take (h + length c) (memcpy buf h c) ≡ take (h + length c) (header_bytes fields)
    front-after =
        let len = length_piece in
        let own : take (length c) (drop h (header_bytes fields)) ≡ c =
          ap (take (length c)) piece ∙ take-length c rest in
        take-memcpy buf c h (omega (arith, len, i.buffer))
        ∙ (ap (λ (t : List ℕ). t ++ c) i.front
            ∙ (ap (λ (t : List ℕ). take h (header_bytes fields) ++ t) (sym own)
                ∙ sym (take_plus h (length c) (header_bytes fields))))

    pub buffer-after : length (memcpy buf h c) ≡ header_buf_size
    buffer-after =
        let len = length_piece in length-memcpy buf h c (omega (arith, len, i.buffer)) ∙ i.buffer

    pub left-after : drop (h + length c) (header_bytes fields) ≡ rest
    left-after =
        sym (drop-drop h (length c) (header_bytes fields))
        ∙ (ap (drop (length c)) piece ∙ drop-length c rest)

    scatter-starting : scatter c (starting base h buf) ≡ some (starting base h (memcpy buf h c))
    unfolding scatter fill
    scatter-starting =
        let none_first : h + 0 ≡ h = omega arith in
        let t : leb h header_buf_size ≡ true = le→leb _ _ (let b = i.below in omega (arith, b)) in
        rw
          (
            header_room-starting,
            body_room-starting,
            next_at-starting,
            none_first,
            t,
            take-append-drop h buf,
          )
          refl

    receive-starting :
        {U : Type 0} (p : Program) (multiple : List ℕ) (n : Net U)
        → receive p multiple (record { bytes = c; ancillary = [] }) (starting base h buf) n
          ≡ start_message (length c) (starting base h (memcpy buf h c)) n
    unfolding receive take_ancillary after_counts
    receive-starting p multiple n =
        let none_first : h + 0 ≡ h = omega arith in
        let none_taken : (k : ℕ) → at_most 0 k ≡ 0 = λ k. ground arith in
        let whole : length c - 0 - 0 ≡ length c = omega arith in
        rw
          (
            scatter-starting,
            header_room-starting,
            body_room-starting,
            none_taken (length c),
            none_taken (length c - 0),
            none_first,
            whole,
          )
          refl

    module _ {U : Type 0} (p : Program) (multiple recvmsg : List ℕ) (calls : List (Answer Chunk))
        (n : Net U) where
      pub reading-begun :
          0 < length rest
          → reading p multiple recvmsg (piece_of c ∷ calls) (starting base h buf) n
            ≡ reading p multiple recvmsg calls (starting base (h + length c) (memcpy buf h c)) n
      unfolding reading start_message
      reading-begun more = elim (Bool-cases (length c == 0)) [
        | inl none_read ↦
            let same : h + length c ≡ h = ground (arith, none_read) in
            rw (has_message-starting, receive-starting p multiple n, none_read, same) refl
        | inr some_read ↦
            let len = length_piece in
            let first : leb h header_size ≡ true =
              le→leb _ _ (let b = i.below in omega (arith, b)) in
            let below : ltb (h + length c) header_size ≡ true =
              lt→ltb _ _ (omega (arith, len, more)) in
            rw (has_message-starting, receive-starting p multiple n, some_read, first, below) refl
      ]

      pub reading-fixed :
          rest ≡ []
          → header_at (memcpy buf h c) ≡ fields
          → validate_message_header fields ≡ true
          → reading p multiple recvmsg (piece_of c ∷ calls) (starting base h buf) n
            ≡ reading p multiple recvmsg calls
                (at base header_size 0 (message_of base fields) (memcpy buf h c))
                n
      unfolding reading
      reading-fixed none_left own valid =
          let none_more : length rest ≡ 0 = ap (λ (t : List ℕ). length t) none_left in
          let len = length_piece in
          let all_read : h + length c ≡ header_size = omega (arith, len, none_more) in
          let some_read : (length c == 0) ≡ false =
            let b = i.below in ground (arith, all_read, b) in
          let first : leb h header_size ≡ true = le→leb _ _ (let b = i.below in omega (arith, b)) in
          let whole =
            start_message-whole base h (length c) (memcpy buf h c) n some_read first all_read
              (ap validate_message_header own ∙ valid) in
          rw (has_message-starting, receive-starting p multiple n, whole)
            (ap
              (λ (f : ExtMsgHeader).
                reading p multiple recvmsg calls
                  (at base header_size 0 (message_of base f) (memcpy buf h c)) n)
              own)
