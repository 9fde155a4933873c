-- ===== src/Externs/Reading/Position.antt =====
-- Where the reader stands in a message: how much of the header and of the body it has.
use casycom.Base.{
  ℕ, ◌+◌, ◌-◌, ◌≤◌, ◌<◌, ◌≡◌, ap, sym, ◌∙◌, true, List, [], ◌++◌, some, arith, length, take, drop,
  length-append, take-append-drop,
}
use casycom.Base.Bytes.{list_ext, get_elem?-take}
use casycom.Msg.{Msg}
use casycom.Wire.{
  ExtMsgHeader, header_at, header_bytes, header_size, header_buf_size, validate_message_header,
}
use casycom.Wire.RoundTrip.{IsInRange, header_at-header_bytes, length-header_bytes}
use casycom.Writer.Pending.{IsInside}
use casycom.Externs.{Extern}
use casycom.Externs.Reading.{Chunk, header_room, body_room, next_at, has_message}
use casycom.FdIo.{Answer, done}

-- A header with its names, and a body of the size that it tells, which fit.
pub record IsFrame (fields : ExtMsgHeader) (names body : List ℕ) : Type 0 where
  pub range : IsInRange fields
  pub hsz : fields.hsz ≡ header_size + length names
  pub fits : header_size + length names ≤ header_buf_size
  pub sz : fields.sz ≡ length body
  pub valid : validate_message_header fields ≡ true
  pub some_body : 0 < length body

abbrev pub block : ExtMsgHeader → List ℕ → List ℕ
block fields names = header_bytes fields ++ names

abbrev pub at : Extern → ℕ → ℕ → Msg → List ℕ → Extern
at base h b m buf = record base { h_read = h; b_read = b; in_msg = some m; h_buf = buf }

-- `recvmsg` gives these bytes, and no ancillary data.
abbrev pub piece_of : List ℕ → Answer Chunk
piece_of c = done (record { bytes = c; ancillary = [] })

-- The reader has `h` bytes of the header and `b` of the body, and not yet all.
pub record IsAt (fields : ExtMsgHeader) (names body : List ℕ) (h b : ℕ) (m : Msg) (buf : List ℕ)
    : Type 0 where
  pub inside : IsInside (length (block fields names)) (length body) h b
  pub begun : header_size ≤ h
  pub buffer : length buf ≡ header_buf_size
  pub space : length m.body ≡ length body
  pub size : m.size ≡ length body
  pub front : take h buf ≡ take h (block fields names)
  pub text : take b m.body ≡ take b body

take-take : (k n : ℕ) (d : List ℕ) → k ≤ n → take k (take n d) ≡ take k d
take-take k n d h = list_ext _ _ λ i.
    ground (arith, h, get_elem?-take k (take n d) i, get_elem?-take n d i, get_elem?-take k d i)

module _ (fields : ExtMsgHeader) (names body : List ℕ) (f : IsFrame fields names body) where
  pub length-block : length (block fields names) ≡ header_size + length names
  length-block =
      omega (arith, length-append (header_bytes fields) names, length-header_bytes fields)

  pub header_at-front :
      (h : ℕ) (buf : List ℕ)
      → header_size ≤ h
      → take h buf ≡ take h (block fields names)
      → header_at buf ≡ fields
  unfolding header_bytes
  header_at-front h buf begun front =
      let fixed : take header_size buf ≡ header_bytes fields =
        sym (take-take header_size h buf begun)
        ∙ (ap (take header_size) front ∙ take-take header_size h (block fields names) begun) in
      ap header_at (
        sym (take-append-drop header_size buf)
        ∙ ap (λ (t : List ℕ). t ++ drop header_size buf) fixed)
      ∙ header_at-header_bytes fields (drop header_size buf) f.range

  module _ (base : Extern) (h b : ℕ) (m : Msg) (buf : List ℕ)
      (i : IsAt fields names body h b m buf) where
    pub header_room-at : header_room (at base h b m buf) ≡ length (block fields names) - h
    unfolding header_room
    header_room-at =
        let hsz = ap (λ (x : ExtMsgHeader). x.hsz) (header_at-front h buf i.begun i.front) in
        ground (arith, hsz, f.hsz, f.fits, length-block, i.begun, i.inside.header)

    pub body_room-at : body_room (at base h b m buf) ≡ length body - b
    unfolding body_room
    body_room-at = ground (arith, i.begun, i.size, i.inside.body, f.sz, f.range.sz)

    pub next_at-at : next_at (at base h b m buf) ≡ 0
    unfolding next_at
    next_at-at = ground (arith, i.begun)

    pub has_message-at : has_message (at base h b m buf) ≡ true
    unfolding has_message
    has_message-at = ground (arith, i.begun)
