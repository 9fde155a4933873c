-- ===== src/Externs/Reading/Buffer.antt =====
-- The header's buffer while a message is read.
use casycom.Base.{
  ℕ, ◌+◌, ◌-◌, ◌%◌, ◌^◌, ◌≤◌, ◌<◌, ◌≡◌, refl, ◌∙◌, true, false, List, none, some, arith, leb,
  length, take, drop, length-take, length-drop, le→leb,
}
use casycom.Base.Bytes.{memcpy, length-memcpy}
use casycom.Msg.{no_fd_in_message}
use casycom.Wire.{header_at, header_size, header_buf_size, validate_message_header}
use casycom.Externs.{Extern}
use casycom.Externs.Reading.{header_room, body_room, next_at, scatter}

-- The buffer is whole, and the header being read is not shorter than what is fixed of it, or than what
-- has been read.
pub record IsReading (o : Extern) : Type 0 where
  pub buffer : length o.h_buf ≡ header_buf_size
  pub byte : (header_at o.h_buf).hsz < 2 ^ 8
  pub valid : validate_message_header (header_at o.h_buf) ≡ true
  pub begun : header_size ≤ o.h_read
  pub within : o.h_read ≤ (header_at o.h_buf).hsz

-- How many bytes `recvmsg` may give.
abbrev pub capacity : Extern → ℕ
capacity o = header_room o + body_room o + header_size

module _ (o : Extern) (r : IsReading o) where
  hsz_aligned : (header_at o.h_buf).hsz % 8 ≡ 0
  unfolding validate_message_header
  hsz_aligned = ground (arith, r.valid)

  room_within : o.h_read + header_room o ≤ header_buf_size
  unfolding header_room
  room_within = ground (arith, r.begun, r.within, r.byte, hsz_aligned)

next_at-begun : (o : Extern) → header_size ≤ o.h_read → next_at o ≡ 0
unfolding next_at
next_at-begun o h = ground (arith, h)

-- While a message is read whose header is valid and has at least the size of its fixed part, a call
-- of `recvmsg`, however many of the bytes asked for it gives, writes within the header's buffer,
-- and leaves it whole.
pub scatter-buffer :
    (o : Extern) (bytes : List ℕ)
    → IsReading o
    → length bytes ≤ capacity o
    → (o' : Extern) × (scatter bytes o ≡ some o')
      × (length o'.h_buf ≡ header_buf_size)
      × (o'.h_read ≡ o.h_read)
unfolding scatter
scatter-buffer o bytes r h =
    let first = take (header_room o) bytes in
    let next = drop (body_room o) (drop (header_room o) bytes) in
    let l1 = length-take (header_room o) bytes in
    let l2 = length-drop (header_room o) bytes in
    let l3 = length-drop (body_room o) (drop (header_room o) bytes) in
    let room = room_within o r in
    let t : leb (o.h_read + length first) header_buf_size ≡ true =
      le→leb _ _ (omega (arith, l1, room)) in
    let u : next_at o ≡ 0 = next_at-begun o r.begun in
    let m1 = length-memcpy o.h_buf o.h_read first (omega (arith, l1, room, r.buffer)) in
    let m2 =
      length-memcpy (memcpy o.h_buf o.h_read first) 0 next
        (omega (arith, m1, l2, l3, h, r.buffer)) in
    rw (t, u) (_, refl, m2 ∙ (m1 ∙ r.buffer), refl)

-- A header that says that its size is 0, with an aligned body and no descriptor, passes
-- `Extern_validate_message_header`; after it, a call of `recvmsg` that gives more than 240 bytes
-- writes behind the header's buffer.
pub scatter-overflow :
    (o : Extern) (bytes : List ℕ)
    → (header_at o.h_buf).hsz ≡ 0
    → (header_at o.h_buf).sz % 8 ≡ 0
    → (header_at o.h_buf).fdoffset ≡ no_fd_in_message
    → o.h_read ≡ header_size
    → 240 < length bytes
    → length bytes < 2 ^ 31
    → (validate_message_header (header_at o.h_buf) ≡ true) × (scatter bytes o ≡ none)
unfolding scatter validate_message_header header_room
scatter-overflow o bytes hsz sz fd read many int =
    let room : header_room o ≡ 2 ^ 32 - 8 = ground (arith, hsz, read) in
    let l1 = length-take (header_room o) bytes in
    let t : leb (o.h_read + length (take (header_room o) bytes)) header_buf_size ≡ false =
      ground (arith, l1, room, read, many, int) in
    (ground (arith, hsz, sz, fd), rw t refl)
