-- ===== src/Externs/Reading.antt =====
-- `Extern_reading`: what `recvmsg` gives is spread over the rest of the header, the rest of the body and
-- the next message's fixed header. `none` is a failed assertion, or a write behind the header's buffer.
pub mod Buffer
pub mod Pieces
pub mod Position
pub mod Assembly
pub mod Arrival
pub mod Beginning
pub mod Whole
use casycom.Base.{
  ℕ, ◌+◌, ◌-◌, ◌%◌, ◌^◌, Bool, true, false, not, ◌&&◌, List, [], ◌∷◌, ◌++◌, Option, none, some, ltb,
  leb, ◌==◌, if◌then◌else◌, length, take, drop, replicate,
}
use casycom.Base.Bytes.{memcpy}
use casycom.Base.Chain.{◌>>=◌, ◌>>◌, assert}
use casycom.Msg.{Msg, begin, method_create_object}
use casycom.FdIo.{Answer, done, closed, again, interrupted, failed}
use casycom.Wire.{header_buf_size, header_at, header_size, validate_message_header}
use casycom.Externs.{Extern, Net, Credentials, is_open, extern_close, fail, set_credentials_passing}
use casycom.Externs.Incoming.{
  Program, Verdict, refused, ignored, accepted, validate_message, queue_incoming_message,
}

-- Ancillary data: credentials, with what `setsockopt` answers then, or a descriptor.
pub data Ancillary : Type 0 where
  credentials : Credentials → Option (List ℕ) → Ancillary
  rights : ℕ → Ancillary

pub record Chunk : Type 0 where
  pub bytes : List ℕ
  pub ancillary : List Ancillary

abbrev pub msg_size : Option Msg → ℕ
msg_size none = 0
msg_size (some msg) = msg.size

-- `iov[0].iov_len` and `iov[1].iov_len`, of 32 bits each.
unfoldable pub header_room : Extern → ℕ
unfolding header_at
header_room o =
    if leb header_size o.h_read then ((header_at o.h_buf).hsz + 2 ^ 32 - o.h_read) % 2 ^ 32 else 0

unfoldable pub body_room : Extern → ℕ
body_room o =
    if leb header_size o.h_read then (msg_size o.in_msg + 2 ^ 32 - o.b_read) % 2 ^ 32 else 0

-- `iov[2].iov_base`, in the buffer.
unfoldable pub next_at : Extern → ℕ
next_at o = if leb header_size o.h_read then 0 else o.h_read

abbrev pub at_most : ℕ → ℕ → ℕ
at_most limit n = if ltb limit n then limit else n

abbrev fill : Option Msg → ℕ → List ℕ → Option Msg
unfolding memcpy
fill none off bytes = none
fill (some msg) off bytes = some (record msg { body = memcpy msg.body off bytes })

-- What the call writes; the third part goes over the fixed header, or on with it.
unfoldable pub scatter : List ℕ → Extern → Option Extern
unfolding header_room body_room next_at memcpy fill
scatter bytes o = do
  let first = take (header_room o) bytes
  let others = drop (header_room o) bytes
  let next = drop (body_room o) others
  assert (leb (o.h_read + length first) header_buf_size)
  some (record o {
    h_buf = memcpy (memcpy o.h_buf o.h_read first) (next_at o) next;
    in_msg = fill o.in_msg o.b_read (take (body_room o) others);
  })

-- "invalid message", and the other texts.
abbrev pub invalid_message : List ℕ
invalid_message =
    b'i' ∷ b'n' ∷ b'v' ∷ b'a' ∷ b'l' ∷ b'i' ∷ b'd' ∷ b' ' ∷ b'm' ∷ b'e' ∷ b's' ∷ b's' ∷ b'a' ∷ b'g'
    ∷ b'e' ∷ []

-- The counts and the buffer for the next message.
unfoldable pub restart : Extern → Extern
unfolding memcpy
restart o = record o {
  in_msg = none;
  h_read = 0;
  b_read = 0;
  h_buf = memcpy o.h_buf header_size (replicate (header_buf_size - header_size) 0);
}

abbrev pub is_null : Option Msg → Bool
is_null none = true
is_null (some msg) = false

-- "The message must be created after the fixed header is read".
unfoldable pub has_message : Extern → Bool
has_message o = not (leb header_size o.h_read && is_null o.in_msg)

-- The message that the fixed header announces.
unfoldable pub announced : Extern → Msg
unfolding begin header_at
announced o =
    let h = header_at o.h_buf in
    record (begin o.reply method_create_object h.sz) { extid = h.extid; fdoffset = h.fdoffset }

module _ {U : Type 0} where
  -- The loop over the ancillary data; false is the return that closes the socket.
  unfoldable pub take_ancillary : List ℕ → List Ancillary → Extern → Net U → Bool × Extern × Net U
  unfolding set_credentials_passing fail is_open
  take_ancillary multiple [] o n = (true, o, n)
  take_ancillary multiple (credentials c answer ∷ cs) o n =
      let r = set_credentials_passing answer (record o { info = record o.info { creds = c } }) n in
      take_ancillary multiple cs r.0 r.1
  take_ancillary multiple (rights fd ∷ cs) o n =
      let rest = take_ancillary multiple cs (record o { last_fd = fd }) n in
      if is_open o.last_fd then (let r = fail multiple o n in (false, r.0, r.1)) else rest

  -- A whole message is validated and queued; false is the return that closes the socket.
  unfoldable pub settle : Program → Verdict → Extern → Net U → Option (Bool × Extern × Net U)
  unfolding restart fail queue_incoming_message
  settle p refused o n = let r = fail invalid_message o n in some (false, r.0, r.1)
  settle p ignored o n = some (true, restart o, n)
  settle p (accepted msg) o n = do
    (o', m) ← queue_incoming_message p o msg n
    some (true, restart o', m)

  unfoldable pub complete_message : Program → Extern → Msg → Net U → Option (Bool × Extern × Net U)
  unfolding settle validate_message
  complete_message p o msg n = do
    assert (o.b_read == msg.size)
    r ← validate_message p o msg n
    settle p r.0 r.1 r.2

  -- The bytes of a fixed header, `br` of them.
  unfoldable pub start_message : ℕ → Extern → Net U → Option (Bool × Extern × Net U)
  unfolding announced validate_message_header header_at fail
  start_message br o n = if br == 0 then some (true, o, n) else (do
    assert (is_null o.in_msg && leb o.h_read header_size)
    let o' = record o { h_read = o.h_read + br }
    if ltb o'.h_read header_size
        then some (true, o', n)
        else if not (o'.h_read == header_size)
        then none
        else if validate_message_header (header_at o'.h_buf)
        then some (true, record o' { in_msg = some (announced o') }, n)
        else (let r = fail invalid_message o' n in some (false, r.0, r.1)))

  -- After the counts are adjusted: is the message whole?
  unfoldable pub after_counts : Program → Bool → ℕ → Extern → Net U → Option (Bool × Extern × Net U)
  unfolding complete_message start_message
  after_counts p whole br o n = elim (if whole then o.in_msg else none) [
    | none ↦ start_message br o n
    | some msg ↦
        complete_message p o msg n >>= λ r. if r.0 then start_message br r.1 r.2 else some r
  ]

  unfoldable pub receive :
      Program → List ℕ → Chunk → Extern → Net U → Option (Bool × Extern × Net U)
  unfolding scatter take_ancillary header_room body_room after_counts
  receive p multiple chunk o n = do
    o1 ← scatter chunk.bytes o
    let a = take_ancillary multiple chunk.ancillary o1 n
    if not a.0
        then some a
        else (let br = length chunk.bytes in
            let hbr = at_most (header_room o) br in
            let bbr = at_most (body_room o) (br - hbr) in
            after_counts p (bbr == body_room o) (br - hbr - bbr)
              (record a.1 { h_read = o.h_read + hbr; b_read = o.b_read + bbr }) a.2)

  -- The loop; the texts are those of its errors.
  unfoldable pub reading :
      Program → List ℕ → List ℕ → List (Answer Chunk) → Extern → Net U → Option (Extern × Net U)
  unfolding has_message receive extern_close fail
  reading p multiple recvmsg [] o n = none
  reading p multiple recvmsg (a ∷ calls) o n = assert (has_message o) >> elim a [
    | done chunk ↦ receive p multiple chunk o n >>= λ r.
        if r.0 then reading p multiple recvmsg calls r.1 r.2 else some (r.1, r.2)
    | closed ↦ some (extern_close o n)
    | again ↦ some (o, n)
    | interrupted ↦ reading p multiple recvmsg calls o n
    | failed e ↦ some (fail (recvmsg ++ e) o n)
  ]
