-- ===== src/Msg.antt =====
-- msg.h and msg.c: messages and the proxies that head them. The body is the bytes that `body` points
-- to, and `[]` for the null pointer. A pointer that is only compared is a number, 0 for null.
pub mod Signature
pub mod Scalars
pub mod Compound
pub mod Bodies
pub mod Texts
use casycom.Base.{
  ℕ, ◌+◌, ◌*◌, ◌^◌, ◌-◌, ◌%◌, ◌≡◌, Bool, true, false, List, [], ◌∷◌, Option, none, some, ◌==◌, leb,
  not, ◌&&◌, if◌then◌else◌, length, get_elem?, replicate, ceilg, divide_ceil,
}
use casycom.Base.Chain.{◌>>=◌, ◌>>◌, assert}
use casycom.Stm.{Stm, write_pod, read_pod}
use casycom.Vector.{CharVector, reserve, unlink}

-- `oid_t` values.
abbrev pub oid_broadcast : ℕ
oid_broadcast = 0

abbrev pub oid_app : ℕ
oid_app = 1

abbrev pub oid_first : ℕ
oid_first = 2

abbrev pub oid_last : ℕ
oid_last = 31999

-- A method is its name and its signature, which stand behind one another in the source's string.
pub record Interface : Type 0 where
  pub name : List ℕ
  pub method : List (List ℕ × List ℕ)

pub record Proxy : Type 0 where
  pub interface : ℕ
  pub src : ℕ
  pub dest : ℕ

pub record Msg : Type 0 where
  pub h : Proxy
  pub imethod : ℕ
  pub size : ℕ
  pub extid : ℕ
  pub fdoffset : ℕ
  pub body : List ℕ

abbrev pub no_fd_in_message : ℕ
no_fd_in_message = 255

abbrev pub message_body_alignment : ℕ
message_body_alignment = 8

abbrev pub method_invalid : ℕ
method_invalid = 2 ^ 32 - 2

abbrev pub method_create_object : ℕ
method_create_object = 2 ^ 32 - 1

unfoldable pub begin : Proxy → ℕ → ℕ → Msg
unfolding ceilg
begin pp imethod sz = record {
  h = pp;
  imethod = imethod;
  size = sz;
  extid = 0;
  fdoffset = no_fd_in_message;
  body = if sz == 0 then [] else replicate (ceilg sz message_body_alignment) 0;
}

-- `casymsg_read` and `casymsg_write`.
unfoldable pub stream : Msg → Stm
stream msg = record { d = msg.body; p = 0; end = msg.size }

-- What was written through a stream is in the body.
unfoldable pub written : Msg → Stm → Msg
written msg os = record msg { body = os.d }

-- Takes over the block of a vector; returns the message to queue and the vector, detached.
unfoldable pub from_vector : Proxy → ℕ → CharVector → Option (Msg × CharVector)
unfolding begin ceilg divide_ceil
from_vector pp imethod body = do
  let asz = ceilg (body.size * body.elsize) message_body_alignment
  vbody ← reserve body (divide_ceil asz body.elsize)
  some (
    record (begin pp imethod 0) { body = vbody.d; size = vbody.size * vbody.elsize },
    unlink vbody,
  )

-- Moves the body into a new message from `pp`. Returns the message to queue, and what is left.
unfoldable pub forward : Proxy → Msg → Msg × Msg
unfolding begin
forward pp msg =
    let new = begin pp msg.imethod 0 in
    (
      record new {
        h = record pp { interface = msg.h.interface };
        body = msg.body;
        size = msg.size;
        extid = msg.extid;
        fdoffset = msg.fdoffset;
      },
      record msg { size = 0; body = [] },
    )

-- The offset is kept in eight bits.
unfoldable pub write_fd : Msg → Stm → ℕ → Option (Msg × Stm)
write_fd msg os fd = do
  assert (not (os.p == no_fd_in_message))
  assert (msg.fdoffset == no_fd_in_message)
  os' ← write_pod 4 os fd
  some (record msg { fdoffset = os.p % 256 }, os')

unfoldable pub read_fd : Msg → Stm → Option (ℕ × Stm)
read_fd msg is = do assert (is.p == msg.fdoffset); read_pod 4 is

unfoldable pub count_methods : Interface → ℕ
count_methods iid = length iid.method

-- The signature of a method; the null pointer stands after the last one.
unfoldable pub signature_of : Interface → ℕ → Option (List ℕ)
signature_of iid imethod = elim (get_elem? iid.method imethod) [
  | none ↦ none
  | some (name, sig) ↦ some sig
]

-- A method that no dispatcher knows is an error, but for the request to create an object.
unfoldable pub default_dispatch : Msg → Option (Unit {0})
default_dispatch msg = assert (msg.imethod == method_create_object)
