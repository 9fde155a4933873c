-- ===== src/Msg/Bodies.antt =====
-- Bodies that change hands: `casymsg_from_vector` and `casymsg_forward` of msg.c.
use native.Mathlib.Nat.{div-add-mod', mod-lt, mul-le-mul_right, le_trans}
use casycom.Base.{
  ℕ, ◌+◌, ◌*◌, ◌-◌, ◌≤◌, ◌<◌, ◌≡◌, refl, ap₂, [], some, arith, length, take, ceilg, divide_ceil,
}
use casycom.Msg.{Msg, Proxy, begin, from_vector, message_body_alignment, no_fd_in_message}
use casycom.Vector.{CharVector, unlink}
use casycom.Vector.Contents.{IsValid, content}
use casycom.Vector.Growth.{Fits, Reserved, reserve-Reserved}

-- The elements that the padded block of the body takes.
abbrev pub padded_count : CharVector → ℕ
padded_count v = divide_ceil (ceilg (v.size * v.elsize) message_body_alignment) v.elsize

divide_ceil-enough : (n d : ℕ) → 0 < d → n ≤ divide_ceil n d * d
unfolding divide_ceil
divide_ceil-enough n d h = omega (arith, div-add-mod' (n + d - 1) d, mod-lt (n + d - 1) {m = d} h)

-- The message that takes over the block of `v`.
taken : Proxy → ℕ → CharVector → Msg
taken pp imethod v = record (begin pp imethod 0) { body = v.d; size = v.size * v.elsize }

-- The message of a vector: the vector's elements as the body, in a block padded to the alignment of a
-- body.
pub record Carries (pp : Proxy) (imethod : ℕ) (v : CharVector) (m : Msg) : Type 0 where
  pub from : m.h ≡ pp
  pub to : m.imethod ≡ imethod
  pub no_fd : m.fdoffset ≡ no_fd_in_message
  pub all_bytes : m.size ≡ v.size * v.elsize
  pub same_bytes : take m.size m.body ≡ content v
  pub padded : ceilg m.size message_body_alignment ≤ length m.body

taken-Carries :
    (pp : Proxy) (imethod : ℕ) (v v' : CharVector)
    → 0 < v.elsize
    → Reserved v (padded_count v) v'
    → Carries pp imethod v (taken pp imethod v')
unfolding taken begin
taken-Carries pp imethod v v' pos r =
    let e : v'.size * v'.elsize ≡ v.size * v.elsize = ap₂ ◌*◌ r.same_size r.same_elsize in
    let need = divide_ceil-enough (ceilg (v.size * v.elsize) 8) v.elsize pos in
    let have : padded_count v * v.elsize ≤ v'.allocated * v'.elsize =
      rw r.same_elsize (mul-le-mul_right v.elsize r.room) in
    record {
      from = refl;
      to = refl;
      no_fd = refl;
      all_bytes = e;
      same_bytes = r.same_content;
      padded = rw (e, r.valid.block) (le_trans need have);
    }

-- On a well-formed vector that can grow to the padded size, `casymsg_from_vector` makes a message
-- with the bytes of the elements in a block padded to the alignment of a body, and leaves the
-- vector empty.
pub from_vector-Carries :
    (pp : Proxy) (imethod : ℕ) (v : CharVector)
    → IsValid v
    → Fits v (padded_count v)
    → (m : Msg) × (w : CharVector) × (from_vector pp imethod v ≡ some (m, w))
      × Carries pp imethod v m
      × (w.size ≡ 0)
      × (w.d ≡ [])
unfolding from_vector taken unlink
from_vector-Carries pp imethod v valid fits =
    let (v', e, r) = reserve-Reserved v (padded_count v) valid fits in
    (
      taken pp imethod v',
      unlink v',
      rw e refl,
      taken-Carries pp imethod v v' valid.elements r,
      refl,
      refl,
    )
