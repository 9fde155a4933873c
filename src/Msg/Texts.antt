-- ===== src/Msg/Texts.antt =====
-- The validation of a body that is one text, as `casystm_write_string` writes it.
use casycom.Base.{
  ℕ, zero, suc, ◌+◌, ◌-◌, ◌*◌, ◌≤◌, ◌≡◌, refl, ap, true, false, List, none, [], ◌∷◌, some, arith,
  ◌==◌, leb, le→leb, if◌then◌else◌, length, take, drop, get_elem?, ceilg,
}
use casycom.Base.Bytes.{list_ext, get_elem?-take, get_elem?-drop}
use casycom.Stm.{Stm, le_value, can_read, read_pod, read_align, unread}
use casycom.Stm.Values.{read_pod-eq}
use casycom.Msg.{Msg, stream}
use casycom.Msg.Signature.{
  validate_read_align, validate_items, validate_end, validate_string, validate_all,
  validate_signature, validate_sigelement, Validator, tail,
}

first_byte : (d : List ℕ) (i : ℕ) → get_elem? d i ≡ some 0 → le_value (take 1 (drop i d)) ≡ 0
unfolding le_value
first_byte d i h =
    let one : take 1 (drop i d) ≡ 0 ∷ [] =
      list_ext _ _
        λ k. ground (arith, h, get_elem?-take 1 (drop i d) k, get_elem?-drop i d k, singleton k) in
    rw one refl
  where
    singleton : (k : ℕ) → get_elem? {A = ℕ} (0 ∷ []) k ≡ (if k == 0 then some 0 else none)
    singleton zero = refl
    singleton (suc k) = ground arith

-- A stream at the start of a body with a text of `vlen` bytes, its terminator included, that ends with
-- the padding of the text.
pub record HasText (buf : Stm) (vlen : ℕ) : Type 0 where
  pub at_start : buf.p ≡ 0
  pub count : read_pod 4 buf ≡ some (vlen, record buf { p = 4 })
  pub last : get_elem? buf.d (3 + vlen) ≡ some 0
  pub ends : ceilg (4 + vlen) 4 ≡ buf.end
  pub block : buf.end ≤ length buf.d

module _ (buf : Stm) (vlen : ℕ) (t : HasText buf vlen) where
  inside : 4 + vlen ≤ buf.end
  unfolding ceilg
  inside = omega (arith, t.ends)

  last-read : read_pod 1 (record buf { p = 3 + vlen }) ≡ some (0, record buf { p = 3 + vlen + 1 })
  last-read =
      read_pod-eq (record buf { p = 3 + vlen }) 1 0
        (record { aligned = omega arith; inside = omega (arith, inside); block = t.block })
        (first_byte buf.d (3 + vlen) t.last)

  whole : 4 + vlen + (buf.end - (4 + vlen)) ≡ buf.end
  whole = omega (arith, inside)

  padding :
      validate_read_align (record buf { p = 4 + vlen }) (4 + vlen) 4
      ≡ (buf.end - (4 + vlen), record buf { p = buf.end })
  unfolding validate_read_align can_read
  padding = rw (t.ends, whole, le→leb buf.end buf.end (omega arith)) refl

  validate_end-eq :
      validate_end (4 + vlen) [] (record buf { p = 4 + vlen })
      ≡ some (buf.end, [], record buf { p = buf.end })
  unfolding validate_end unread
  validate_end-eq =
      let at : 4 + vlen - 1 ≡ 3 + vlen = omega arith in
      let past : 3 + vlen + 1 ≡ 4 + vlen = omega arith in
      rw (at, last-read, past, padding, whole) refl

  validate_items-eq :
      (v : Validator)
      → validate_items v vlen 1 4 [] (record buf { p = 4 })
        ≡ some (4 + vlen, record buf { p = 4 + vlen })
  unfolding validate_items can_read read_align
  validate_items-eq v =
      let same : 1 * vlen ≡ vlen = omega arith in rw (same, le→leb (4 + vlen) buf.end inside) refl

  pub validate_string-eq :
      validate_string (b's' ∷ []) buf ≡ some (buf.end, [], record buf { p = buf.end })
  unfolding validate_string can_read tail
  validate_string-eq =
      let room : leb (buf.p + 4) buf.end ≡ true =
        le→leb (buf.p + 4) buf.end (omega (arith, inside, t.at_start)) in
      let some_size : (4 + vlen == 0) ≡ false = ground arith in
      rw (room, t.count, validate_items-eq _, some_size, validate_end-eq) refl

-- `casymsg_validate_signature` takes a body that is a text for one.
pub validate_signature-text :
    (msg : Msg) (vlen : ℕ)
    → HasText (stream msg) vlen
    → validate_signature (b's' ∷ []) msg ≡ some msg.size
unfolding validate_signature validate_all validate_sigelement stream
validate_signature-text msg vlen t =
    let fits : 4 + vlen ≤ msg.size = inside (stream msg) vlen t in
    let some_size : (msg.size == 0) ≡ false = ground (arith, fits) in
    rw (validate_string-eq (stream msg) vlen t, some_size) (ap some (omega arith))
