-- ===== src/Stm/Values.antt =====
-- Numbers written to a stream are read back.
use native.Mathlib.Nat.{pow-suc}
use casycom.Base.{
  ℕ, zero, suc, ◌+◌, ◌-◌, ◌/◌, ◌%◌, ◌^◌, ◌≤◌, ◌<◌, ◌≡◌, refl, ap, sym, ◌∙◌, true, List, some, arith,
  length, take, drop, ◌==◌, le→leb,
}
use casycom.Base.Bytes.{
  memcpy, get_elem?-memcpy, get_elem?-take, get_elem?-drop, list_ext, length-memcpy, get_elem?-ge,
}
use casycom.Stm.{
  Stm, le_bytes, le_value, can_read, is_aligned, read_pod, write_pod, read_skip, write_skip,
}

pub length-le_bytes : (n v : ℕ) → length (le_bytes n v) ≡ n
unfolding le_bytes
length-le_bytes zero v = refl
length-le_bytes (suc n) v = ap suc (length-le_bytes n (v / 256))

pub le_value-le_bytes : (n v : ℕ) → v < 256 ^ n → le_value (le_bytes n v) ≡ v
unfolding le_value le_bytes
le_value-le_bytes zero v h = omega arith
le_value-le_bytes (suc n) v h =
    omega (arith, le_value-le_bytes n (v / 256) (omega (arith, pow-suc 256 n)))

-- The bytes of a copy, taken out again.
pub take-drop-memcpy :
    (d : List ℕ) (off : ℕ) (b : List ℕ)
    → off + length b ≤ length d
    → take (length b) (drop off (memcpy d off b)) ≡ b
take-drop-memcpy d off b h = list_ext _ _ λ i. ground (
  arith,
  h,
  get_elem?-take (length b) (drop off (memcpy d off b)) i,
  get_elem?-drop off (memcpy d off b) i,
  get_elem?-memcpy d off b (off + i),
  get_elem?-ge b i,
  plus_minus i,
)
  where
    plus_minus : (i : ℕ) → off + i - off ≡ i
    plus_minus i = omega arith

-- The place of a value of `n` bytes: aligned, and inside the stream and its block.
pub record HasRoom (s : Stm) (n : ℕ) : Type 0 where
  pub aligned : s.p % n ≡ 0
  pub inside : s.p + n ≤ s.end
  pub block : s.end ≤ length s.d

module _ (s : Stm) (n v : ℕ) (room : HasRoom s n) where
  pub write_pod-eq :
      write_pod n s v ≡ some (record s { d = memcpy s.d s.p (le_bytes n v); p = s.p + n })
  unfolding write_pod write_skip can_read is_aligned
  write_pod-eq =
      let t : (s.p % n == 0) ≡ true = ground (arith, room.aligned) in
      rw (t, le→leb (s.p + n) s.end room.inside)

  pub read_pod-eq :
      le_value (take n (drop s.p s.d)) ≡ v → read_pod n s ≡ some (v, record s { p = s.p + n })
  unfolding read_pod read_skip can_read is_aligned
  read_pod-eq h =
      let t : (s.p % n == 0) ≡ true = ground (arith, room.aligned) in
      rw (t, le→leb (s.p + n) s.end room.inside, h)

-- A number that fits its size, written at an aligned place inside the body, is read back from
-- there, and both streams have passed its bytes.
pub read_pod-write_pod :
    (s : Stm) (n v : ℕ)
    → HasRoom s n
    → v < 256 ^ n
    → (s' : Stm) × (write_pod n s v ≡ some s')
      × (read_pod n (record s' { p = s.p }) ≡ some (v, s'))
      × (s'.p ≡ s.p + n)
read_pod-write_pod s n v room h =
    let b = le_bytes n v in
    let len = length-le_bytes n v in
    let fits : s.p + length b ≤ length s.d = omega (arith, len, room.inside, room.block) in
    let back : take n (drop s.p (memcpy s.d s.p b)) ≡ b =
      ap (λ k. take k (drop s.p (memcpy s.d s.p b))) (sym len) ∙ take-drop-memcpy s.d s.p b fits in
    (
      record s { d = memcpy s.d s.p b; p = s.p + n },
      write_pod-eq s n v room,
      read_pod-eq (record s { d = memcpy s.d s.p b }) n v
          (record {
            aligned = room.aligned;
            inside = room.inside;
            block = omega (arith, length-memcpy s.d s.p b fits, room.block);
          })
          (ap le_value back ∙ le_value-le_bytes n v h),
      refl,
    )
