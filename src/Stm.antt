-- ===== src/Stm.antt =====
-- stm.h and stm.c: reading and writing the body of a message. A stream is the body with two offsets
-- into it; the body's block is aligned for every type, so an offset is aligned as its address is.
-- `none` is a failed assertion. Values are their bit patterns, and the machine is little-endian.
pub mod Values
pub mod Padding
pub mod Texts
pub mod Strings
use casycom.Base.{
  ℕ, zero, suc, ◌+◌, ◌-◌, ◌*◌, ◌/◌, ◌%◌, ◌≤◌, ◌≡◌, Bool, true, false, List, [], ◌∷◌, ◌++◌, Option,
  none, some, leb, ◌==◌, if◌then◌else◌, length, take, drop, get_or, ceilg,
}
use casycom.Base.Bytes.{memcpy}
use casycom.Base.Chain.{◌>>=◌, ◌>>◌, assert}

-- `RStm` and `WStm`.
pub record Stm : Type 0 where
  pub d : List ℕ
  pub p : ℕ
  pub end : ℕ

-- The lowest byte first.
unfoldable pub le_bytes : ℕ → ℕ → List ℕ
le_bytes zero v = []
le_bytes (suc n) v = v % 256 ∷ le_bytes n (v / 256)

unfoldable pub le_value : List ℕ → ℕ
le_value [] = 0
le_value (b ∷ bs) = b + 256 * le_value bs

unfoldable pub read_available : Stm → ℕ
read_available s = s.end - s.p

unfoldable pub can_read : Stm → ℕ → Bool
can_read s sz = leb (s.p + sz) s.end

unfoldable pub read_skip : Stm → ℕ → Option Stm
unfolding can_read
read_skip s sz = do assert (can_read s sz); some (record s { p = s.p + sz })

unfoldable pub unread : Stm → ℕ → Stm
unread s sz = record s { p = s.p - sz }

unfoldable pub read_skip_to_end : Stm → Stm
read_skip_to_end s = record s { p = s.end }

-- The bytes read, and the stream behind them.
unfoldable pub read_data : Stm → ℕ → Option (List ℕ × Stm)
unfolding read_skip
read_data s sz = do s' ← read_skip s sz; some (take sz (drop s.p s.d), s')

unfoldable pub is_aligned : Stm → ℕ → Bool
is_aligned s grain = s.p % grain == 0

-- No bound is checked here.
unfoldable pub read_align : Stm → ℕ → Stm
unfolding ceilg
read_align s grain = record s { p = ceilg s.p grain }

-- `casystm_read_##name`, for a type of `n` bytes.
unfoldable pub read_pod : ℕ → Stm → Option (ℕ × Stm)
unfolding read_skip is_aligned le_value
read_pod n s = do
  assert (is_aligned s n)
  s' ← read_skip s n
  some (le_value (take n (drop s.p s.d)), s')

unfoldable pub write_skip : Stm → ℕ → Option Stm
unfolding can_read
write_skip s sz = do assert (can_read s sz); some (record s { p = s.p + sz })

unfoldable pub write_skip_to_end : Stm → Stm
write_skip_to_end s = record s { p = s.end }

unfoldable pub write_data : Stm → List ℕ → ℕ → Option Stm
unfolding write_skip memcpy
write_data s buf sz = do
  s' ← write_skip s sz
  some (record s' { d = memcpy s'.d s.p (take sz buf) })

-- `casystm_write_##name`.
unfoldable pub write_pod : ℕ → Stm → ℕ → Option Stm
unfolding write_skip is_aligned le_bytes memcpy
write_pod n s v = do
  assert (is_aligned s n)
  s' ← write_skip s n
  some (record s' { d = memcpy s'.d s.p (le_bytes n v) })

-- `while (!casystm_is_write_aligned (s, grain)) casystm_write_uint8 (s, 0);`: a round moves by one,
-- so `grain` rounds come to a multiple of it.
unfoldable pub write_align : ℕ → Stm → ℕ → Option Stm
unfolding write_pod is_aligned
write_align zero s grain = none
write_align (suc fuel) s grain = elim (is_aligned s grain) [
  | true ↦ some s
  | false ↦ write_pod 1 s 0 >>= λ s'. write_align fuel s' grain
]

-- A text is its bytes up to the terminator. The null pointer reads as the empty text.
unfoldable pub size_string : List ℕ → ℕ
unfolding ceilg
size_string v = ceilg (4 + length v + (if length v == 0 then 0 else 1)) 4

-- `strnlen`, with the bytes that it passes.
unfoldable pub strnlen : List ℕ → ℕ → List ℕ
strnlen d zero = []
strnlen [] (suc n) = []
strnlen (b ∷ d) (suc n) = if b == 0 then [] else b ∷ strnlen d n

unfoldable pub write_string : Stm → List ℕ → Option Stm
unfolding write_pod write_data write_align
write_string s v = do
  let vlen = if length v == 0 then 0 else length v + 1
  s1 ← write_pod 4 s vlen
  s2 ← write_data s1 (v ++ (0 ∷ [])) vlen
  write_align 4 s2 4

unfoldable pub read_string : Stm → Option (List ℕ × Stm)
unfolding read_skip read_align
read_string s = do
  (vlen, s1) ← read_pod 4 s
  let at = if vlen == 0 then s1.p - 1 else s1.p
  s2 ← read_skip s1 vlen
  let s3 = read_align s2 4
  let v = strnlen (drop at s3.d) (s3.p - at)
  assert (length v == (if vlen == 0 then 0 else vlen - 1))
  some (v, s3)
