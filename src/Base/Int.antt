-- ===== src/Base/Int.antt =====
-- A C `int`, compared with a constant.
use Prim.Native.Nat.{ℕ}
use mathlib.Core.Bool.{Bool, true}
use casycom.Base.Tests.{ltb}

-- `negsuc n` is -(n + 1).
pub data ℤ : Type 0 where
  pos : ℕ → ℤ
  negsuc : ℕ → ℤ

-- `c > i`.
abbrev pub gtb : ℕ → ℤ → Bool
gtb c (pos n) = ltb n c
gtb c (negsuc n) = true
