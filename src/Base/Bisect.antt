-- ===== src/Base/Bisect.antt =====
-- The bisection loop of `_vector_bound` (vector.c) and of `casycom_omap_lower_bound` (main.c), over
-- the test that sends it to the right half.
use Prim.Native.Nat.{ℕ, zero, suc, ◌+◌, ◌-◌, ◌/◌, ◌≤◌, ◌<◌}
use mathlib.Core.Path.{◌≡◌, refl}
use mathlib.Core.Logic.{inl, inr}
use mathlib.Core.Bool.{Bool, true, false}
use mathlib.Core.Option.{Option, none, some}
use native.Mathlib.Omega.{arith}
use casycom.Base.Tests.{ltb, Bool-cases}

-- `none` means that the fuel ran out.
unfoldable pub bisect : ℕ → (ℕ → Bool) → ℕ → ℕ → Option ℕ
bisect zero t first last = none
bisect (suc fuel) t first last = elim (ltb first last) [
  | true ↦ elim (t ((first + last) / 2)) [
    | true ↦ bisect fuel t ((first + last) / 2 + 1) last
    | false ↦ bisect fuel t first ((first + last) / 2)
  ]
  | false ↦ some first
]

-- The test holds on a first part of the indices below `n`, and fails on the rest of them.
abbrev pub Falls : (ℕ → Bool) → ℕ → Type 0
Falls t n = (i j : ℕ) → i ≤ j → j < n → t j ≡ true → t i ≡ true

-- `r` is where the test stops to hold.
pub record Splits (t : ℕ → Bool) (n r : ℕ) : Type 0 where
  pub inside : r ≤ n
  pub below : (i : ℕ) → i < r → t i ≡ true
  pub above : (i : ℕ) → r ≤ i → i < n → t i ≡ false

module _ (t : ℕ → Bool) (fuel first last : ℕ) where
  bisect_stop : ltb first last ≡ false → bisect (suc fuel) t first last ≡ some first
  unfolding bisect
  bisect_stop h = ground arith

  bisect_right :
      ltb first last ≡ true
      → t ((first + last) / 2) ≡ true
      → bisect (suc fuel) t first last ≡ bisect fuel t ((first + last) / 2 + 1) last
  unfolding bisect
  bisect_right h e = ground arith

  bisect_left :
      ltb first last ≡ true
      → t ((first + last) / 2) ≡ false
      → bisect (suc fuel) t first last ≡ bisect fuel t first ((first + last) / 2)
  unfolding bisect
  bisect_left h e = ground arith

module _ (t : ℕ → Bool) (n : ℕ) (falls : Falls t n) where
  above_mid : (m : ℕ) → t m ≡ false → (i : ℕ) → m ≤ i → i < n → t i ≡ false
  above_mid m e i p q = elim (Bool-cases (t i)) [
    | inl hit ↦ ground (arith, falls m i p q hit)
    | inr miss ↦ miss
  ]

  bisect-Splits_from :
      (fuel first last : ℕ)
      → last - first < fuel
      → first ≤ last
      → last ≤ n
      → ((i : ℕ) → i < first → t i ≡ true)
      → ((i : ℕ) → last ≤ i → i < n → t i ≡ false)
      → (r : ℕ) × (bisect fuel t first last ≡ some r) × Splits t n r
  bisect-Splits_from zero first last h p q lo hi = absurd (omega arith)
  bisect-Splits_from (suc fuel) first last h p q lo hi = elim (Bool-cases (ltb first last)) [
    | inr done ↦
        let e : first ≡ last = ground arith in
        rw (bisect_stop t fuel first last done) (
          first,
          refl,
          record { inside = omega arith; below = lo; above = λ i u v. hi i (omega arith) v },
        )
    | inl more ↦
        let lt : first < last = ground arith in
        elim (Bool-cases (t ((first + last) / 2))) [
          | inl e ↦ rw (bisect_right t fuel first last more e) (
              bisect-Splits_from fuel ((first + last) / 2 + 1) last (omega arith) (omega arith) q
                (λ i u. falls i ((first + last) / 2) (omega arith) (omega arith) e) hi)
          | inr e ↦ rw (bisect_left t fuel first last more e) (
              bisect-Splits_from fuel first ((first + last) / 2) (omega arith) (omega arith)
                (omega arith) lo (above_mid ((first + last) / 2) e))
        ]
  ]

  -- With more fuel than indices the loop ends, at the place where the test stops to hold.
  pub bisect-Splits : (fuel : ℕ) → n < fuel → (r : ℕ) × (bisect fuel t 0 n ≡ some r) × Splits t n r
  bisect-Splits fuel h =
      bisect-Splits_from fuel 0 n (omega arith) (omega arith) (omega arith)
        (λ i u. absurd (omega arith)) (λ i u v. absurd (omega arith))

Splits-not_lt : (t : ℕ → Bool) (n r s : ℕ) → Splits t n r → Splits t n s → ¬ (r < s)
Splits-not_lt t n r s p q h =
    let above = p.above r (omega arith) (omega (arith, q.inside)) in let below = q.below r h in cc

-- There is one such place.
pub Splits-unique : (t : ℕ → Bool) (n r s : ℕ) → Splits t n r → Splits t n s → r ≡ s
Splits-unique t n r s p q = omega (arith, Splits-not_lt t n r s p q, Splits-not_lt t n s r q p)
