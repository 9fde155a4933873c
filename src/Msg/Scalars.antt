-- ===== src/Msg/Scalars.antt =====
-- The validation of a body whose signature has numbers only.
use casycom.Base.{
  ℕ, zero, suc, ◌+◌, ◌%◌, ◌≤◌, ◌<◌, ◌≡◌, ◌≢◌, ◌⊎◌, inl, inr, ap, ◌∙◌, Bool, true, false, List, [],
  ◌∷◌, Option, some, arith, ◌==◌, leb, ◌&&◌, if◌then◌else◌, length, Bool-cases,
}
use casycom.Stm.{Stm}
use casycom.Msg.{Msg, stream}
use casycom.Msg.Signature.{sigelement_size, validate_sigelement, validate_all, validate_signature}

-- Every character stands for a number.
abbrev pub IsScalars : List ℕ → Type 0
IsScalars [] = Unit
IsScalars (c ∷ sig) = (sigelement_size c ≢ 0) × IsScalars sig

-- The documented layout from offset `p` on: every number aligned to its size, and before `end`.
abbrev pub IsPacked : List ℕ → ℕ → ℕ → Type 0
IsPacked [] p end = Unit
IsPacked (c ∷ sig) p end =
    (p % sigelement_size c ≡ 0)
    × (p + sigelement_size c ≤ end)
    × IsPacked sig (p + sigelement_size c) end

abbrev pub total_size : List ℕ → ℕ
total_size [] = 0
total_size (c ∷ sig) = sigelement_size c + total_size sig

abbrev pub fits_here : ℕ → Stm → Bool
fits_here c buf = leb (buf.p + sigelement_size c) buf.end && (buf.p % sigelement_size c == 0)

abbrev pub past : ℕ → Stm → Stm
past c buf = record buf { p = buf.p + sigelement_size c }

module _ (c : ℕ) (sig : List ℕ) (buf : Stm) (scalar : sigelement_size c ≢ 0) where
  pub not_zero : (sigelement_size c == 0) ≡ false
  not_zero = ground (arith, scalar)

  pub validate-scalar :
      (fuel : ℕ)
      → validate_sigelement (suc fuel) (c ∷ sig) buf ≡ (
          if fits_here c buf then some (sigelement_size c, sig, past c buf) else some (0, sig, buf))
  unfolding validate_sigelement
  validate-scalar fuel = rw not_zero (ground arith)

  validate_all_bad :
      (n sz : ℕ) → fits_here c buf ≡ false → validate_all (suc n) (c ∷ sig) buf sz ≡ some 0
  unfolding validate_all
  validate_all_bad n sz h = rw (validate-scalar (length sig), h)

  validate_all_good :
      (n sz : ℕ)
      → fits_here c buf ≡ true
      → validate_all (suc n) (c ∷ sig) buf sz
        ≡ validate_all n sig (past c buf) (sz + sigelement_size c)
  unfolding validate_all
  validate_all_good n sz h = rw (validate-scalar (length sig), h, not_zero)

-- A signature of numbers is accepted, with the sum of their sizes, if the body has the documented
-- layout, and gives the error 0 if it has not.
Verdict : List ℕ → Stm → ℕ → Option ℕ → Type 0
Verdict sig buf sz r =
    (IsPacked sig buf.p buf.end × (r ≡ some (sz + total_size sig)))
    ⊎ ((¬ IsPacked sig buf.p buf.end) × (r ≡ some 0))

fits-packed :
    (c : ℕ) (sig : List ℕ) (buf : Stm)
    → IsPacked (c ∷ sig) buf.p buf.end
    → fits_here c buf ≡ false
    → ⊥
fits-packed c sig buf packed e = ground (arith, packed.0, packed.1)

Verdict-cons :
    (c : ℕ) (sig : List ℕ) (buf : Stm) (sz : ℕ) (r : Option ℕ)
    → fits_here c buf ≡ true
    → Verdict sig (past c buf) (sz + sigelement_size c) r
    → Verdict (c ∷ sig) buf sz r
unfolding Verdict
Verdict-cons c sig buf sz r e (inl (packed, v)) =
    inl ((ground arith, ground arith, packed), v ∙ ap some (omega arith))
Verdict-cons c sig buf sz r e (inr (loose, v)) = inr (λ packed. loose packed.2, v)

validate_all-Verdict :
    (fuel : ℕ) (sig : List ℕ) (buf : Stm) (sz : ℕ)
    → IsScalars sig
    → length sig < fuel
    → Verdict sig buf sz (validate_all fuel sig buf sz)
unfolding Verdict
validate_all-Verdict zero sig buf sz h lt = absurd (omega arith)
validate_all-Verdict (suc fuel) [] buf sz h lt =
    inl (tt, unfold validate_all in ap some (omega arith))
validate_all-Verdict (suc fuel) (c ∷ sig) buf sz h lt = elim (Bool-cases (fits_here c buf)) [
  | inr e ↦ inr (λ packed. fits-packed c sig buf packed e, validate_all_bad c sig buf h.0 fuel sz e)
  | inl e ↦ rw (validate_all_good c sig buf h.0 fuel sz e) (
      Verdict-cons c sig buf sz _ e
        (validate_all-Verdict fuel sig (past c buf) (sz + sigelement_size c) h.1 (omega arith)))
]

-- `casymsg_validate_signature` on a signature of numbers gives the sum of their sizes if each
-- number lies at its alignment and inside the body, and 0 otherwise.
pub validate_signature-scalars :
    (sig : List ℕ) (msg : Msg)
    → IsScalars sig
    → (IsPacked sig 0 msg.size × (validate_signature sig msg ≡ some (total_size sig)))
      ⊎ ((¬ IsPacked sig 0 msg.size) × (validate_signature sig msg ≡ some 0))
unfolding validate_signature Verdict
validate_signature-scalars sig msg h =
    let e : 0 + total_size sig ≡ total_size sig = omega arith in
    rw e at (validate_all-Verdict (length sig + 1) sig (stream msg) 0 h (omega arith))
