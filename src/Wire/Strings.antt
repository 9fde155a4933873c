-- ===== src/Wire/Strings.antt =====
-- `strlen` and `strnext` on a text in a buffer.
use casycom.Base.{
  ℕ, zero, suc, ◌+◌, ◌≡◌, refl, ap, ◌∙◌, sym, List, [], ◌∷◌, ◌++◌, length, take, drop, arith,
}
use casycom.Stm.Texts.{IsText}
use casycom.Wire.{strlen, strnext}

module _ {ℓ} {A : Type ℓ} where
  pub drop_nil : (n : ℕ) → drop {A = A} n [] ≡ []
  drop_nil zero = refl
  drop_nil (suc n) = refl

  pub drop-drop : (m n : ℕ) (d : List A) → drop n (drop m d) ≡ drop (m + n) d
  drop-drop zero n d = ap (λ k. drop k d) (omega arith)
  drop-drop (suc m) n [] = drop_nil n ∙ sym (drop_nil (suc m + n))
  drop-drop (suc m) n (x ∷ d) =
      let e : suc m + n ≡ suc (m + n) = omega arith in rw e (drop-drop m n d)

  pub drop-length : (xs ys : List A) → drop (length xs) (xs ++ ys) ≡ ys
  drop-length [] ys = refl
  drop-length (x ∷ xs) ys = drop-length xs ys

  pub take-length : (xs ys : List A) → take (length xs) (xs ++ ys) ≡ xs
  take-length [] ys = refl
  take-length (x ∷ xs) ys = ap (x ∷◌) (take-length xs ys)

pub strlen-text : (v rest : List ℕ) → IsText v → strlen (v ++ (0 ∷ rest)) ≡ length v
unfolding strlen
strlen-text [] rest t = refl
strlen-text (b ∷ v) rest t = let e = strlen-text v rest t.1 in ground (arith, t.0, e)

module _ (d : List ℕ) (p : ℕ) (v rest : List ℕ) (here : drop p d ≡ v ++ (0 ∷ rest)) where
  pub strnext-text : IsText v → strnext d p ≡ p + length v + 1
  unfolding strnext
  strnext-text t = rw (here, strlen-text v rest t) refl

  pub drop-text : drop (p + length v + 1) d ≡ rest
  drop-text =
      let e : p + length v + 1 ≡ p + (length v + 1) = omega arith in
      let split = drop-drop p (length v + 1) d in
      let past = drop-drop (length v) 1 (v ++ (0 ∷ rest)) in
      rw (e, sym split, here, sym past, drop-length v (0 ∷ rest)) refl
