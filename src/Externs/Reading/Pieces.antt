-- ===== src/Externs/Reading/Pieces.antt =====
-- A piece of two lists, taken from where a reader stands in them.
use casycom.Base.{
  ℕ, zero, suc, ◌+◌, ◌-◌, ◌≤◌, ◌<◌, ◌≡◌, refl, ap, sym, ◌∙◌, List, [], ◌∷◌, ◌++◌, arith, length,
  take, drop, get_elem?, length-take, length-drop, take-append-drop,
}
use casycom.Wire.Strings.{drop-length}
use casycom.Base.Bytes.{
  list_ext, get_elem?-take, get_elem?-drop, get_elem?-append, get_elem?-ge, memcpy,
}

pub take_plus : (n k : ℕ) (d : List ℕ) → take (n + k) d ≡ take n d ++ take k (drop n d)
take_plus zero k d = ap (λ i. take i d) (omega arith)
take_plus (suc n) zero [] = let e : suc n + 0 ≡ suc n = omega arith in rw e refl
take_plus (suc n) (suc k) [] = let e : suc n + suc k ≡ suc (n + suc k) = omega arith in rw e refl
take_plus (suc n) k (x ∷ d) =
    let e : suc n + k ≡ suc (n + k) = omega arith in rw e (ap (x ∷◌) (take_plus n k d))

pub memcpy_nothing : (d : List ℕ) (n : ℕ) → memcpy d n [] ≡ d
unfolding memcpy
memcpy_nothing d n = let e : n + 0 ≡ n = omega arith in rw e (take-append-drop n d)

pub take_whole : (n : ℕ) (d : List ℕ) → length d ≤ n → take n d ≡ d
take_whole zero [] h = refl
take_whole zero (x ∷ d) h = absurd (omega arith)
take_whole (suc n) [] h = refl
take_whole (suc n) (x ∷ d) h = ap (x ∷◌) (take_whole n d (omega arith))

drop_plus :
    (a : List ℕ) (p q : ℕ) (b : List ℕ)
    → p ≤ length a
    → (0 < q → p ≡ length a)
    → drop (p + q) (a ++ b) ≡ drop p a ++ drop q b
drop_plus [] zero q b h w = ap (λ i. drop i b) (omega arith)
drop_plus [] (suc p) q b h w = absurd (omega arith)
drop_plus (x ∷ a) zero zero b h w = refl
drop_plus (x ∷ a) zero (suc q) b h w = absurd (let e = w (omega arith) in omega (arith, e))
drop_plus (x ∷ a) (suc p) q b h w =
    let e : suc p + q ≡ suc (p + q) = omega arith in
    rw e (drop_plus a p q b (omega arith) λ more. let t = w more in omega (arith, t))

-- `c` is a piece from the front of `a` and then `b`.
module _ (a b c rest : List ℕ) (piece : a ++ b ≡ c ++ rest) where
  at : (i : ℕ) → get_elem? (a ++ b) i ≡ get_elem? (c ++ rest) i
  at i = ap (λ (d : List ℕ). get_elem? d i) piece

  abbrev pub first : List ℕ
  first = take (length a) c

  abbrev pub second : List ℕ
  second = drop (length a) c

  pub first-piece : first ≡ take (length first) a
  first-piece = list_ext _ _ λ i. ground (
    arith,
    get_elem?-take (length a) c i,
    get_elem?-take (length first) a i,
    length-take (length a) c,
    at i,
    get_elem?-append a b i,
    get_elem?-append c rest i,
    get_elem?-ge c i,
  )

  pub second-piece : second ≡ take (length second) b
  second-piece = list_ext _ _ λ i. ground (
    arith,
    get_elem?-drop (length a) c i,
    get_elem?-take (length second) b i,
    length-drop (length a) c,
    at (length a + i),
    get_elem?-append a b (length a + i),
    get_elem?-append c rest (length a + i),
    get_elem?-ge c (length a + i),
    back i,
  )
    where
      back : (i : ℕ) → length a + i - length a ≡ i
      back i = omega arith

  pub rest-piece : rest ≡ drop (length first) a ++ drop (length second) b
  rest-piece =
      let l1 = length-take (length a) c in
      let l2 = length-drop (length a) c in
      let sum : length c ≡ length first + length second = omega (arith, l1, l2) in
      sym (drop-length c rest)
      ∙ (ap (drop (length c)) (sym piece)
          ∙ (ap (λ k. drop k (a ++ b)) sum
              ∙ drop_plus a (length first) (length second) b (omega (arith, l1))
                  λ more. omega (arith, l1, l2, more)))
