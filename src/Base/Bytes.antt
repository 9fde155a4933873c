-- ===== src/Base/Bytes.antt =====
-- Buffers as lists: memcpy, memmove, memset, realloc, and what each leaves at an index.
use Prim.Native.Nat.{ℕ, zero, suc, ◌+◌, ◌-◌, ◌≤◌}
use mathlib.Core.Path.{◌≡◌, refl, ap, ap₂}
use mathlib.Core.List.{List, [], ◌∷◌, ◌++◌}
use mathlib.Core.Option.{none, some, some-injective}
use native.Mathlib.Omega.{arith}
use casycom.Base.Tests.{ltb, if◌then◌else◌}
use casycom.Base.Lists.{
  length, get_elem?, take, drop, replicate, length-append, length-take, length-drop,
}

module _ {ℓ} {A : Type ℓ} where
  pub get_elem?-take :
      (n : ℕ) (xs : List A) (i : ℕ)
      → get_elem? (take n xs) i ≡ (if ltb i n then get_elem? xs i else none)
  get_elem?-take zero [] i = ground arith
  get_elem?-take zero (x ∷ xs) i = ground arith
  get_elem?-take (suc n) [] i = ground arith
  get_elem?-take (suc n) (x ∷ xs) zero = ground arith
  get_elem?-take (suc n) (x ∷ xs) (suc i) = ground (arith, get_elem?-take n xs i)

  pub get_elem?-drop :
      (n : ℕ) (xs : List A) (i : ℕ) → get_elem? (drop n xs) i ≡ get_elem? xs (n + i)
  get_elem?-drop zero xs i = ap (get_elem? xs) (omega arith)
  get_elem?-drop (suc n) [] i = refl
  get_elem?-drop (suc n) (x ∷ xs) i =
      let e : suc n + i ≡ suc (n + i) = omega arith in rw e (get_elem?-drop n xs i)

  pub get_elem?-append :
      (xs ys : List A) (i : ℕ)
      → get_elem? (xs ++ ys) i
        ≡ (if ltb i (length xs) then get_elem? xs i else get_elem? ys (i - length xs))
  get_elem?-append [] ys i = let e : i - 0 ≡ i = omega arith in ground (arith, e)
  get_elem?-append (x ∷ xs) ys zero = ground arith
  get_elem?-append (x ∷ xs) ys (suc i) = ground (arith, get_elem?-append xs ys i)

  pub get_elem?-replicate :
      (n : ℕ) (a : A) (i : ℕ) → get_elem? (replicate n a) i ≡ (if ltb i n then some a else none)
  get_elem?-replicate zero a i = ground arith
  get_elem?-replicate (suc n) a zero = ground arith
  get_elem?-replicate (suc n) a (suc i) = ground (arith, get_elem?-replicate n a i)

  pub get_elem?-ge : (xs : List A) (i : ℕ) → length xs ≤ i → get_elem? xs i ≡ none
  get_elem?-ge [] i h = refl
  get_elem?-ge (x ∷ xs) zero h = absurd (omega arith)
  get_elem?-ge (x ∷ xs) (suc i) h = get_elem?-ge xs i (omega arith)

  pub list_ext : (xs ys : List A) → ((i : ℕ) → get_elem? xs i ≡ get_elem? ys i) → xs ≡ ys
  list_ext [] [] h = refl
  list_ext [] (y ∷ ys) h = ground (arith, h 0)
  list_ext (x ∷ xs) [] h = ground (arith, h 0)
  list_ext (x ∷ xs) (y ∷ ys) h =
      ap₂ ◌∷◌ (some-injective x y (h 0)) (list_ext xs ys (λ i. h (suc i)))

  -- `memcpy (d + off, bs, length bs)`.
  unfoldable pub memcpy : List A → ℕ → List A → List A
  memcpy d off bs = take off d ++ (bs ++ drop (off + length bs) d)

  -- `memmove (d + dst, d + src, n)`.
  unfoldable pub memmove : List A → ℕ → ℕ → ℕ → List A
  unfolding memcpy
  memmove d dst src n = memcpy d dst (take n (drop src d))

  -- `memset (d + off, v, n)`.
  unfoldable pub memset : List A → ℕ → A → ℕ → List A
  unfolding memcpy
  memset d off v n = memcpy d off (replicate n v)

module _ {A : Type 0} where
  pub length-memcpy :
      (d : List A) (off : ℕ) (bs : List A)
      → off + length bs ≤ length d
      → length (memcpy d off bs) ≡ length d
  unfolding memcpy
  length-memcpy d off bs h = omega (
    arith,
    length-append (take off d) (bs ++ drop (off + length bs) d),
    length-append bs (drop (off + length bs) d),
    length-take off d,
    length-drop (off + length bs) d,
  )

  -- The bytes of a copy, and around it those of the buffer.
  pub get_elem?-memcpy :
      (d : List A) (off : ℕ) (bs : List A) (i : ℕ)
      → off + length bs ≤ length d
      → get_elem? (memcpy d off bs) i ≡ (
          if ltb i off
          then get_elem? d i
          else if ltb i (off + length bs)
          then get_elem? bs (i - off)
          else get_elem? d i)
  unfolding memcpy
  get_elem?-memcpy d off bs i h = ground (
    arith,
    get_elem?-append (take off d) (bs ++ drop (off + length bs) d) i,
    get_elem?-append bs (drop (off + length bs) d) (i - length (take off d)),
    get_elem?-take off d i,
    get_elem?-drop (off + length bs) d (i - length (take off d) - length bs),
    length-take off d,
  )
