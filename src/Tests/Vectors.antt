-- ===== src/Tests/Vectors.antt =====
-- Vectors of two-byte elements, and searches in a vector of bytes.
use casycom.Base.{
  ℕ, zero, suc, ◌≡◌, refl, Bool, true, List, [], ◌∷◌, some, arith, if◌then◌else◌, ltb, ◌==◌,
}
use casycom.Base.Int.{ℤ, pos, negsuc}
use casycom.Base.Bisect.{Falls}
use casycom.Vector.{CharVector, reserve, insert, lower_bound, upper_bound, goes_right, element}
use casycom.Vector.Growth.{Reserved, reserve-Reserved}
use casycom.Vector.Contents.{IsValid}
use casycom.Vector.Edits.{Inserted, insert-Inserted}
use casycom.Vector.Bound.{IsOrdered, EqualRange, bounds-EqualRange}

abbrev three : CharVector
three = record { d = 1 ∷ 2 ∷ 3 ∷ 4 ∷ 5 ∷ 6 ∷ 0 ∷ 0 ∷ []; size = 3; allocated = 4; elsize = 2 }

three-IsValid : IsValid three
three-IsValid = record { elements = omega arith; within = omega arith; block = refl }

insert-Inserted_example :
    (v : CharVector) × (insert three 1 (9 ∷ 8 ∷ []) ≡ some v) × Inserted three 1 (9 ∷ 8 ∷ []) v
insert-Inserted_example =
    insert-Inserted three 1 (9 ∷ 8 ∷ []) three-IsValid (omega arith) (omega arith) refl

reserve-Reserved_example : (v : CharVector) × (reserve three 5 ≡ some v) × Reserved three 5 v
reserve-Reserved_example = reserve-Reserved three 5 three-IsValid (omega arith)

abbrev sorted_bytes : CharVector
sorted_bytes = record { d = 3 ∷ 5 ∷ []; size = 2; allocated = 2; elsize = 1 }

first_byte : List ℕ → ℕ
first_byte [] = 0
first_byte (b ∷ bs) = b

-- The order of the first bytes.
abbrev byte_cmp : List ℕ → List ℕ → ℤ
unfolding first_byte
byte_cmp xs ys =
    if ltb (first_byte xs) (first_byte ys)
    then negsuc 0
    else if first_byte xs == first_byte ys
    then pos 0
    else pos 1

two-Falls : (t : ℕ → Bool) → (t 1 ≡ true → t 0 ≡ true) → Falls t 2
two-Falls t h zero zero le lt hit = hit
two-Falls t h zero (suc zero) le lt hit = h hit
two-Falls t h (suc i) zero le lt hit = absurd (omega arith)
two-Falls t h (suc zero) (suc zero) le lt hit = hit
two-Falls t h (suc (suc i)) (suc zero) le lt hit = absurd (omega arith)
two-Falls t h i (suc (suc j)) le lt hit = absurd (omega arith)

sorted_bytes-IsOrdered : IsOrdered byte_cmp sorted_bytes (5 ∷ [])
unfolding goes_right element first_byte
sorted_bytes-IsOrdered = record {
  negative_first = two-Falls _ (λ h. refl);
  positive_last = two-Falls _ (λ h. refl);
}

bounds-EqualRange_example :
    (l r : ℕ) × (lower_bound sorted_bytes byte_cmp (5 ∷ []) ≡ some l)
    × (upper_bound sorted_bytes byte_cmp (5 ∷ []) ≡ some r)
    × EqualRange byte_cmp sorted_bytes (5 ∷ []) l r
bounds-EqualRange_example = bounds-EqualRange byte_cmp sorted_bytes (5 ∷ []) sorted_bytes-IsOrdered
