-- ===== src/Vector/Bound.antt =====
-- `vector_lower_bound` and `vector_upper_bound` on a vector that the comparison finds in order.
use casycom.Base.{ℕ, ◌+◌, ◌≤◌, ◌<◌, ◌≡◌, List, true, false, some, arith}
use casycom.Base.Int.{ℤ, pos, negsuc, gtb}
use casycom.Base.Bisect.{Falls, Splits, bisect-Splits}
use casycom.Vector.{CharVector, element, goes_right, lower_bound, upper_bound}

-- Along the vector the comparison with `e` goes from negative over zero to positive.
pub record IsOrdered (cmp : List ℕ → List ℕ → ℤ) (v : CharVector) (e : List ℕ) : Type 0 where
  pub negative_first : Falls (goes_right cmp 0 v e) v.size
  pub positive_last : Falls (goes_right cmp 1 v e) v.size

module _ (cmp : List ℕ → List ℕ → ℤ) (v : CharVector) (e : List ℕ) where
  -- The comparisons below, between and above the two bounds.
  pub record EqualRange (lower upper : ℕ) : Type 0 where
    pub ordered : lower ≤ upper
    pub inside : upper ≤ v.size
    pub less : (i : ℕ) → i < lower → gtb 0 (cmp (element v i) e) ≡ true
    pub equal : (i : ℕ) → lower ≤ i → i < upper → cmp (element v i) e ≡ pos 0
    pub greater : (i : ℕ) → upper ≤ i → i < v.size → gtb 1 (cmp (element v i) e) ≡ false

  zero_between : (n : ℤ) → gtb 0 n ≡ false → gtb 1 n ≡ true → n ≡ pos 0
  zero_between (pos n) h k = ground arith
  zero_between (negsuc n) h k = ground arith

  negative-lt_one : (n : ℤ) → gtb 0 n ≡ true → gtb 1 n ≡ true
  negative-lt_one (pos n) h = ground arith
  negative-lt_one (negsuc n) h = ground arith

  not_crossed :
      (l r : ℕ)
      → Splits (goes_right cmp 0 v e) v.size l
      → Splits (goes_right cmp 1 v e) v.size r
      → ¬ (r < l)
  unfolding goes_right
  not_crossed l r s t h =
      let above = t.above r (omega arith) (omega (arith, s.inside)) in
      let below = negative-lt_one (cmp (element v r) e) (s.below r h) in cc

  Splits-EqualRange :
      (l r : ℕ)
      → Splits (goes_right cmp 0 v e) v.size l
      → Splits (goes_right cmp 1 v e) v.size r
      → EqualRange l r
  unfolding goes_right
  Splits-EqualRange l r s t = record {
    ordered = omega (arith, not_crossed l r s t);
    inside = t.inside;
    less = s.below;
    equal = λ i p q. zero_between _ (s.above i p (omega (arith, t.inside))) (t.below i q);
    greater = t.above;
  }

  -- On a vector along which the comparison with `e` does not fall, the lower and the upper bound
  -- search end and enclose exactly the elements that compare equal to `e`.
  pub bounds-EqualRange :
      IsOrdered cmp v e
      → (l r : ℕ) × (lower_bound v cmp e ≡ some l) × (upper_bound v cmp e ≡ some r) × EqualRange l r
  unfolding lower_bound upper_bound
  bounds-EqualRange o =
      let (l, p, s) = bisect-Splits _ v.size o.negative_first (v.size + 1) (omega arith) in
      let (r, q, t) = bisect-Splits _ v.size o.positive_last (v.size + 1) (omega arith) in
      (l, r, p, q, Splits-EqualRange l r s t)
