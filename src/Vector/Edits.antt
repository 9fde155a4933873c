-- ===== src/Vector/Edits.antt =====
-- The operations of vector.c that make and close room, on the bytes in use.
use native.Mathlib.Nat.{mul-le-mul_right, mul-sub}
use casycom.Base.{
  ℕ, ◌+◌, ◌-◌, ◌*◌, ◌≤◌, ◌<◌, ◌≡◌, refl, ap, sym, ◌∙◌, List, [], ◌∷◌, ◌++◌, arith, length, take,
  drop, some, true, leb, le→leb,
}
use casycom.Base.Bytes.{memcpy, memmove, length-memcpy}
use casycom.Vector.{CharVector, reserve, emplace, insert, erase_n}
use casycom.Vector.Contents.{
  IsValid, content, opened, length-opened, filled_content, closed_content, length-memmove,
}
use casycom.Vector.Growth.{Fits, reserve-Reserved}

sub-mul : (m n k : ℕ) → (m - n) * k ≡ m * k - n * k
sub-mul m n k = omega (arith, mul-sub k m n)

-- The vector that `emplace` makes of the one with the room.
made : CharVector → ℕ → CharVector
made v ip = record v {
  d = opened v.d (ip * v.elsize) (v.size * v.elsize) v.elsize;
  size = v.size + 1;
}

emplace-made :
    (v v' : CharVector) (ip : ℕ)
    → ip ≤ v.size
    → reserve v (v.size + 1) ≡ some v'
    → v'.size ≡ v.size
    → emplace v ip ≡ some (made v' ip, ip * v'.elsize)
unfolding emplace made opened
emplace-made v v' ip h e same =
    let t : leb ip v.size ≡ true = le→leb ip v.size h in
    let m : (v'.size - ip) * v'.elsize ≡ v'.size * v'.elsize - ip * v'.elsize =
      sub-mul v'.size ip v'.elsize in
    rw (t, e, m)

-- What an insertion of `b` before element `ip` gives.
pub record Inserted (v : CharVector) (ip : ℕ) (b : List ℕ) (v' : CharVector) : Type 0 where
  pub valid : IsValid v'
  pub same_elsize : v'.elsize ≡ v.elsize
  pub one_more : v'.size ≡ v.size + 1
  pub placed :
      content v' ≡ take (ip * v.elsize) (content v) ++ (b ++ drop (ip * v.elsize) (content v))

module _ (v : CharVector) (ip : ℕ) (valid : IsValid v) (inside : ip ≤ v.size)
    (room : v.size < v.allocated) where
  at_most : ip * v.elsize ≤ v.size * v.elsize
  at_most = mul-le-mul_right v.elsize inside

  has_room : v.size * v.elsize + v.elsize ≤ length v.d
  has_room = omega (arith, valid.block, mul-le-mul_right v.elsize room)

  insert_here :
      (b : List ℕ)
      → length b ≡ v.elsize
      → Inserted v ip b (record v { d = memcpy (made v ip).d (ip * v.elsize) b; size = v.size + 1 })
  unfolding made
  insert_here b h =
      let len = length-opened v.d (ip * v.elsize) (v.size * v.elsize) v.elsize at_most has_room in
      record {
        valid = record {
          elements = valid.elements;
          within = omega arith;
          block =
              length-memcpy _ (ip * v.elsize) b (omega (arith, len, at_most, has_room))
              ∙ (len ∙ valid.block);
        };
        same_elsize = refl;
        one_more = refl;
        placed =
            let e : (v.size + 1) * v.elsize ≡ v.size * v.elsize + v.elsize = omega arith in
            rw e (filled_content v.d _ _ v.elsize at_most has_room b h);
      }

take-length : (b : List ℕ) → take (length b) b ≡ b
take-length [] = refl
take-length (x ∷ b) = ap (◌∷◌ x) (take-length b)

take_all : (n : ℕ) (b : List ℕ) → length b ≡ n → take n b ≡ b
take_all n b h = ap (λ k. take k b) (sym h) ∙ take-length b

Inserted-subst :
    (v v' w : CharVector) (ip : ℕ) (b : List ℕ)
    → v'.elsize ≡ v.elsize
    → v'.size ≡ v.size
    → content v' ≡ content v
    → Inserted v' ip b w
    → Inserted v ip b w
Inserted-subst v v' w ip b e s c i = record {
  valid = i.valid;
  same_elsize = i.same_elsize ∙ e;
  one_more = ground (arith, i.one_more);
  placed = i.placed ∙ rw (c, e);
}

-- On a well-formed vector that can grow within the sizes of the machine, `vector_insert` of one
-- element's bytes at an index up to the size makes a well-formed vector with one more element, the
-- bytes given there and all others in their order.
pub insert-Inserted :
    (v : CharVector) (ip : ℕ) (b : List ℕ)
    → IsValid v
    → Fits v (v.size + 1)
    → ip ≤ v.size
    → length b ≡ v.elsize
    → (v' : CharVector) × (insert v ip b ≡ some v') × Inserted v ip b v'
unfolding insert made
insert-Inserted v ip b valid fits inside h =
    let (v', e, r) = reserve-Reserved v (v.size + 1) valid fits in
    let e' : take v'.elsize b ≡ b = take_all v'.elsize b (h ∙ sym r.same_elsize) in
    (
      _,
      rw (emplace-made v v' ip inside e r.same_size, e') refl,
      Inserted-subst v v' _ ip b r.same_elsize r.same_size r.same_content (
          insert_here v' ip r.valid (omega (arith, r.same_size))
            (omega (arith, r.room, r.same_size)) b (h ∙ sym r.same_elsize)),
    )

-- What an erasure of `n` elements from `ep` on gives.
pub record Erased (v : CharVector) (ep n : ℕ) (v' : CharVector) : Type 0 where
  pub valid : IsValid v'
  pub same_elsize : v'.elsize ≡ v.elsize
  pub fewer : v'.size + n ≡ v.size
  pub joined :
      content v' ≡ take (ep * v.elsize) (content v) ++ drop ((ep + n) * v.elsize) (content v)

erased : CharVector → ℕ → ℕ → CharVector
erased v ep n = record v {
  d = memmove v.d (ep * v.elsize) ((ep + n) * v.elsize) ((v.size - (ep + n)) * v.elsize);
  size = v.size - n;
}

module _ (v : CharVector) (ep n : ℕ) (valid : IsValid v) (inside : ep + n ≤ v.size) where
  erased-Erased : Erased v ep n (erased v ep n)
  unfolding erased
  erased-Erased =
      let first : ep * v.elsize ≤ (ep + n) * v.elsize = mul-le-mul_right v.elsize (omega arith) in
      let last : (ep + n) * v.elsize ≤ v.size * v.elsize = mul-le-mul_right v.elsize inside in
      let used : v.size * v.elsize ≤ length v.d =
        omega (arith, valid.block, mul-le-mul_right v.elsize valid.within) in
      let tail : (v.size - (ep + n)) * v.elsize ≡ v.size * v.elsize - (ep + n) * v.elsize =
        sub-mul v.size (ep + n) v.elsize in
      let left : (v.size - n) * v.elsize
          ≡ v.size * v.elsize - ((ep + n) * v.elsize - ep * v.elsize) =
        omega (arith, sub-mul v.size n v.elsize) in
      record {
        valid = record {
          elements = valid.elements;
          within = omega (arith, valid.within);
          block =
              rw tail (
                length-memmove v.d (ep * v.elsize) ((ep + n) * v.elsize)
                  (v.size * v.elsize - (ep + n) * v.elsize) (omega arith) (omega arith))
              ∙ valid.block;
        };
        same_elsize = refl;
        fewer = omega arith;
        joined = rw (tail, left) (closed_content v.d _ _ _ first last used);
      }

  -- On a well-formed vector, `vector_erase_n` of a range inside the vector takes out just that
  -- range.
  pub erase_n-Erased : (v' : CharVector) × (erase_n v ep n ≡ some v') × Erased v ep n v'
  unfolding erase_n erased
  erase_n-Erased = (
    erased v ep n,
    rw (le→leb ep v.size (omega arith), le→leb (ep + n) v.size inside) refl,
    erased-Erased,
  )
