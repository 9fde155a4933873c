-- ===== src/Vector/Growth.antt =====
-- `vector_reserve`: the capacity it reaches, and the bytes it keeps and clears.
use native.Mathlib.Nat.{pow-suc, mul-lt-mul_of_pos_left}
use casycom.Base.{
  ℕ, zero, suc, ◌+◌, ◌-◌, ◌*◌, ◌%◌, ◌^◌, ◌≤◌, ◌<◌, ◌≡◌, refl, ap, ◌⊎◌, inl, inr, List, arith,
  length, take, replicate, get_elem?, none, some, true, false, ltb, leb, ◌==◌, ◌∙◌, if◌then◌else◌,
  length-take, length-append, length-replicate, Bool-cases, leb→le,
}
use casycom.Base.Bytes.{memset, get_elem?-take, get_elem?-append, list_ext, get_elem?-ge}
use casycom.Vector.{CharVector, size_mod, xrealloc, grow, grow_fuel, reallocated, reserve}
use casycom.Vector.Contents.{IsValid, content, length-memset, get_elem?-memset}

-- Growth from `from` to hold `sz`: enough, and less than twice what is asked for.
pub record Grows (from sz r : ℕ) : Type 0 where
  pub enough : sz ≤ r
  pub kept : from ≤ r
  pub bounded : r < 2 * sz ⊎ r ≡ from

module _ (fuel nsz sz : ℕ) where
  grow_stop : ltb nsz sz ≡ false → grow (suc fuel) nsz sz ≡ some nsz
  unfolding grow
  grow_stop h = ground arith

  grow_double : ltb nsz sz ≡ true → sz ≤ 2 ^ 63 → grow (suc fuel) nsz sz ≡ grow fuel (nsz * 2) sz
  unfolding grow
  grow_double h small =
      let e : nsz * 2 % size_mod ≡ nsz * 2 = ground arith in rw (← e) (ground arith)

  pub Grows-double : (r : ℕ) → nsz < sz → Grows (nsz * 2) sz r → Grows nsz sz r
  Grows-double r h g = record {
    enough = g.enough;
    kept = omega (arith, g.kept);
    bounded = omega (arith, g.bounded);
  }

grow-Grows :
    (fuel nsz sz : ℕ)
    → 0 < nsz
    → sz ≤ 2 ^ 63
    → sz ≤ nsz * 2 ^ fuel
    → (r : ℕ) × (grow (suc fuel) nsz sz ≡ some r) × Grows nsz sz r
grow-Grows zero nsz sz pos small h = (
  nsz,
  grow_stop 0 nsz sz (ground arith),
  record { enough = omega arith; kept = omega arith; bounded = inr refl },
)
grow-Grows (suc fuel) nsz sz pos small h = elim (Bool-cases (ltb nsz sz)) [
  | inr done ↦ (
    nsz,
    grow_stop (suc fuel) nsz sz done,
    record { enough = ground arith; kept = omega arith; bounded = inr refl },
  )
  | inl more ↦
      let (r, e, g) =
        grow-Grows fuel (nsz * 2) sz (omega arith) small
          (omega (arith, ap (λ (t : ℕ). nsz * t) (pow-suc 2 fuel))) in
      (r, grow_double (suc fuel) nsz sz more small ∙ e, Grows-double fuel nsz sz r (ground arith) g)
]

-- The capacity that `reserve` starts to double from.
abbrev pub start : CharVector → ℕ
start v = v.allocated + (if v.allocated == 0 then 1 else 0)

pub grow-start :
    (v : CharVector) (sz : ℕ)
    → v.allocated < sz
    → sz ≤ 2 ^ 63
    → (r : ℕ) × (grow grow_fuel (start v) sz ≡ some r) × (sz ≤ r) × (v.allocated ≤ r) × (r < 2 * sz)
unfolding grow_fuel
grow-start v sz h small =
    let (r, e, g) = grow-Grows 64 (start v) sz (ground arith) small (ground arith) in
    (r, e, g.enough, ground (arith, g.kept), ground (arith, g.bounded))

-- A block of `a` bytes enlarged to `n`, the new part cleared.
enlarged : List ℕ → ℕ → ℕ → List ℕ
enlarged d a n = memset (xrealloc d n) a 0 (n - a)

module _ (d : List ℕ) (a n : ℕ) (block : length d ≡ a) (more : a ≤ n) where
  length-xrealloc : length (xrealloc d n) ≡ n
  unfolding xrealloc
  length-xrealloc = omega (
    arith,
    block,
    length-append (take n d) (replicate (n - length d) 0xa5),
    length-take n d,
    length-replicate {A = ℕ} (n - length d) 0xa5,
  )

  get_elem?-xrealloc : (i : ℕ) → i < a → get_elem? (xrealloc d n) i ≡ get_elem? d i
  unfolding xrealloc
  get_elem?-xrealloc i h = ground (
    arith,
    block,
    get_elem?-append (take n d) (replicate (n - length d) 0xa5) i,
    get_elem?-take n d i,
    length-take n d,
  )

  length-enlarged : length (enlarged d a n) ≡ n
  unfolding enlarged
  length-enlarged = omega (arith, length-xrealloc, length-memset (xrealloc d n) a 0 (n - a))

  -- The old bytes stay, and the new ones are cleared.
  enlarged_at :
      (i : ℕ)
      → get_elem? (enlarged d a n) i
        ≡ (if ltb i a then get_elem? d i else if ltb i n then some 0 else none)
  unfolding enlarged
  enlarged_at i = ground (
    arith,
    length-xrealloc,
    get_elem?-memset (xrealloc d n) a 0 (n - a) i,
    get_elem?-xrealloc i,
    get_elem?-ge (xrealloc d n) i,
  )

  take-enlarged : (s : ℕ) → s ≤ a → take s (enlarged d a n) ≡ take s d
  take-enlarged s h =
      list_ext _ _ λ i.
        ground (arith, enlarged_at i, get_elem?-take s (enlarged d a n) i, get_elem?-take s d i)

-- What `reserve` promises: room for `sz` elements, and the elements as they were.
pub record Reserved (v : CharVector) (sz : ℕ) (v' : CharVector) : Type 0 where
  pub valid : IsValid v'
  pub same_elsize : v'.elsize ≡ v.elsize
  pub same_size : v'.size ≡ v.size
  pub room : sz ≤ v'.allocated
  pub same_content : content v' ≡ content v
  pub cleared :
      (i : ℕ) → v.allocated * v.elsize ≤ i → i < v'.allocated * v.elsize → get_elem? v'.d i ≡ some 0
  pub tight : v'.allocated ≡ v.allocated ⊎ v'.allocated < 2 * sz

-- The block that doubling may ask for has a size that a `size_t` holds.
abbrev pub Fits : CharVector → ℕ → Type 0
Fits v sz = 2 * (sz * v.elsize) ≤ size_mod

Reserved-nothing : (v : CharVector) (sz : ℕ) → IsValid v → sz ≤ v.allocated → Reserved v sz v
Reserved-nothing v sz valid h = record {
  valid = valid;
  same_elsize = refl;
  same_size = refl;
  room = h;
  same_content = refl;
  cleared = λ i p q. absurd (omega arith);
  tight = inl refl;
}

module _ (v : CharVector) (nsz : ℕ) (more : v.allocated ≤ nsz)
    (fits : nsz * v.elsize < size_mod) where
  d-reallocated : (reallocated v nsz).d ≡ enlarged v.d (v.allocated * v.elsize) (nsz * v.elsize)
  unfolding reallocated enlarged
  d-reallocated =
      let e : nsz * v.elsize % size_mod ≡ nsz * v.elsize = omega arith in
      let e' : (nsz - v.allocated) * v.elsize ≡ nsz * v.elsize - v.allocated * v.elsize =
        grind arith in
      rw (e, e')

Reserved-more :
    (v : CharVector) (sz nsz : ℕ)
    → IsValid v
    → v.allocated ≤ nsz
    → nsz * v.elsize < size_mod
    → sz ≤ nsz
    → nsz < 2 * sz
    → Reserved v sz (reallocated v nsz)
unfolding reallocated
Reserved-more v sz nsz valid more fits enough bounded =
    let le : v.allocated * v.elsize ≤ nsz * v.elsize = grind arith in
    let used : v.size * v.elsize ≤ v.allocated * v.elsize = grind (arith, valid.within) in
    let e = d-reallocated v nsz more fits in
    record {
      valid = record {
        elements = valid.elements;
        within = omega (arith, valid.within);
        block = ap length e ∙ length-enlarged v.d _ (nsz * v.elsize) valid.block le;
      };
      same_elsize = refl;
      same_size = refl;
      room = enough;
      same_content = ap (take (v.size * v.elsize)) e ∙ take-enlarged v.d _ _ valid.block le _ used;
      cleared = λ i p q.
          ap (λ d. get_elem? d i) e ∙ (enlarged_at v.d _ _ valid.block le i ∙ ground arith);
      tight = inr bounded;
    }

grown_fits :
    (sz nsz elsize m : ℕ) → 0 < elsize → nsz < 2 * sz → 2 * (sz * elsize) ≤ m → nsz * elsize < m
grown_fits sz nsz elsize m pos lt h =
    omega (arith, mul-lt-mul_of_pos_left {m = nsz} {n = 2 * sz} {k = elsize} lt pos)

-- On a well-formed vector that can grow within the sizes of the machine, `vector_reserve` gives a
-- well-formed vector with the room asked for, the same elements and its new bytes cleared; its
-- capacity is what it was or less than twice what is asked for.
pub reserve-Reserved :
    (v : CharVector) (sz : ℕ)
    → IsValid v
    → Fits v sz
    → (v' : CharVector) × (reserve v sz ≡ some v') × Reserved v sz v'
unfolding reserve
reserve-Reserved v sz valid fits = elim (Bool-cases (leb sz v.allocated)) [
  | inl enough ↦ (v, rw enough, Reserved-nothing v sz valid (leb→le _ _ enough))
  | inr short ↦
      let small : sz ≤ 2 ^ 63 = grind (arith, valid.elements) in
      let (nsz, e, enough, more, bounded) = grow-start v sz (ground arith) small in
      (
        reallocated v nsz,
        rw (short, e) (ground (arith, valid.elements)),
        Reserved-more v sz nsz valid more
            (grown_fits sz nsz v.elsize size_mod valid.elements bounded fits) enough bounded,
      )
]
