-- ===== src/Vector/Copy.antt =====
-- `vector_copy`, which copies `size` bytes where `size` elements are meant.
use native.Mathlib.Nat.{mul-le-mul_right, le-mul_of_pos_right}
use casycom.Base.{
  ℕ, suc, ◌*◌, ◌≤◌, ◌<◌, ◌≡◌, ◌≢◌, refl, ap, sym, arith, length, take, get_elem?, some, ltb,
  if◌then◌else◌, length-take,
}
use casycom.Base.Bytes.{memcpy, get_elem?-memcpy, get_elem?-take}
use casycom.Vector.{CharVector, init, resize, copy}
use casycom.Vector.Contents.{IsValid, content}
use casycom.Vector.Growth.{Fits, Reserved, reserve-Reserved}

le-mul_of_pos_right' : (n m : ℕ) → 0 < m → n ≤ n * m
le-mul_of_pos_right' n m h = le-mul_of_pos_right n h

init-IsValid : (e : ℕ) → 0 < e → IsValid (init e)
unfolding init
init-IsValid e h = record { elements = h; within = omega arith; block = omega arith }

copied : CharVector → CharVector → CharVector
copied w v = record w { d = memcpy w.d 0 (take v.size v.d); size = v.size }

module _ (v w : CharVector) (valid : IsValid v) (r : Reserved (init v.elsize) v.size w) where
  size-le-bytes : v.size ≤ v.size * v.elsize
  size-le-bytes = le-mul_of_pos_right' v.size v.elsize valid.elements

  bytes-le-block : v.size * v.elsize ≤ length v.d
  bytes-le-block = omega (arith, valid.block, mul-le-mul_right v.elsize valid.within)

  same_elements : w.elsize ≡ v.elsize
  unfolding init
  same_elements = r.same_elsize

  room : v.size * v.elsize ≤ length w.d
  room =
      let le : v.size * v.elsize ≤ w.allocated * v.elsize = mul-le-mul_right v.elsize r.room in
      let e : w.allocated * v.elsize ≡ w.allocated * w.elsize =
        ap (λ (k : ℕ). w.allocated * k) (sym same_elements) in
      omega (arith, r.valid.block, le, e)

  copied_at :
      (i : ℕ)
      → i < v.size * v.elsize
      → get_elem? (content (copied w v)) i
        ≡ (if ltb i v.size then get_elem? (content v) i else some 0)
  unfolding copied init
  copied_at i h =
      let block = r.valid.block in
      let e : v.size * w.elsize ≡ v.size * v.elsize = ap (λ (k : ℕ). v.size * k) same_elements in
      ground (
        arith,
        h,
        e,
        room,
        size-le-bytes,
        bytes-le-block,
        r.cleared i (omega arith)
            (omega (arith, room, block, h, ap (λ (k : ℕ). w.allocated * k) r.same_elsize)),
        length-take v.size v.d,
        get_elem?-take (v.size * w.elsize) (memcpy w.d 0 (take v.size v.d)) i,
        get_elem?-memcpy w.d 0 (take v.size v.d) i,
        get_elem?-take v.size v.d i,
        get_elem?-take (v.size * v.elsize) v.d i,
      )

-- A copy into a new vector of the same element size has the first `size` bytes of the original, and
-- zeros in place of all others.
pub copy_at :
    (v : CharVector)
    → IsValid v
    → Fits v v.size
    → (w : CharVector) × (copy (init v.elsize) v ≡ some w)
      × (w.size ≡ v.size)
      × (w.elsize ≡ v.elsize)
      × ((i : ℕ)
          → i < v.size * v.elsize
          → get_elem? (content w) i ≡ (if ltb i v.size then get_elem? (content v) i else some 0))
unfolding copy resize copied init
copy_at v valid fits =
    let (w, e, r) = reserve-Reserved (init v.elsize) v.size (init-IsValid _ valid.elements) fits in
    (copied w v, rw e refl, refl, same_elements v w valid r, copied_at v w valid r)

-- On a well-formed vector whose size can be reserved, where a byte of its elements behind the first
-- `size` bytes is not zero, `vector_copy` into a new vector ends with other bytes than those of the
-- vector.
pub copy_loses :
    (v : CharVector) (i b : ℕ)
    → IsValid v
    → Fits v v.size
    → v.size ≤ i
    → i < v.size * v.elsize
    → get_elem? (content v) i ≡ some (suc b)
    → (w : CharVector) × (copy (init v.elsize) v ≡ some w) × (content w ≢ content v)
copy_loses v i b valid fits behind inside byte =
    let (w, e, _, _, at) = copy_at v valid fits in (w, e, λ same. differs w same (at i inside))
  where
    differs :
        (w : CharVector)
        → content w ≡ content v
        → get_elem? (content w) i ≡ (if ltb i v.size then get_elem? (content v) i else some 0)
        → ⊥
    differs w same at = let e = ap (λ c. get_elem? c i) same in ground (arith, e, at, byte, behind)
