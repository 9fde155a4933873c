-- ===== src/Vector.antt =====
-- vector.h and vector.c: a growable array of elements of `elsize` bytes, as the bytes of its block.
-- `none` is a failed assertion. An allocation that fails ends the process, and is left out.
pub mod Growth
pub mod Contents
pub mod Edits
pub mod Copy
pub mod Bound
use casycom.Base.{
  ℕ, zero, suc, ◌+◌, ◌-◌, ◌*◌, ◌%◌, ◌^◌, ◌<◌, ◌≤◌, ◌≡◌, Bool, true, false, List, [], ◌∷◌, ◌++◌,
  Option, none, some, ltb, leb, ◌==◌, if◌then◌else◌, length, take, drop, replicate,
}
use casycom.Base.Bytes.{memcpy, memmove, memset}
use casycom.Base.Bisect.{bisect}
use casycom.Base.Int.{ℤ, gtb}
use casycom.Base.Chain.{◌>>=◌, ◌>>◌, assert}

pub record CharVector : Type 0 where
  pub d : List ℕ
  pub size : ℕ
  pub allocated : ℕ
  pub elsize : ℕ

abbrev pub size_mod : ℕ
size_mod = 2 ^ 64

pub init : ℕ → CharVector
init elsz = record { d = []; size = 0; allocated = 0; elsize = elsz }

-- `realloc` keeps the old bytes; what it adds is indeterminate, here 0xa5.
pub xrealloc : List ℕ → ℕ → List ℕ
xrealloc p sz = take sz p ++ replicate (sz - length p) 0xa5

-- `while (nsz < sz) nsz *= 2;`, by fuel: 64 rounds double 1 past every `size_t`.
unfoldable pub grow : ℕ → ℕ → ℕ → Option ℕ
grow zero nsz sz = none
grow (suc fuel) nsz sz = elim (ltb nsz sz) [
  | true ↦ grow fuel (nsz * 2 % size_mod) sz
  | false ↦ some nsz
]

pub grow_fuel : ℕ
grow_fuel = 65

pub reallocated : CharVector → ℕ → CharVector
unfolding xrealloc memset
reallocated v nsz = record v {
  d =
      memset (xrealloc v.d (nsz * v.elsize % size_mod)) (v.allocated * v.elsize) 0
        ((nsz - v.allocated) * v.elsize);
  allocated = nsz;
}

pub reserve : CharVector → ℕ → Option CharVector
unfolding grow_fuel
reserve v sz = if leb sz v.allocated then some v else do
  nsz ← grow grow_fuel (v.allocated + (if v.allocated == 0 then 1 else 0)) sz
  assert (ltb 0 v.elsize)
  some (reallocated v nsz)

unfoldable deallocate : CharVector → CharVector
deallocate v = record v { d = []; size = 0; allocated = 0 }

-- Returns the vector, and the offset of the room that was made.
unfoldable emplace_n : CharVector → ℕ → ℕ → Option (CharVector × ℕ)
unfolding memmove memset
emplace_n v ip n = do
  assert (leb ip v.size)
  v' ← reserve v (v.size + n)
  let ii = ip * v'.elsize
  let moved = memmove v'.d (ii + n * v'.elsize) ii ((v'.size - ip) * v'.elsize)
  some (record v' { d = memset moved ii 0 (n * v'.elsize); size = v'.size + n }, ii)

pub emplace : CharVector → ℕ → Option (CharVector × ℕ)
unfolding memmove memset
emplace v ip = do
  assert (leb ip v.size)
  v' ← reserve v (v.size + 1)
  let ii = ip * v'.elsize
  let moved = memmove v'.d (ii + v'.elsize) ii ((v'.size - ip) * v'.elsize)
  some (record v' { d = memset moved ii 0 v'.elsize; size = v'.size + 1 }, ii)

-- `e` is the memory that the argument points to.
pub insert : CharVector → ℕ → List ℕ → Option CharVector
unfolding memcpy
insert v ip e = do (v', h) ← emplace v ip; some (record v' { d = memcpy v'.d h (take v'.elsize e) })

unfoldable insert_n : CharVector → ℕ → List ℕ → ℕ → Option CharVector
unfolding memcpy
insert_n v ip e esz = do
  (v', h) ← emplace_n v ip esz
  some (record v' { d = memcpy v'.d h (take (esz * v'.elsize) e) })

pub erase_n : CharVector → ℕ → ℕ → Option CharVector
unfolding memmove
erase_n v ep n = do
  assert (leb ep v.size)
  assert (leb (ep + n) v.size)
  some (record v {
    d = memmove v.d (ep * v.elsize) ((ep + n) * v.elsize) ((v.size - (ep + n)) * v.elsize);
    size = v.size - n;
  })

unfoldable erase : CharVector → ℕ → Option CharVector
unfolding erase_n
erase v ep = erase_n v ep 1

unfoldable push_back : CharVector → List ℕ → Option CharVector
push_back v e = insert v v.size e

unfoldable append_n : CharVector → List ℕ → ℕ → Option CharVector
append_n v e n = insert_n v v.size e n

-- On an empty vector `size - 1` wraps, and the assertion of `erase_n` fails.
unfoldable pop_back : CharVector → Option CharVector
pop_back v = erase v ((v.size + size_mod - 1) % size_mod)

unfoldable clear : CharVector → CharVector
clear v = record v { size = 0 }

pub resize : CharVector → ℕ → Option CharVector
resize v sz = do v' ← reserve v sz; some (record v' { size = sz })

-- A shallow link to memory that the vector does not own.
unfoldable link : CharVector → List ℕ → ℕ → Option CharVector
link v e n = do assert (length v.d == 0); some (record v { d = e; size = n })

unfoldable emplace_back : CharVector → Option (CharVector × ℕ)
emplace_back v = emplace v v.size

unfoldable pub unlink : CharVector → CharVector
unlink v = record v { d = []; size = 0; allocated = 0 }

unfoldable attach : CharVector → List ℕ → ℕ → Option CharVector
attach v e n = do v' ← link v e n; some (record v' { allocated = v'.size })

unfoldable swap : CharVector → CharVector → Option (CharVector × CharVector)
swap v1 v2 = do assert (v1.elsize == v2.elsize); some (v2, v1)

-- Note the number of bytes that are copied: `size`, and not `size * elsize`.
pub copy : CharVector → CharVector → Option CharVector
unfolding memcpy
copy v1 v2 = do
  v1' ← resize v1 v2.size
  some (record v1' { d = memcpy v1'.d 0 (take v2.size v2.d) })

-- The bytes of element `m`.
unfoldable pub element : CharVector → ℕ → List ℕ
element v m = take v.elsize (drop (m * v.elsize) v.d)

-- `cmpv > cmp (element m, e)`.
unfoldable pub goes_right : (List ℕ → List ℕ → ℤ) → ℕ → CharVector → List ℕ → ℕ → Bool
unfolding element
goes_right cmp cmpv v e m = gtb cmpv (cmp (element v m) e)

bound : CharVector → (List ℕ → List ℕ → ℤ) → ℕ → List ℕ → Option ℕ
bound v cmp cmpv e = bisect (v.size + 1) (goes_right cmp cmpv v e) 0 v.size

pub lower_bound : CharVector → (List ℕ → List ℕ → ℤ) → List ℕ → Option ℕ
unfolding bound
lower_bound v cmp e = bound v cmp 0 e

pub upper_bound : CharVector → (List ℕ → List ℕ → ℤ) → List ℕ → Option ℕ
unfolding bound
upper_bound v cmp e = bound v cmp 1 e

unfoldable insert_sorted : CharVector → (List ℕ → List ℕ → ℤ) → List ℕ → Option (CharVector × ℕ)
insert_sorted v cmp e = do ip ← upper_bound v cmp e; v' ← insert v ip e; some (v', ip)

-- `qsort (d, nmemb, size, cmp)` of the C library gives the block with its elements in order.
unfoldable vector_sort :
    (List ℕ → ℕ → ℕ → (List ℕ → List ℕ → ℤ) → List ℕ)
    → CharVector
    → (List ℕ → List ℕ → ℤ)
    → CharVector
vector_sort qsort v cmp = record v { d = qsort v.d v.size v.elsize cmp }
