-- ===== src/Vector/Contents.antt =====
-- What a vector holds, and what well-formed means (vector.h).
use casycom.Base.{
  ℕ, ◌+◌, ◌-◌, ◌*◌, ◌≤◌, ◌<◌, ◌≡◌, List, ◌++◌, arith, length, take, drop, replicate, get_elem?,
  some, ltb, if◌then◌else◌, length-take, length-replicate, length-drop,
}
use casycom.Base.Bytes.{
  memcpy, memmove, memset, get_elem?-memcpy, get_elem?-take, get_elem?-drop, get_elem?-append,
  get_elem?-replicate, length-memcpy, list_ext,
}
use casycom.Vector.{CharVector}

-- The block has room for `allocated` elements, and the first `size` are in use.
pub record IsValid (v : CharVector) : Type 0 where
  pub elements : 0 < v.elsize
  pub within : v.size ≤ v.allocated
  pub block : length v.d ≡ v.allocated * v.elsize

-- The bytes in use.
abbrev pub content : CharVector → List ℕ
content v = take (v.size * v.elsize) v.d

pub length-memmove :
    (d : List ℕ) (dst src n : ℕ)
    → dst + n ≤ length d
    → src + n ≤ length d
    → length (memmove d dst src n) ≡ length d
unfolding memmove
length-memmove d dst src n h k =
    length-memcpy d dst (take n (drop src d))
      (omega (arith, length-take n (drop src d), length-drop src d))

pub get_elem?-memmove :
    (d : List ℕ) (dst src n i : ℕ)
    → dst + n ≤ length d
    → src + n ≤ length d
    → get_elem? (memmove d dst src n) i ≡ (
        if ltb i dst
        then get_elem? d i
        else if ltb i (dst + n)
        then get_elem? d (src + (i - dst))
        else get_elem? d i)
unfolding memmove
get_elem?-memmove d dst src n i h k =
    let e : length (take n (drop src d)) ≡ n =
      omega (arith, length-take n (drop src d), length-drop src d) in
    ground (
      arith,
      e,
      get_elem?-memcpy d dst (take n (drop src d)) i,
      get_elem?-take n (drop src d) (i - dst),
      get_elem?-drop src d (i - dst),
    )

pub length-memset :
    (d : List ℕ) (off v n : ℕ) → off + n ≤ length d → length (memset d off v n) ≡ length d
unfolding memset
length-memset d off v n h =
    length-memcpy d off (replicate n v) (omega (arith, length-replicate n v))

pub get_elem?-memset :
    (d : List ℕ) (off v n i : ℕ)
    → off + n ≤ length d
    → get_elem? (memset d off v n) i
      ≡ (if ltb i off then get_elem? d i else if ltb i (off + n) then some v else get_elem? d i)
unfolding memset
get_elem?-memset d off v n i h = ground (
  arith,
  length-replicate n v,
  get_elem?-memcpy d off (replicate n v) i,
  get_elem?-replicate n v (i - off),
)

-- Room made in the first `s` bytes at `a`, and cleared.
unfoldable pub opened : (d : List ℕ) (a s e : ℕ) → List ℕ
opened d a s e = memset (memmove d (a + e) a (s - a)) a 0 e

module _ (d : List ℕ) (a s e : ℕ) (inside : a ≤ s) (room : s + e ≤ length d) where
  pub length-opened : length (opened d a s e) ≡ length d
  unfolding opened
  length-opened =
      omega (
        arith,
        length-memset (memmove d (a + e) a (s - a)) a 0 e,
        length-memmove d (a + e) a (s - a),
      )

  opened_at :
      (i : ℕ)
      → get_elem? (opened d a s e) i ≡ (
          if ltb i a
          then get_elem? d i
          else if ltb i (a + e)
          then some 0
          else if ltb i (s + e)
          then get_elem? d (i - e)
          else get_elem? d i)
  unfolding opened
  opened_at i = ground (
    arith,
    length-memmove d (a + e) a (s - a),
    get_elem?-memset (memmove d (a + e) a (s - a)) a 0 e i,
    get_elem?-memmove d (a + e) a (s - a) i,
    λ (h : a + e ≤ i). moved i h,
  )
    where
      moved : (i : ℕ) → a + e ≤ i → a + (i - (a + e)) ≡ i - e
      moved i h = omega arith

  -- The bytes before and after the room are the old ones.
  pub opened_content :
      take (s + e) (opened d a s e) ≡ take a (take s d) ++ (replicate e 0 ++ drop a (take s d))
  opened_content = list_ext _ _ λ i. ground (
    arith,
    opened_at i,
    get_elem?-take (s + e) (opened d a s e) i,
    get_elem?-append (take a (take s d)) (replicate e 0 ++ drop a (take s d)) i,
    get_elem?-append (replicate e 0) (drop a (take s d)) (i - a),
    get_elem?-take a (take s d) i,
    get_elem?-take s d i,
    get_elem?-replicate {A = ℕ} e 0 (i - a),
    get_elem?-drop a (take s d) (i - a - e),
    get_elem?-take s d (a + (i - a - e)),
    length-take a (take s d),
    length-take s d,
    length-replicate {A = ℕ} e 0,
    moved i,
  )
    where
      moved : (i : ℕ) → a + e ≤ i → a + (i - a - e) ≡ i - e
      moved i h = omega arith

  -- The same with the room filled by `b`.
  pub filled_content :
      (b : List ℕ)
      → length b ≡ e
      → take (s + e) (memcpy (opened d a s e) a b) ≡ take a (take s d) ++ (b ++ drop a (take s d))
  filled_content b h = list_ext _ _ λ i. ground (
    arith,
    h,
    opened_at i,
    length-opened,
    get_elem?-memcpy (opened d a s e) a b i,
    get_elem?-take (s + e) (memcpy (opened d a s e) a b) i,
    get_elem?-append (take a (take s d)) (b ++ drop a (take s d)) i,
    get_elem?-append b (drop a (take s d)) (i - a),
    get_elem?-take a (take s d) i,
    get_elem?-take s d i,
    get_elem?-drop a (take s d) (i - a - e),
    get_elem?-take s d (a + (i - a - e)),
    length-take a (take s d),
    length-take s d,
    moved i,
  )
    where
      moved : (i : ℕ) → a + e ≤ i → a + (i - a - e) ≡ i - e
      moved i h = omega arith

module _ (d : List ℕ) (a b s : ℕ) (order : a ≤ b) (inside : b ≤ s) (fits : s ≤ length d) where
  -- The bytes from `a` to `b` taken out of the first `s`.
  pub closed_content :
      take (s - (b - a)) (memmove d a b (s - b)) ≡ take a (take s d) ++ drop b (take s d)
  closed_content = list_ext _ _ λ i. ground (
    arith,
    get_elem?-memmove d a b (s - b) i,
    get_elem?-take (s - (b - a)) (memmove d a b (s - b)) i,
    get_elem?-append (take a (take s d)) (drop b (take s d)) i,
    get_elem?-take a (take s d) i,
    get_elem?-take s d i,
    get_elem?-drop b (take s d) (i - a),
    get_elem?-take s d (b + (i - a)),
    length-take a (take s d),
    length-take s d,
  )
