-- ===== src/Util/Paths.antt =====
-- Which file the search in PATH finds.
use casycom.Base.{
  ℕ, zero, suc, ◌+◌, ◌-◌, ◌≤◌, ◌<◌, ◌≡◌, ◌≢◌, refl, ap, Bool, true, false, not, List, [], ◌∷◌, ◌++◌,
  Option, none, some, arith, ◌==◌, inl, inr, Bool-cases, if◌then◌else◌, length, length-take, take,
  drop,
}
use casycom.Links.Order.{All}
use casycom.Util.{
  Host, next_directory, in_directory, search, is_path, printed, executable_in_path, path_max,
}

abbrev cons_first : ℕ → List (List ℕ) → List (List ℕ)
cons_first c [] = (c ∷ []) ∷ []
cons_first c (d ∷ ds) = (c ∷ d) ∷ ds

-- The directories that a text lists between colons; after the last colon there is one if it is not empty.
unfoldable pub directories : List ℕ → List (List ℕ)
directories [] = []
directories (c ∷ t) = let rest = directories t in if c == b':' then [] ∷ rest else cons_first c rest

-- The text does not end in a colon, and is not empty.
unfoldable pub is_open : List ℕ → Bool
is_open [] = false
is_open (c ∷ []) = not (c == b':')
is_open (c ∷ d ∷ t) = is_open (d ∷ t)

-- The file of this name in the first directory where there is one to execute.
unfoldable pub first_accessible : (List ℕ → Bool) → List ℕ → ℕ → List (List ℕ) → Option (List ℕ)
first_accessible access efn exesz [] = none
first_accessible access efn exesz (d ∷ ds) =
    let rest = first_accessible access efn exesz ds in
    if access (in_directory d efn exesz) then some (in_directory d efn exesz) else rest

abbrev pub or_else : Option (List ℕ) → Option (Option (List ℕ)) → Option (Option (List ℕ))
or_else none r = r
or_else (some exe) r = some (some exe)

-- Up to the first colon, and what is behind it.
cut : List ℕ → List ℕ × Option (List ℕ)
cut [] = ([], none)
cut (c ∷ t) = let rest = cut t in if c == b':' then ([], some t) else (c ∷ rest.0, rest.1)

abbrev left_of : List ℕ → Option (List ℕ) → List ℕ
left_of g none = g
left_of g (some t) = t ++ (0 ∷ g)

abbrev directories_of : Option (List ℕ) → List (List ℕ)
directories_of none = []
directories_of (some t) = directories t

abbrev is_open_of : Option (List ℕ) → Bool
is_open_of none = true
is_open_of (some t) = is_open t

next_directory-cut :
    (t g : List ℕ)
    → All (λ c. c ≢ 0) t
    → next_directory (t ++ (0 ∷ g)) ≡ some ((cut t).0, left_of g (cut t).1)
unfolding next_directory cut
next_directory-cut [] g a = refl
next_directory-cut (c ∷ t) g (nz, a) =
    let z : (c == 0) ≡ false = ground (arith, nz) in
    elim (Bool-cases (c == b':')) [
      | inl colon ↦ rw (z, colon) refl
      | inr other ↦ rw (z, other, next_directory-cut t g a) refl
    ]

directories-cut :
    (c : ℕ) (t : List ℕ) → directories (c ∷ t) ≡ (cut (c ∷ t)).0 ∷ directories_of (cut (c ∷ t)).1
unfolding directories cut
directories-cut c [] = elim (Bool-cases (c == b':')) [
  | inl colon ↦ rw colon refl
  | inr other ↦ rw other refl
]
directories-cut c (d ∷ t) = elim (Bool-cases (c == b':')) [
  | inl colon ↦ rw colon refl
  | inr other ↦ rw other (ap (cons_first c) (directories-cut d t))
]

is_open-cut : (c : ℕ) (t : List ℕ) → is_open (c ∷ t) ≡ is_open_of (cut (c ∷ t)).1
unfolding is_open cut
is_open-cut c [] = elim (Bool-cases (c == b':')) [
  | inl colon ↦ rw colon refl
  | inr other ↦ rw other refl
]
is_open-cut c (d ∷ t) = elim (Bool-cases (c == b':')) [
  | inl colon ↦ rw colon refl
  | inr other ↦ rw other (is_open-cut d t)
]

abbrev pub HasNoZero : List ℕ → Type 0
HasNoZero t = All (λ c. c ≢ 0) t

abbrev HasNoZeroOf : Option (List ℕ) → Type 0
HasNoZeroOf none = Unit {0}
HasNoZeroOf (some t) = HasNoZero t

HasNoZero-cut : (t : List ℕ) → HasNoZero t → HasNoZeroOf (cut t).1
unfolding cut
HasNoZero-cut [] a = tt
HasNoZero-cut (c ∷ t) (nz, a) = elim (Bool-cases (c == b':')) [
  | inl colon ↦ rw colon a
  | inr other ↦ rw other (HasNoZero-cut t a)
]

module _ (access : List ℕ → Bool) (efn : List ℕ) (exesz : ℕ) where
  -- What the search in the listed directories gives, with `beyond` behind them.
  abbrev pub found_in : ℕ → List (List ℕ) → Bool → List ℕ → Option (Option (List ℕ))
  found_in fuel ds goes_on beyond =
      or_else (first_accessible access efn exesz ds)
        (if goes_on then search access efn exesz (fuel - length ds) beyond else some none)

  after_cut :
      (fuel : ℕ) (g dir : List ℕ) (more : Option (List ℕ))
      → HasNoZeroOf more
      → length (directories_of more) < fuel
      → ((t : List ℕ)
          → HasNoZero t
          → length (directories t) < fuel
          → search access efn exesz fuel (t ++ (0 ∷ g))
            ≡ found_in fuel (directories t) (is_open t) g)
      → (if access (in_directory dir efn exesz)
          then some (some (in_directory dir efn exesz))
          else search access efn exesz fuel (left_of g more))
        ≡ found_in (suc fuel) (dir ∷ directories_of more) (is_open_of more) g
  unfolding first_accessible
  after_cut fuel g dir none a h ih = elim (Bool-cases (access (in_directory dir efn exesz))) [
    | inl hit ↦ rw hit refl
    | inr miss ↦ let e : suc fuel - 1 ≡ fuel = omega arith in rw (miss, e) refl
  ]
  after_cut fuel g dir (some t) a h ih = elim (Bool-cases (access (in_directory dir efn exesz))) [
    | inl hit ↦ rw hit refl
    | inr miss ↦
        let e : suc fuel - suc (length (directories t)) ≡ fuel - length (directories t) =
          omega arith in
        rw (miss, e) (ih t a h)
  ]

  search-directories :
      (fuel : ℕ) (t g : List ℕ)
      → HasNoZero t
      → length (directories t) < fuel
      → search access efn exesz fuel (t ++ (0 ∷ g)) ≡ found_in fuel (directories t) (is_open t) g
  unfolding search directories is_open first_accessible
  search-directories zero t g a h = absurd (omega arith)
  search-directories (suc fuel) [] g a h = refl
  search-directories (suc fuel) (c ∷ t) g a h =
      let z : (c == 0) ≡ false = let nz = a.0 in ground (arith, nz) in
      let parts = directories-cut c t in
      let count = ap (λ (ds : List (List ℕ)). length ds) parts in
      rw (search, z, next_directory-cut (c ∷ t) g a, parts, is_open-cut c t)
        (after_cut fuel g (cut (c ∷ t)).0 (cut (c ∷ t)).1 (HasNoZero-cut (c ∷ t) a)
          (omega (arith, count, h)) (λ u b l. search-directories fuel u g b l))

length-directories : (t : List ℕ) → length (directories t) ≤ length t
unfolding directories
length-directories [] = omega arith
length-directories (c ∷ t) = elim (Bool-cases (c == b':')) [
  | inl colon ↦ rw colon (let l = length-directories t in omega (arith, l))
  | inr other ↦ rw other (length-cons_first c t (directories t) (length-directories t))
]
  where
    length-cons_first :
        (c : ℕ) (t : List ℕ) (ds : List (List ℕ))
        → length ds ≤ length t
        → length (cons_first c ds) ≤ suc (length t)
    length-cons_first c t [] h = omega arith
    length-cons_first c t (d ∷ ds) h = omega (arith, h)

HasNoZero-take : (n : ℕ) (t : List ℕ) → HasNoZero t → HasNoZero (take n t)
HasNoZero-take zero t a = tt
HasNoZero-take (suc n) [] a = tt
HasNoZero-take (suc n) (c ∷ t) a = (a.0, HasNoZero-take n t a.1)

-- What the array has room for of PATH: its first 4095 bytes.
abbrev pub shown : List ℕ → List ℕ
shown penv = take (path_max - 1) penv

-- When PATH is set, a name without a path is searched in just the directories that the first 4095
-- bytes of PATH list, all of PATH where it is not longer, in their order, up to the first one with
-- a file to execute; when there is none, and these bytes neither are empty nor end in a colon, the
-- search goes on in what the array held before, behind the terminator.
pub executable_in_path-directories :
    (h : Host) (efn : List ℕ) (exesz : ℕ) (penv : List ℕ)
    → is_path efn ≡ false
    → h.path ≡ some penv
    → HasNoZero penv
    → executable_in_path h efn exesz
      ≡ found_in h.access efn exesz path_max
          (directories (shown penv))
          (is_open (shown penv))
          (drop (length (shown penv) + 1) h.stack)
unfolding executable_in_path printed
executable_in_path-directories h efn exesz penv plain path a =
    let few = length-directories (shown penv) in
    let short = length-take (path_max - 1) penv in
    rw (plain, path)
      (search-directories h.access efn exesz path_max (shown penv)
        (drop (length (shown penv) + 1) h.stack) (HasNoZero-take (path_max - 1) penv a)
        (omega (arith, few, short)))
