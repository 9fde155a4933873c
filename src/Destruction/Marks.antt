-- ===== src/Destruction/Marks.antt =====
-- The links that are marked unused: what erasing a link leaves of them, and how the sweep finds one.
use casycom.Base.{
  ℕ, zero, suc, ◌+◌, ◌%◌, ◌<◌, ◌≤◌, ◌≡◌, ◌≢◌, refl, ◌⊎◌, inl, inr, [], ◌∷◌, none, some, arith, ◌==◌,
  get_elem?, set, Bool-cases,
}
use mathlib.Core.Option.{some-injective}
use casycom.Links.{MsgLink, OMap}
use casycom.Destruction.{callers, erase_link, unused_from}

-- How many links are marked.
abbrev pub marks : OMap → ℕ
marks [] = 0
marks (l ∷ ls) = l.flags % 2 + marks ls

-- Each marked link has an object.
abbrev pub AllLive : OMap → Type 0
AllLive [] = Unit
AllLive (l ∷ ls) = ((l.flags % 2 ≡ 0) ⊎ (l.o ≢ 0)) × AllLive ls

-- At most `n` links are marked, and each of them has an object.
abbrev pub HasMarks : ℕ → OMap → Type 0
HasMarks n omap = (marks omap ≤ n) × AllLive omap

marks-erase_link : (omap : OMap) (i : ℕ) → marks (erase_link omap i) ≤ marks omap
unfolding erase_link
marks-erase_link [] zero = omega arith
marks-erase_link [] (suc i) = let e : suc i + 1 ≡ suc (i + 1) = omega arith in rw e (omega arith)
marks-erase_link (l ∷ ls) zero = omega arith
marks-erase_link (l ∷ ls) (suc i) =
    let e : suc i + 1 ≡ suc (i + 1) = omega arith in
    let rest = marks-erase_link ls i in rw e (omega arith)

AllLive-erase_link : (omap : OMap) (i : ℕ) → AllLive omap → AllLive (erase_link omap i)
unfolding erase_link
AllLive-erase_link [] zero h = tt
AllLive-erase_link [] (suc i) h = let e : suc i + 1 ≡ suc (i + 1) = omega arith in rw e tt
AllLive-erase_link (l ∷ ls) zero h = h.1
AllLive-erase_link (l ∷ ls) (suc i) h =
    let e : suc i + 1 ≡ suc (i + 1) = omega arith in rw e (h.0, AllLive-erase_link ls i h.1)

abbrev pub cleared : MsgLink → MsgLink
cleared l = record l { o = 0; flags = 0 }

-- The marked link that the search finds, and what its clearing leaves.
pub unused_from-found :
    (omap : OMap) (base n : ℕ) (found : ℕ × MsgLink)
    → unused_from omap base ≡ some found
    → HasMarks (suc n) omap
    → (i : ℕ) × (found.0 ≡ base + i)
      × (get_elem? omap i ≡ some found.1)
      × (found.1.o ≢ 0)
      × HasMarks n (set omap i (cleared found.1))
unfolding unused_from
unused_from-found [] base n found e h = cc
unused_from-found (l ∷ ls) base n found e (few, (live, lives)) =
    elim (Bool-cases (l.flags % 2 == 1)) [
      | inl t ↦
          let same : (base, l) ≡ found = some-injective _ _ (rw t at e) in
          let marked : l.flags % 2 ≡ 1 = ground (arith, t) in
          rw (← same) (
            0,
            omega arith,
            refl,
            elim live [ inl unmarked ↦ absurd (omega (arith, marked, unmarked)) | inr o ↦ o ],
            (omega (arith, marked), (inl refl, lives)),
          )
      | inr t ↦
          let unmarked : l.flags % 2 ≡ 0 = ground (arith, t) in
          let (i, at, there, o, (fewer, lives')) =
            unused_from-found ls (base + 1) n found (rw t at e) (omega (arith, few), lives) in
          (suc i, omega arith, there, o, (omega (arith, fewer, unmarked), (live, lives')))
    ]

-- The search finds nothing just where nothing is marked.
pub unused_from-none : (omap : OMap) (base : ℕ) → unused_from omap base ≡ none → marks omap ≡ 0
unfolding unused_from
unused_from-none [] base e = refl
unused_from-none (l ∷ ls) base e = elim (Bool-cases (l.flags % 2 == 1)) [
  | inl t ↦ absurd (let impossible : some (base, l) ≡ none = rw t at e in cc)
  | inr t ↦
      let rest = unused_from-none ls (base + 1) (rw t at e) in
      let unmarked : l.flags % 2 ≡ 0 = ground (arith, t) in omega arith
]

pub unused_from-some :
    (omap : OMap) (base : ℕ) (found : ℕ × MsgLink)
    → unused_from omap base ≡ some found
    → 0 < marks omap
unfolding unused_from
unused_from-some [] base found e = cc
unused_from-some (l ∷ ls) base found e = elim (Bool-cases (l.flags % 2 == 1)) [
  | inl t ↦ let marked : l.flags % 2 ≡ 1 = ground (arith, t) in omega arith
  | inr t ↦ let rest = unused_from-some ls (base + 1) found (rw t at e) in omega arith
]

pub HasMarks-erase_link :
    (n : ℕ) (omap : OMap) (i : ℕ) → HasMarks n omap → HasMarks n (erase_link omap i)
HasMarks-erase_link n omap i (few, live) =
    (omega (arith, few, marks-erase_link omap i), AllLive-erase_link omap i live)

-- The callers stay the same when the link of a dead object is cleared.
pub callers-cleared :
    (omap : OMap) (i : ℕ) (l : MsgLink) (oid : ℕ)
    → get_elem? omap i ≡ some l
    → callers (set omap i (cleared l)) oid ≡ callers omap oid
unfolding callers
callers-cleared [] i l oid e = cc
callers-cleared (k ∷ ks) zero l oid e = let same : k ≡ l = some-injective _ _ e in rw (← same) refl
callers-cleared (k ∷ ks) (suc i) l oid e = rw (callers-cleared ks i l oid e) refl
