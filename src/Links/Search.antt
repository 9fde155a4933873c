-- ===== src/Links/Search.antt =====
-- The search in the table finds the links to an object.
use casycom.Base.{
  ℕ, zero, suc, ◌+◌, ◌≤◌, ◌<◌, ◌≡◌, ◌≢◌, ◌⊎◌, refl, ◌∙◌, true, false, [], ◌∷◌, Option, none, some,
  arith, ltb, ◌==◌, length, get_elem?, drop, inl, inr, Bool-cases,
}
use casycom.Base.Bisect.{Falls, Splits, Splits-unique, bisect-Splits}
use casycom.Links.{MsgLink, OMap, before, omap_lower_bound, find_destination, place_of}
use casycom.Links.Order.{All, IsSorted, rank, at_least, links_to}

before-All :
    (d oid : ℕ) (ls : OMap) (j : ℕ) → All (λ k. d ≤ k.h.dest) ls → before ls oid j ≡ true → d < oid
unfolding before
before-All d oid [] j a h = cc
before-All d oid (k ∷ ks) zero a h = ground (arith, a.0, h)
before-All d oid (k ∷ ks) (suc j) a h = before-All d oid ks j a.1 h

before-Falls : (omap : OMap) (oid : ℕ) → IsSorted omap → Falls (before omap oid) (length omap)
unfolding before
before-Falls [] oid s i j le lt h = cc
before-Falls (l ∷ ls) oid s zero zero le lt h = h
before-Falls (l ∷ ls) oid s zero (suc j) le lt h =
    ground (arith, before-All l.h.dest oid ls j s.0 h)
before-Falls (l ∷ ls) oid s (suc i) zero le lt h = absurd (omega arith)
before-Falls (l ∷ ls) oid s (suc i) (suc j) le lt h =
    before-Falls ls oid s.1 i j (omega arith) (omega arith) h

rank-le-length : (omap : OMap) (oid : ℕ) → rank omap oid ≤ length omap
unfolding rank
rank-le-length [] oid = omega arith
rank-le-length (l ∷ ls) oid = ground (arith, rank-le-length ls oid)

rank_below : (omap : OMap) (oid i : ℕ) → i < rank omap oid → before omap oid i ≡ true
unfolding rank before
rank_below [] oid i h = absurd (omega arith)
rank_below (l ∷ ls) oid zero h = ground (arith, h)
rank_below (l ∷ ls) oid (suc i) h = ground (arith, h, rank_below ls oid i)

none_before :
    (d oid : ℕ) (ls : OMap) (i : ℕ) → oid ≤ d → All (λ k. d ≤ k.h.dest) ls → before ls oid i ≡ false
unfolding before
none_before d oid [] i h a = refl
none_before d oid (k ∷ ks) zero h a = ground (arith, h, a.0)
none_before d oid (k ∷ ks) (suc i) h a = none_before d oid ks i h a.1

rank_above :
    (omap : OMap) (oid i : ℕ) → IsSorted omap → rank omap oid ≤ i → before omap oid i ≡ false
unfolding rank before
rank_above [] oid i s h = refl
rank_above (l ∷ ls) oid zero s h = ground (arith, h)
rank_above (l ∷ ls) oid (suc i) s h =
    ground (
      arith,
      h,
      rank_above ls oid i s.1,
      λ (p : oid ≤ l.h.dest). none_before l.h.dest oid ls i p s.0,
    )

rank-Splits :
    (omap : OMap) (oid : ℕ) → IsSorted omap → Splits (before omap oid) (length omap) (rank omap oid)
rank-Splits omap oid s = record {
  inside = rank-le-length omap oid;
  below = rank_below omap oid;
  above = λ i p q. rank_above omap oid i s p;
}

-- The search ends on any table; on a sorted one it gives the number of links that stand before
-- those to `oid`.
pub lower_bound-rank :
    (omap : OMap) (oid : ℕ) → IsSorted omap → omap_lower_bound omap oid ≡ rank omap oid
unfolding omap_lower_bound
lower_bound-rank omap oid s =
    let (r, e, sp) =
      bisect-Splits (before omap oid) (length omap) (before-Falls omap oid s) (length omap + 1)
        (omega arith) in
    rw (e, omap_lower_bound)
      (Splits-unique (before omap oid) (length omap) r (rank omap oid) sp (rank-Splits omap oid s))

at_least-All :
    (l : MsgLink) (ls : OMap) (oid : ℕ)
    → oid ≤ l.h.dest
    → All (λ k. l.h.dest ≤ k.h.dest) ls
    → at_least oid ls ≡ ls
unfolding at_least
at_least-All l [] oid h a = refl
at_least-All l (k ∷ ks) oid h a = ground (arith, h, a.0, at_least-All l ks oid h a.1)

-- The links from the place of `oid` on begin with those to `oid`.
pub drop-rank :
    (omap : OMap) (oid : ℕ) → IsSorted omap → drop (rank omap oid) omap ≡ at_least oid omap
unfolding rank at_least
drop-rank [] oid s = refl
drop-rank (l ∷ ls) oid s = elim (Bool-cases (ltb l.h.dest oid)) [
  | inl e ↦
      let step : rank ls oid + 1 ≡ suc (rank ls oid) = omega arith in
      rw (e, step, drop-rank ls oid s.1)
  | inr e ↦ rw (e, at_least-All l ls oid (ground arith) s.0)
]

pub none_to :
    (d dest : ℕ) (ls : OMap) → dest < d → All (λ k. d ≤ k.h.dest) ls → links_to dest ls ≡ []
unfolding links_to
none_to d dest [] h a = refl
none_to d dest (k ∷ ks) h a = ground (arith, h, a.0, none_to d dest ks h a.1)

-- What stands at the place of `dest`: the first link to it, or none to it at all.
abbrev AtRank : ℕ → OMap → Option MsgLink → Type 0
AtRank dest omap found =
    ((links_to dest omap ≡ []) × ((l : MsgLink) → found ≡ some l → l.h.dest ≢ dest))
    ⊎ ((l : MsgLink) × (rest : OMap) × (found ≡ some l)
        × (l.h.dest ≡ dest)
        × (links_to dest omap ≡ l ∷ rest))

rank-AtRank :
    (omap : OMap) (dest : ℕ) → IsSorted omap → AtRank dest omap (get_elem? omap (rank omap dest))
unfolding rank links_to
rank-AtRank [] dest s = inl (refl, λ l e. cc)
rank-AtRank (l ∷ ls) dest s = elim (Bool-cases (ltb l.h.dest dest)) [
  | inl e ↦
      let step : rank ls dest + 1 ≡ suc (rank ls dest) = omega arith in
      let other : (l.h.dest == dest) ≡ false = ground (arith, e) in
      rw (e, step, other) (rank-AtRank ls dest s.1)
  | inr e ↦ elim (Bool-cases (l.h.dest == dest)) [
    | inl same ↦ rw (e, same) (inr (l, links_to dest ls, refl, ground (arith, same), refl))
    | inr other ↦
        rw (e, other)
          (inl (
            none_to l.h.dest dest ls (ground (arith, e, other)) s.0,
            λ k q. ground (arith, q, other),
          ))
  ]
]

-- What `casycom_find_destination` finds: null exactly if no link leads to `dest`, and the first of
-- the links to it otherwise.
pub data Finds (dest : ℕ) (omap : OMap) (found : Option ℕ) : Type 0 where
  nowhere : links_to dest omap ≡ [] → found ≡ none → Finds dest omap found
  first_at :
      (i : ℕ) (l : MsgLink) (rest : OMap)
      → found ≡ some i
      → get_elem? omap i ≡ some l
      → links_to dest omap ≡ l ∷ rest
      → Finds dest omap found

place_of-Finds :
    (omap : OMap) (i dest : ℕ) (at : Option MsgLink)
    → get_elem? omap i ≡ at
    → AtRank dest omap at
    → Finds dest omap (place_of at i dest)
unfolding place_of
place_of-Finds omap i dest none e (inl (empty, _)) = nowhere empty refl
place_of-Finds omap i dest none e (inr (l, rest, found, _, _)) = cc
place_of-Finds omap i dest (some k) e (inl (empty, other)) =
    let miss : (k.h.dest == dest) ≡ false = ground (arith, other k refl) in nowhere empty (rw miss)
place_of-Finds omap i dest (some k) e (inr (l, rest, found, same, links)) =
    let hit : (k.h.dest == dest) ≡ true = ground (arith, found, same) in
    first_at i l rest (rw hit) (e ∙ found) links

-- On a sorted table `casycom_find_destination` finds the first of the links to the destination, and
-- null exactly where there is none.
pub find_destination-Finds :
    (omap : OMap) (dest : ℕ) → IsSorted omap → Finds dest omap (find_destination omap dest)
unfolding find_destination
find_destination-Finds omap dest s =
    rw (lower_bound-rank omap dest s)
      (place_of-Finds omap (rank omap dest) dest _ refl (rank-AtRank omap dest s))
