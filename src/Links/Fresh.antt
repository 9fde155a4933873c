-- ===== src/Links/Fresh.antt =====
-- `casycom_create_proxy` gives a new object an id that no link leads to.
use casycom.Base.{
  ℕ, ◌+◌, ◌%◌, ◌^◌, ◌≤◌, ◌<◌, ◌≡◌, ◌≢◌, refl, ◌∙◌, true, false, inl, inr, [], ◌∷◌, arith, ltb, ◌==◌,
  length, Bool-cases,
}
use casycom.Msg.{oid_first}
use casycom.Links.{MsgLink, OMap, free_oid_from, free_oid}
use casycom.Links.Order.{All, IsSorted, links_to}
use casycom.Links.Search.{none_to}

-- `oid` is the first id from `low` on that no link of the table leads to.
pub record FirstFree (omap : OMap) (low oid : ℕ) : Type 0 where
  pub from_low : low ≤ oid
  pub free : links_to oid omap ≡ []
  pub used : (i : ℕ) → low ≤ i → i < oid → links_to i omap ≢ []

free_from_stop :
    (l : MsgLink) (ls : OMap) (nid : ℕ) → nid < l.h.dest → free_oid_from (l ∷ ls) nid ≡ nid
unfolding free_oid_from
free_from_stop l ls nid h = ground (arith, h)

free_from_hit :
    (l : MsgLink) (ls : OMap) (nid : ℕ)
    → nid ≡ l.h.dest
    → nid + 1 < 2 ^ 16
    → free_oid_from (l ∷ ls) nid ≡ free_oid_from ls (nid + 1)
unfolding free_oid_from
free_from_hit l ls nid h b =
    let e : (nid == l.h.dest) ≡ true = ground (arith, h) in
    let e' : ltb nid l.h.dest ≡ false = ground (arith, h) in
    let w : (nid + 1) % 2 ^ 16 ≡ nid + 1 = omega arith in rw (e, e', w) refl

free_from_pass :
    (l : MsgLink) (ls : OMap) (nid : ℕ)
    → l.h.dest < nid
    → free_oid_from (l ∷ ls) nid ≡ free_oid_from ls nid
unfolding free_oid_from
free_from_pass l ls nid h =
    let e : (nid == l.h.dest) ≡ false = ground (arith, h) in
    let e' : ltb nid l.h.dest ≡ false = ground (arith, h) in rw (e, e') refl

links_to-miss :
    (l : MsgLink) (ls : OMap) (d : ℕ) → l.h.dest ≢ d → links_to d (l ∷ ls) ≡ links_to d ls
unfolding links_to
links_to-miss l ls d h = ground (arith, h)

links_to-hit : (l : MsgLink) (ls : OMap) (d : ℕ) → l.h.dest ≡ d → links_to d (l ∷ ls) ≢ []
unfolding links_to
links_to-hit l ls d h = let e : (l.h.dest == d) ≡ true = ground (arith, h) in rw e (λ q. cc)

module _ (l : MsgLink) (ls : OMap) (nid : ℕ) where
  FirstFree-stop :
      nid < l.h.dest
      → All (λ k. l.h.dest ≤ k.h.dest) ls
      → FirstFree (l ∷ ls) nid (free_oid_from (l ∷ ls) nid)
  FirstFree-stop h a = rw (free_from_stop l ls nid h) record {
    from_low = omega arith;
    free = none_to l.h.dest nid (l ∷ ls) h (omega arith, a);
    used = λ i p q. absurd (omega arith);
  }

  FirstFree-hit :
      nid ≡ l.h.dest
      → nid + 1 < 2 ^ 16
      → FirstFree ls (nid + 1) (free_oid_from ls (nid + 1))
      → FirstFree (l ∷ ls) nid (free_oid_from (l ∷ ls) nid)
  FirstFree-hit h b r = rw (free_from_hit l ls nid h b) record {
    from_low = let g = r.from_low in omega arith;
    free = let g = r.from_low in links_to-miss l ls _ (λ q. omega arith) ∙ r.free;
    used = λ i p q. elim (Bool-cases (l.h.dest == i)) [
      | inl e ↦ links_to-hit l ls i (ground (arith, e))
      | inr e ↦
          rw (links_to-miss l ls i (λ g. ground (arith, e, g)))
            (r.used i (ground (arith, h, e, p)) q)
    ];
  }

  FirstFree-pass :
      l.h.dest < nid
      → FirstFree ls nid (free_oid_from ls nid)
      → FirstFree (l ∷ ls) nid (free_oid_from (l ∷ ls) nid)
  FirstFree-pass h r = rw (free_from_pass l ls nid h) record {
    from_low = r.from_low;
    free = let g = r.from_low in links_to-miss l ls _ (λ q. omega arith) ∙ r.free;
    used = λ i p q. rw (links_to-miss l ls i (λ g. omega arith)) (r.used i p q);
  }

free_oid_from-FirstFree :
    (omap : OMap) (nid : ℕ)
    → IsSorted omap
    → nid + length omap < 2 ^ 16
    → FirstFree omap nid (free_oid_from omap nid)
free_oid_from-FirstFree [] nid s b =
    unfold free_oid_from links_to in
    record { from_low = omega arith; free = refl; used = λ i p q. absurd (omega arith) }
free_oid_from-FirstFree (l ∷ ls) nid s b = elim (Bool-cases (ltb nid l.h.dest)) [
  | inl lt ↦ FirstFree-stop l ls nid (ground (arith, lt)) s.0
  | inr ge ↦ elim (Bool-cases (nid == l.h.dest)) [
    | inl same ↦
        FirstFree-hit l ls nid (ground (arith, same)) (omega arith)
          (free_oid_from-FirstFree ls (nid + 1) s.1 (omega arith))
    | inr other ↦
        FirstFree-pass l ls nid (ground (arith, ge, other))
          (free_oid_from-FirstFree ls nid s.1 (omega arith))
  ]
]

-- The id of the first link, where the search for a free one begins.
abbrev pub lowest : OMap → ℕ
lowest [] = oid_first
lowest (l ∷ ls) = l.h.dest

-- On a sorted table whose first destination and length add up to less than 2^16, the id that
-- `casycom_create_proxy` chooses is the first one from the table's first destination on to which
-- there is no link.
pub free_oid-FirstFree :
    (omap : OMap)
    → IsSorted omap
    → lowest omap + length omap < 2 ^ 16
    → FirstFree omap (lowest omap) (free_oid omap)
unfolding free_oid
free_oid-FirstFree [] s b =
    unfold links_to in
    record { from_low = omega arith; free = refl; used = λ i p q. absurd (omega arith) }
free_oid-FirstFree (l ∷ ls) s b = free_oid_from-FirstFree (l ∷ ls) l.h.dest s b
