-- ===== src/Links/Entry.antt =====
-- `casycom_create_proxy_to` enters a link behind all links to its destination.
use casycom.Base.{
  ℕ, suc, ◌+◌, ◌≤◌, ◌<◌, ◌≡◌, ◌≢◌, refl, ap, sym, ◌∙◌, Bool, true, false, inl, inr, [], ◌∷◌, ◌++◌,
  arith, ltb, leb, ◌==◌, if◌then◌else◌, drop, Bool-cases,
}
use casycom.Msg.{Proxy}
use casycom.Links.{MsgLink, OMap, past_block, emplace_at, create_link_to, new_link}
use casycom.Links.Order.{All, IsSorted, links_to, rank, enter}
use casycom.Links.Search.{lower_bound-rank, none_to}

past_block-add :
    (ls : OMap) (ip dest : ℕ) → past_block ls (ip + 1) dest ≡ suc (past_block ls ip dest)
unfolding past_block
past_block-add [] ip dest = omega arith
past_block-add (l ∷ ls) ip dest = ground (arith, past_block-add ls (ip + 1) dest)

-- Where the new link goes.
place : OMap → ℕ → ℕ
place omap dest = past_block (drop (rank omap dest) omap) (rank omap dest) dest

rank-All : (d dest : ℕ) (ls : OMap) → dest ≤ d → All (λ k. d ≤ k.h.dest) ls → rank ls dest ≡ 0
unfolding rank
rank-All d dest [] h a = refl
rank-All d dest (k ∷ ks) h a = ground (arith, h, a.0)

module _ (l : MsgLink) (ls : OMap) (dest : ℕ) where
  place_behind : l.h.dest < dest → place (l ∷ ls) dest ≡ suc (place ls dest)
  unfolding place rank
  place_behind h =
      let e : ltb l.h.dest dest ≡ true = ground (arith, h) in
      let step : rank ls dest + 1 ≡ suc (rank ls dest) = omega arith in
      rw (e, step)
        (ap (λ k. past_block (drop (rank ls dest) ls) k dest) (sym step)
          ∙ past_block-add (drop (rank ls dest) ls) (rank ls dest) dest)

  place_equal :
      l.h.dest ≡ dest
      → All (λ k. l.h.dest ≤ k.h.dest) ls
      → place (l ∷ ls) dest ≡ suc (place ls dest)
  unfolding place rank past_block
  place_equal h a =
      let e : ltb l.h.dest dest ≡ false = ground (arith, h) in
      let e' : (l.h.dest == dest) ≡ true = ground (arith, h) in
      rw (e, e', rank-All l.h.dest dest ls (omega arith) a) (past_block-add ls 0 dest)

  place_before : dest < l.h.dest → place (l ∷ ls) dest ≡ 0
  unfolding place rank past_block
  place_before h = ground (arith, h)

place-enter :
    (omap : OMap) (e : MsgLink)
    → IsSorted omap
    → emplace_at omap (place omap e.h.dest) e ≡ enter e omap
unfolding emplace_at enter
place-enter [] e s = unfold place rank past_block in refl
place-enter (l ∷ ls) e s = elim (Bool-cases (leb l.h.dest e.h.dest)) [
  | inl le ↦
      let behind : place (l ∷ ls) e.h.dest ≡ suc (place ls e.h.dest) =
        elim (Bool-cases (ltb l.h.dest e.h.dest)) [
          | inl lt ↦ place_behind l ls e.h.dest (ground (arith, lt))
          | inr ge ↦ place_equal l ls e.h.dest (ground (arith, le, ge)) s.0
        ] in
      rw (le, behind) (ap (l ∷◌) (place-enter ls e s.1))
  | inr gt ↦ rw (gt, place_before l ls e.h.dest (ground (arith, gt))) refl
]

-- On a sorted table a new link goes behind all links to its destination, and before all others that
-- stand behind them.
pub create_link_to-enter :
    (omap : OMap) (factory : ℕ) (h : Proxy)
    → IsSorted omap
    → create_link_to omap factory h ≡ enter (new_link factory h) omap
unfolding create_link_to place
create_link_to-enter omap factory h s =
    rw (lower_bound-rank omap h.dest s) (place-enter omap (new_link factory h) s)

All-enter :
    (d : ℕ) (e : MsgLink) (ls : OMap)
    → d ≤ e.h.dest
    → All (λ k. d ≤ k.h.dest) ls
    → All (λ k. d ≤ k.h.dest) (enter e ls)
unfolding enter
All-enter d e [] h a = (h, tt)
All-enter d e (l ∷ ls) h a = ground (arith, h, a.0, a.1, All-enter d e ls h a.1)

All-weaken : (c d : ℕ) (ls : OMap) → c ≤ d → All (λ k. d ≤ k.h.dest) ls → All (λ k. c ≤ k.h.dest) ls
All-weaken c d [] h a = tt
All-weaken c d (l ∷ ls) h a = (omega arith, All-weaken c d ls h a.1)

enter-IsSorted : (e : MsgLink) (omap : OMap) → IsSorted omap → IsSorted (enter e omap)
unfolding enter
enter-IsSorted e [] s = (tt, tt)
enter-IsSorted e (l ∷ ls) s = elim (Bool-cases (leb l.h.dest e.h.dest)) [
  | inl le ↦ rw le (All-enter l.h.dest e ls (ground (arith, le)) s.0, enter-IsSorted e ls s.1)
  | inr gt ↦
      rw gt ((ground (arith, gt), All-weaken e.h.dest l.h.dest ls (ground (arith, gt)) s.0), s)
]

links_to-enter :
    (e : MsgLink) (dest : ℕ) (omap : OMap)
    → IsSorted omap
    → links_to dest (enter e omap)
      ≡ (if e.h.dest == dest then links_to dest omap ++ (e ∷ []) else links_to dest omap)
unfolding enter links_to
links_to-enter e dest [] s = ground arith
links_to-enter e dest (l ∷ ls) s = elim (Bool-cases (leb l.h.dest e.h.dest)) [
  | inl le ↦ rw (le, links_to-enter e dest ls s.1) (push (l.h.dest == dest) (e.h.dest == dest))
  | inr gt ↦ elim (Bool-cases (e.h.dest == dest)) [
    | inl same ↦
        let after : links_to dest (l ∷ ls) ≡ [] =
          none_to l.h.dest dest (l ∷ ls) (ground (arith, same, gt)) (omega arith, s.0) in
        rw (gt, same) (ap (e ∷◌) after ∙ sym (ap (λ (t : OMap). t ++ (e ∷ [])) after))
    | inr other ↦ rw (gt, other) refl
  ]
]
  where
    push :
        (b c : Bool)
        → (if b
            then l ∷ (if c then links_to dest ls ++ (e ∷ []) else links_to dest ls)
            else (if c then links_to dest ls ++ (e ∷ []) else links_to dest ls))
          ≡ (if c
              then (if b then l ∷ links_to dest ls else links_to dest ls) ++ (e ∷ [])
              else (if b then l ∷ links_to dest ls else links_to dest ls))
    push true true = refl
    push true false = refl
    push false true = refl
    push false false = refl

-- What entering a link for `h` makes of a table.
pub record Entered (factory : ℕ) (h : Proxy) (omap result : OMap) : Type 0 where
  pub sorted : IsSorted result
  pub last_to_dest : links_to h.dest result ≡ links_to h.dest omap ++ (new_link factory h ∷ [])
  pub others : (dest : ℕ) → h.dest ≢ dest → links_to dest result ≡ links_to dest omap

-- On a table sorted by destination, `casycom_create_proxy_to` leaves a sorted table, in which the
-- new link stands last among the links to its destination and the links to any other are unchanged.
pub create_link_to-Entered :
    (omap : OMap) (factory : ℕ) (h : Proxy)
    → IsSorted omap
    → Entered factory h omap (create_link_to omap factory h)
create_link_to-Entered omap factory h s =
    let e = new_link factory h in
    let hit : (h.dest == h.dest) ≡ true = ground arith in
    rw (create_link_to-enter omap factory h s) record {
      sorted = enter-IsSorted e omap s;
      last_to_dest = links_to-enter e h.dest omap s ∙ rw hit refl;
      others = λ dest ne.
          let miss : (h.dest == dest) ≡ false = ground (arith, ne) in
          links_to-enter e dest omap s ∙ rw miss refl;
    }
