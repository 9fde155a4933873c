-- ===== src/Destruction/Cascade.antt =====
-- The cascade of destruction ends, and leaves no link from the object.
use casycom.Base.{
  ℕ, zero, suc, ◌+◌, ◌-◌, ◌<◌, ◌≤◌, ◌≡◌, ◌≢◌, refl, ap, ◌∙◌, false, inl, inr, true, not, ◌&&◌, leb,
  le→leb, List, [], ◌∷◌, Option, none, some, arith, ◌==◌, length, get_elem?, take, drop, Bool-cases,
  Option-cases, length-append, length-take, length-drop,
}
use casycom.Msg.{oid_broadcast}
use casycom.Links.{MsgLink, OMap}
use casycom.Loop.{Sys, link_to}
use casycom.Destruction.{
  Destructors, erase_link, callers, link_of_source, notify_one, notify, notify_callers, max_callers,
  announce, destroy_object_by, destroy_link_by, erase_from, destroy_link_at, destroy_object,
}

get_elem?-inside : (omap : OMap) (i : ℕ) (l : MsgLink) → get_elem? omap i ≡ some l → i < length omap
get_elem?-inside [] i l h = cc
get_elem?-inside (k ∷ ks) zero l h = omega arith
get_elem?-inside (k ∷ ks) (suc i) l h = let r = get_elem?-inside ks i l h in omega arith

length-erase_link :
    (omap : OMap) (l : ℕ) (ol : MsgLink)
    → get_elem? omap l ≡ some ol
    → length (erase_link omap l) < length omap
unfolding erase_link
length-erase_link omap l ol h = omega (
  arith,
  get_elem?-inside omap l ol h,
  length-append (take l omap) (drop (l + 1) omap),
  length-take l omap,
  length-drop (l + 1) omap,
)

-- The link that the search finds is there.
link_of_source-found :
    (omap : OMap) (oid base di : ℕ)
    → link_of_source omap oid base ≡ some di
    → (i : ℕ) × (ol : MsgLink) × (di ≡ base + i) × (get_elem? omap i ≡ some ol)
unfolding link_of_source
link_of_source-found [] oid base di h = cc
link_of_source-found (l ∷ ls) oid base di h = elim (Bool-cases (l.h.src == oid)) [
  | inl e ↦ (0, l, ground (arith, e, h), refl)
  | inr e ↦
      let (i, ol, at, there) = link_of_source-found ls oid (base + 1) di (rw e at h) in
      (suc i, ol, omega arith, there)
]

callers-erase_link :
    (omap : OMap) (l oid : ℕ) → length (callers (erase_link omap l) oid) ≤ length (callers omap oid)
unfolding erase_link callers
callers-erase_link [] zero oid = omega arith
callers-erase_link [] (suc l) oid =
    let e : suc l + 1 ≡ suc (l + 1) = omega arith in rw e (omega arith)
callers-erase_link (k ∷ ks) zero oid =
    elim (Bool-cases ((k.h.dest == oid) && not (k.h.src == oid_broadcast))) [
      | inl t ↦ rw t (omega arith)
      | inr t ↦ rw t (omega arith)
    ]
callers-erase_link (k ∷ ks) (suc l) oid =
    let e : suc l + 1 ≡ suc (l + 1) = omega arith in
    let rest = callers-erase_link ks l oid in
    elim (Bool-cases ((k.h.dest == oid) && not (k.h.src == oid_broadcast))) [
      | inl t ↦ rw (e, t) (omega arith)
      | inr t ↦ rw (e, t) rest
    ]

pub length-callers : (omap : OMap) (oid : ℕ) → length (callers omap oid) ≤ length omap
unfolding callers
length-callers [] oid = omega arith
length-callers (k ∷ ks) oid =
    let rest = length-callers ks oid in
    elim (Bool-cases ((k.h.dest == oid) && not (k.h.src == oid_broadcast))) [
      | inl t ↦ rw t (omega arith)
      | inr t ↦ rw t (omega arith)
    ]

-- No more links, and no object with more callers.
pub record Shrinks (a b : OMap) : Type 0 where
  pub fewer : length a ≤ length b
  pub fewer_callers : (oid : ℕ) → length (callers a oid) ≤ length (callers b oid)

pub Shrinks-refl : (a : OMap) → Shrinks a a
Shrinks-refl a = record { fewer = omega arith; fewer_callers = λ oid. omega arith }

Shrinks-trans : (a b c : OMap) → Shrinks a b → Shrinks b c → Shrinks a c
Shrinks-trans a b c p q = record {
  fewer = omega (arith, p.fewer, q.fewer);
  fewer_callers = λ oid. omega (arith, p.fewer_callers oid, q.fewer_callers oid);
}

-- The callers of each object fit in the array.
abbrev pub CallersFit : OMap → Type 0
CallersFit omap = (oid : ℕ) → length (callers omap oid) ≤ max_callers

pub CallersFit-Shrinks : (a b : OMap) → Shrinks a b → CallersFit b → CallersFit a
CallersFit-Shrinks a b p fit oid = omega (arith, p.fewer_callers oid, fit oid)

module _ {U : Type 0} where
  -- Destructors and handlers that only destroy further links, and make none.
  pub record MakesNoLinks (d : Destructors U) : Type 0 where
    pub destroy_fewer : (f o : ℕ) (s : Sys U) → Shrinks (d.destroy f o s).omap s.omap
    pub destroyed_fewer :
        (f o oid : ℕ) (s : Sys U) → Shrinks (d.object_destroyed f o oid s).omap s.omap

  notify_one_fewer :
      (d : Destructors U)
      → MakesNoLinks d
      → (oid : ℕ) (cl : Option MsgLink) (s : Sys U) → Shrinks (notify_one d oid cl s).omap s.omap
  unfolding notify_one
  notify_one_fewer d few oid none s = Shrinks-refl s.omap
  notify_one_fewer d few oid (some cl) s = elim (Bool-cases (d.has_destroyed cl.factory)) [
    | inl e ↦ rw e (few.destroyed_fewer cl.factory cl.o oid s)
    | inr e ↦ rw e (Shrinks-refl s.omap)
  ]

  notify_fewer :
      (d : Destructors U)
      → MakesNoLinks d
      → (oid : ℕ) (cs : List ℕ) (s : Sys U) → Shrinks (notify d oid cs s).omap s.omap
  unfolding notify
  notify_fewer d few oid [] s = Shrinks-refl s.omap
  notify_fewer d few oid (c ∷ cs) s =
      let t = notify_one d oid (link_to s.omap c) s in
      Shrinks-trans _ t.omap s.omap (notify_fewer d few oid cs t)
        (notify_one_fewer d few oid (link_to s.omap c) s)

  pub notify_callers-ends :
      (d : Destructors U)
      → MakesNoLinks d
      → (oid : ℕ) (s : Sys U) → CallersFit s.omap
      → (t : Sys U) × (notify_callers d oid s ≡ some t) × Shrinks t.omap s.omap
  unfolding notify_callers
  notify_callers-ends d few oid s fit =
      let e : leb (length (callers s.omap oid)) max_callers ≡ true = le→leb _ _ (fit oid) in
      (
        notify d oid (callers s.omap oid) s,
        rw e refl,
        notify_fewer d few oid (callers s.omap oid) s,
      )

  announce-ends :
      (d : Destructors U)
      → MakesNoLinks d
      → (ol : MsgLink) (s : Sys U) → CallersFit s.omap
      → (t : Sys U) × (announce d ol s ≡ some t) × Shrinks t.omap s.omap
  unfolding announce
  announce-ends d few ol s fit =
      let u = d.destroy ol.factory ol.o s in
      let less = few.destroy_fewer ol.factory ol.o s in
      let (t, e, k) =
        notify_callers-ends d few ol.h.dest u (CallersFit-Shrinks u.omap s.omap less fit) in
      (t, e, Shrinks-trans t.omap u.omap s.omap k less)

  -- A destruction returns, with no more links than `n`.
  abbrev Ends : ℕ → Option (Sys U) → Type 0
  Ends n result = (t : Sys U) × (result ≡ some t) × (length t.omap ≤ n) × CallersFit t.omap

  -- The loop returns, and leaves no link from the object.
  abbrev pub Erases : ℕ → Sys U → Option (Sys U) → Type 0
  Erases oid s result =
      (t : Sys U) × (result ≡ some t)
      × (link_of_source t.omap oid 0 ≡ none)
      × (length t.omap ≤ length s.omap)
      × CallersFit t.omap

  module _ (d : Destructors U) (few : MakesNoLinks d) where
    destroy_object-Ends :
        (erase : ℕ → Sys U → Option (Sys U)) (ol : MsgLink) (s : Sys U)
        → CallersFit s.omap
        → ((oid : ℕ) (t : Sys U)
            → length t.omap ≤ length s.omap
            → CallersFit t.omap
            → Erases oid t (erase oid t))
        → Ends (length s.omap) (destroy_object_by d erase ol s)
    unfolding destroy_object_by
    destroy_object-Ends erase ol s fit h = elim (Bool-cases (ol.o == 0)) [
      | inl e ↦ (s, rw e refl, omega arith, fit)
      | inr e ↦
          let (u, told, fewer) = announce-ends d few ol s fit in
          let (t, done, none_left, le, fit') =
            h ol.h.dest u fewer.fewer (CallersFit-Shrinks u.omap s.omap fewer fit) in
          (t, rw (e, told) done, omega (arith, le, fewer.fewer), fit')
    ]

    destroy_link-Ends :
        (erase : ℕ → Sys U → Option (Sys U)) (l : ℕ) (ol : MsgLink) (s : Sys U) (n : ℕ)
        → get_elem? s.omap l ≡ some ol
        → length s.omap ≤ suc n
        → CallersFit s.omap
        → ((oid : ℕ) (t : Sys U)
            → length t.omap ≤ n
            → CallersFit t.omap
            → Erases oid t (erase oid t))
        → Ends n (destroy_link_by d erase l s)
    unfolding destroy_link_by
    destroy_link-Ends erase l ol s n found size fit h =
        let less = length-erase_link s.omap l ol found in
        let s' : Sys U = record s { omap = erase_link s.omap l } in
        let fit' : CallersFit s'.omap =
          λ oid. omega (arith, callers-erase_link s.omap l oid, fit oid) in
        let (t, done, le, fit'') =
          destroy_object-Ends erase ol s' fit' (λ oid t le. h oid t (omega arith)) in
        (t, rw (found, destroy_link_by) done, omega arith, fit'')

    -- The loop that erases the links from an object, and with them the objects that it made, ends with
    -- no link from the object, and more fuel than links is enough.
    pub erase_from-Erases :
        (fuel oid : ℕ) (s : Sys U)
        → length s.omap < fuel
        → CallersFit s.omap
        → Erases oid s (erase_from d fuel oid s)
    unfolding erase_from
    erase_from-Erases zero oid s h fit = absurd (omega arith)
    erase_from-Erases (suc fuel) oid s h fit = elim (Option-cases (link_of_source s.omap oid 0)) [
      | inl e ↦ (s, rw (e, erase_from) refl, e, omega arith, fit)
      | inr (di, e) ↦
          let (i, ol, at, there) = link_of_source-found s.omap oid 0 di e in
          let here : get_elem? s.omap di ≡ some ol =
            (let same : di ≡ i = omega arith in ap (get_elem? s.omap) same ∙ there) in
          let inside = get_elem?-inside s.omap di ol here in
          let n : ℕ = length s.omap - 1 in
          let (t, done, le, fit') =
            destroy_link-Ends (erase_from d fuel) di ol s n here (omega arith) fit
              (λ oid' t' le fit'. erase_from-Erases fuel oid' t' (omega arith) fit') in
          let (u, done', none_left, le', fit'') = erase_from-Erases fuel oid t (omega arith) fit' in
          (u, rw (e, erase_from, done) done', none_left, omega arith, fit'')
    ]

-- With destructors and handlers that make no links, no object with more than 16 callers, and as
-- much fuel as there are links, `casycom_destroy_link_at` at an index of the table returns, leaves
-- fewer links than there were, and no object with more than 16 callers.
pub destroy_link_at-ends :
    {U : Type 0} (d : Destructors U) (fuel l : ℕ) (ol : MsgLink) (s : Sys U)
    → MakesNoLinks d
    → CallersFit s.omap
    → get_elem? s.omap l ≡ some ol
    → length s.omap ≤ fuel
    → (t : Sys U) × (destroy_link_at d fuel l s ≡ some t)
      × (length t.omap < length s.omap)
      × CallersFit t.omap
unfolding destroy_link_at
destroy_link_at-ends d fuel l ol s few fit found h =
    let inside = get_elem?-inside s.omap l ol found in
    let n : ℕ = length s.omap - 1 in
    let (t, done, le, fit') =
      destroy_link-Ends d few (erase_from d fuel) l ol s n found (omega arith) fit
        (λ oid t le fit'. erase_from-Erases d few fuel oid t (omega arith) fit') in
    (t, done, omega arith, fit')

-- With destructors and handlers that make no links and give no object more callers, at most 16
-- callers of each object, the room of the array, and more fuel than links, `casycom_destroy_object`
-- on a link with an object returns, no link from the object is left, there are no more links than
-- before, and the callers of each object still fit.
pub destroy_object-Erases :
    {U : Type 0} (d : Destructors U) (fuel : ℕ) (ol : MsgLink) (s : Sys U)
    → MakesNoLinks d
    → CallersFit s.omap
    → ol.o ≢ 0
    → length s.omap < fuel
    → Erases ol.h.dest s (destroy_object d fuel ol s)
unfolding destroy_object destroy_object_by
destroy_object-Erases d fuel ol s few fit exists h =
    let e : (ol.o == 0) ≡ false = ground (arith, exists) in
    let (u, told, fewer) = announce-ends d few ol s fit in
    let (t, done, none_left, le, fit') =
      erase_from-Erases d few fuel ol.h.dest u (omega (arith, fewer.fewer))
        (CallersFit-Shrinks u.omap s.omap fewer fit) in
    (t, rw (e, told) done, none_left, omega (arith, le, fewer.fewer), fit')
