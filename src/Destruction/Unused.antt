-- ===== src/Destruction/Unused.antt =====
-- `casycom_destroy_unused_objects` of main.c ends. The destructors and handlers here change the objects
-- only, so that the link that is cleared stays at its index.
use casycom.Base.{
  ℕ, zero, suc, ◌-◌, ◌<◌, ◌≤◌, ◌≡◌, ◌≢◌, refl, ap, ◌∙◌, false, inl, inr, List, [], ◌∷◌, Option,
  none, some, arith, ◌==◌, length, get_elem?, set, Bool-cases, Option-cases, length-set, leb,
}
use mathlib.Core.Option.{some-injective}
use casycom.Base.Chain.{assert, >>=-eq-some}
use casycom.Links.{MsgLink}
use casycom.Loop.{Sys, link_to}
use casycom.Destruction.{
  Destructors, erase_link, callers, link_of_source, unused_from, notify_one, notify, notify_callers,
  max_callers, announce, destroy_object_by, destroy_link_by, erase_from, clear_link,
  destroy_in_place, destroy_unused_objects,
}
use casycom.Destruction.Marks.{
  marks, AllLive, HasMarks, cleared, unused_from-found, unused_from-none, unused_from-some,
  HasMarks-erase_link, callers-cleared,
}
use casycom.Destruction.Cascade.{
  MakesNoLinks, erase_from-Erases, Shrinks-refl, CallersFit, CallersFit-Shrinks,
  notify_callers-ends,
}

module _ {U : Type 0} where
  -- Destructors and handlers that leave the routing table as it is.
  pub record KeepsTable (d : Destructors U) : Type 0 where
    pub destroy_same : (f o : ℕ) (s : Sys U) → (d.destroy f o s).omap ≡ s.omap
    pub destroyed_same : (f o oid : ℕ) (s : Sys U) → (d.object_destroyed f o oid s).omap ≡ s.omap

  KeepsTable-MakesNoLinks : (d : Destructors U) → KeepsTable d → MakesNoLinks d
  KeepsTable-MakesNoLinks d k = record {
    destroy_fewer = λ f o s. rw (k.destroy_same f o s) (Shrinks-refl s.omap);
    destroyed_fewer = λ f o oid s. rw (k.destroyed_same f o oid s) (Shrinks-refl s.omap);
  }

  -- No link is marked, and there are no more links than before.
  abbrev pub Sweeps : Sys U → Option (Sys U) → Type 0
  Sweeps s result =
      (t : Sys U) × (result ≡ some t) × (marks t.omap ≡ 0) × (length t.omap ≤ length s.omap)

  -- A destruction returns, with at most `n` marks.
  abbrev SweptOne : ℕ → Sys U → Option (Sys U) → Type 0
  SweptOne n s result =
      (t : Sys U) × (result ≡ some t)
      × HasMarks n t.omap
      × (length t.omap ≤ length s.omap)
      × CallersFit t.omap

  module _ (d : Destructors U) (k : KeepsTable d) where
    notify_one_same :
        (oid : ℕ) (cl : Option MsgLink) (s : Sys U) → (notify_one d oid cl s).omap ≡ s.omap
    unfolding notify_one
    notify_one_same oid none s = refl
    notify_one_same oid (some cl) s = elim (Bool-cases (d.has_destroyed cl.factory)) [
      | inl e ↦ rw e (k.destroyed_same cl.factory cl.o oid s)
      | inr e ↦ rw e refl
    ]

    notify_same : (oid : ℕ) (cs : List ℕ) (s : Sys U) → (notify d oid cs s).omap ≡ s.omap
    unfolding notify
    notify_same oid [] s = refl
    notify_same oid (c ∷ cs) s =
        notify_same oid cs (notify_one d oid (link_to s.omap c) s)
        ∙ notify_one_same oid (link_to s.omap c) s

    notify_callers_same :
        (oid : ℕ) (s t : Sys U) → notify_callers d oid s ≡ some t → t.omap ≡ s.omap
    unfolding notify_callers
    notify_callers_same oid s t e =
        let (u, fit, e') =
          >>=-eq-some (assert (leb (length (callers s.omap oid)) max_callers)) _ e in
        let same : notify d oid (callers s.omap oid) s ≡ t = some-injective _ _ e' in
        rw (← same) (notify_same oid (callers s.omap oid) s)

    announce_same : (ol : MsgLink) (s t : Sys U) → announce d ol s ≡ some t → t.omap ≡ s.omap
    unfolding announce
    announce_same ol s t e =
        notify_callers_same ol.h.dest (d.destroy ol.factory ol.o s) t e
        ∙ k.destroy_same ol.factory ol.o s

    -- A destruction that returns makes no marks.
    abbrev MarksNone : ℕ → Sys U → Option (Sys U) → Type 0
    MarksNone n s result = (t : Sys U) → result ≡ some t → HasMarks n s.omap → HasMarks n t.omap

    destroy_object-MarksNone :
        (n : ℕ) (erase : ℕ → Sys U → Option (Sys U)) (ol : MsgLink) (s : Sys U)
        → ((oid : ℕ) (t : Sys U) → MarksNone n t (erase oid t))
        → MarksNone n s (destroy_object_by d erase ol s)
    unfolding destroy_object_by
    destroy_object-MarksNone n erase ol s keeps t e h = elim (Bool-cases (ol.o == 0)) [
      | inl z ↦ let same : s ≡ t = some-injective _ _ (rw z at e) in rw (← same) h
      | inr z ↦
          let (u, told, e') = >>=-eq-some (announce d ol s) (erase ol.h.dest) (rw z at e) in
          keeps ol.h.dest u t e' (rw (announce_same ol s u told) h)
    ]

    destroy_link-MarksNone :
        (n : ℕ) (erase : ℕ → Sys U → Option (Sys U)) (l : ℕ) (s : Sys U)
        → ((oid : ℕ) (t : Sys U) → MarksNone n t (erase oid t))
        → MarksNone n s (destroy_link_by d erase l s)
    unfolding destroy_link_by
    destroy_link-MarksNone n erase l s keeps t e h = elim (Option-cases (get_elem? s.omap l)) [
      | inl z ↦
          let same : s ≡ t = some-injective _ _ (rw (z, destroy_link_by) at e) in rw (← same) h
      | inr (ol, z) ↦
          destroy_object-MarksNone n erase ol (record s { omap = erase_link s.omap l }) keeps t
            (rw (z, destroy_link_by) at e) (HasMarks-erase_link n s.omap l h)
    ]

    erase_from-MarksNone : (n fuel oid : ℕ) (s : Sys U) → MarksNone n s (erase_from d fuel oid s)
    unfolding erase_from
    erase_from-MarksNone n zero oid s t e h = cc
    erase_from-MarksNone n (suc fuel) oid s t e h =
        elim (Option-cases (link_of_source s.omap oid 0)) [
          | inl z ↦ let same : s ≡ t = some-injective _ _ (rw (z, erase_from) at e) in rw (← same) h
          | inr (di, z) ↦
              let (u, e', e'') =
                >>=-eq-some (destroy_link_by d (erase_from d fuel) di s) (erase_from d fuel oid)
                  (rw (z, erase_from) at e) in
              erase_from-MarksNone n fuel oid u t e'' (
                destroy_link-MarksNone n (erase_from d fuel) di s (erase_from-MarksNone n fuel) u e'
                  h)
        ]

    -- The clearing of the link, and what comes then, ends and makes no marks.
    clear_link-ends :
        (n fuel i : ℕ) (ol : MsgLink) (s : Sys U)
        → get_elem? s.omap i ≡ some ol
        → HasMarks n (set s.omap i (cleared ol))
        → CallersFit s.omap
        → length s.omap < fuel
        → SweptOne n s (clear_link d fuel i (some ol) s)
    unfolding clear_link
    clear_link-ends n fuel i ol s there h fit enough =
        let u : Sys U = record s { omap = set s.omap i (cleared ol) } in
        let few = KeepsTable-MakesNoLinks d k in
        let fit' : CallersFit u.omap =
          λ oid. omega (arith, ap length (callers-cleared s.omap i ol oid there), fit oid) in
        let (v, told, fewer) = notify_callers-ends d few ol.h.dest u fit' in
        let size : length u.omap ≡ length s.omap = length-set s.omap i (cleared ol) in
        let (w, e, none_left, le, fit'') =
          erase_from-Erases d few fuel ol.h.dest v (omega (arith, fewer.fewer))
            (CallersFit-Shrinks v.omap u.omap fewer fit') in
        (
          w,
          rw told e,
          erase_from-MarksNone n fuel ol.h.dest v w e
              (rw (notify_callers_same ol.h.dest u v told) h),
          omega (arith, fewer.fewer, le),
          fit'',
        )

    -- The destruction of a marked object ends with one mark less.
    destroy_in_place-ends :
        (n fuel i : ℕ) (ol : MsgLink) (s : Sys U)
        → get_elem? s.omap i ≡ some ol
        → ol.o ≢ 0
        → HasMarks n (set s.omap i (cleared ol))
        → CallersFit s.omap
        → length s.omap < fuel
        → SweptOne n s (destroy_in_place d fuel i ol s)
    unfolding destroy_in_place
    destroy_in_place-ends n fuel i ol s there live h fit enough =
        let z : (ol.o == 0) ≡ false = ground (arith, live) in
        let t = d.destroy ol.factory ol.o s in
        let same : t.omap ≡ s.omap = k.destroy_same ol.factory ol.o s in
        let there' : get_elem? t.omap i ≡ some ol = rw same there in
        let (w, e, h', le, fit') =
          clear_link-ends n fuel i ol t there' (rw same h) (rw same fit) (rw same enough) in
        (w, rw (z, there') e, h', omega (arith, le, ap length same), fit')

    sweep :
        (n fuel rounds : ℕ) (s : Sys U)
        → HasMarks n s.omap
        → CallersFit s.omap
        → n < rounds
        → length s.omap < fuel
        → Sweeps s (destroy_unused_objects d fuel rounds s)
    unfolding destroy_unused_objects
    sweep n fuel zero s h fit lt enough = absurd (omega arith)
    sweep n fuel (suc rounds) s h fit lt enough = elim (Option-cases (unused_from s.omap 0)) [
      | inl e ↦ (s, rw (e, destroy_unused_objects) refl, unused_from-none s.omap 0 e, omega arith)
      | inr (found, e) ↦
          let some_left = unused_from-some s.omap 0 found e in
          let (i, at, there, live, fewer) =
            unused_from-found s.omap 0 (n - 1) found e (omega (arith, h.0), h.1) in
          let same : found.0 ≡ i = omega arith in
          let (t, e', h', le, fit') =
            destroy_in_place-ends (n - 1) fuel i found.1 s there live fewer fit enough in
          let here : destroy_in_place d fuel found.0 found.1 s ≡ some t =
            ap (λ (j : ℕ). destroy_in_place d fuel j found.1 s) same ∙ e' in
          let (u, e'', clean, le') =
            sweep (n - 1) fuel rounds t h' fit' (omega (arith, h.0)) (omega arith) in
          (u, rw (e, destroy_unused_objects, here) e'', clean, omega arith)
    ]

-- When destructors and handlers leave the routing table as it is, every marked link has an object
-- and no object has more than 16 callers, the room of the array, the sweep of
-- `casycom_destroy_unused_objects` ends, within one round more than there are marked links, and
-- leaves no marked link and no more links than there were.
pub destroy_unused_objects-Sweeps :
    {U : Type 0} (d : Destructors U) (fuel rounds : ℕ) (s : Sys U)
    → KeepsTable d
    → AllLive s.omap
    → CallersFit s.omap
    → marks s.omap < rounds
    → length s.omap < fuel
    → Sweeps s (destroy_unused_objects d fuel rounds s)
destroy_unused_objects-Sweeps d fuel rounds s k live fit lt enough =
    sweep d k (marks s.omap) fuel rounds s (omega arith, live) fit lt enough
