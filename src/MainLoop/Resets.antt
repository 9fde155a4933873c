-- ===== src/MainLoop/Resets.antt =====
-- `casycom_reset` of main.c, which destroys the last link until no link is left.
use casycom.Base.{
  ℕ, zero, suc, ◌-◌, ◌<◌, ◌≤◌, ◌≡◌, refl, true, false, inl, inr, [], ◌∷◌, none, some, arith, ◌==◌,
  length, get_elem?, Bool-cases,
}
use casycom.Links.{MsgLink, OMap}
use casycom.Loop.{Sys}
use casycom.Destruction.{Destructors, destroy_link_at}
use casycom.Destruction.Cascade.{MakesNoLinks, CallersFit, destroy_link_at-ends}
use casycom.MainLoop.{destroy_links, reset}

get_elem?-at : (omap : OMap) (i : ℕ) → i < length omap → (l : MsgLink) × (get_elem? omap i ≡ some l)
get_elem?-at [] i h = absurd (omega arith)
get_elem?-at (k ∷ ks) zero h = (k, refl)
get_elem?-at (k ∷ ks) (suc i) h = get_elem?-at ks i (omega arith)

module _ {U : Type 0} where
  -- Nothing of the framework is left.
  pub record IsReset (t : Sys U) : Type 0 where
    pub omap : t.omap ≡ []
    pub input_queue : t.input_queue ≡ []
    pub output_queue : t.output_queue ≡ []
    pub object_table : t.registry.object_table ≡ []
    pub error : t.error ≡ none

  -- The last link of a table that has one can be destroyed.
  destroy_last :
      (d : Destructors U) (fuel : ℕ) (s : Sys U)
      → MakesNoLinks d
      → CallersFit s.omap
      → (length s.omap == 0) ≡ false
      → length s.omap ≤ fuel
      → (t : Sys U) × (destroy_link_at d fuel (length s.omap - 1) s ≡ some t)
        × (length t.omap < length s.omap)
        × CallersFit t.omap
  destroy_last d fuel s few fit some_left enough =
      let (ol, found) = get_elem?-at s.omap (length s.omap - 1) (ground (arith, some_left)) in
      destroy_link_at-ends d fuel (length s.omap - 1) ol s few fit found enough

  destroy_links-ends :
      (d : Destructors U) (fuel rounds : ℕ) (s : Sys U)
      → MakesNoLinks d
      → CallersFit s.omap
      → length s.omap ≤ fuel
      → length s.omap ≤ rounds
      → (t : Sys U) × (destroy_links d fuel rounds s ≡ some t) × (length t.omap ≡ 0)
  unfolding destroy_links
  destroy_links-ends d fuel zero s few fit enough h =
      let e : (length s.omap == 0) ≡ true = ground (arith, h) in (s, rw e refl, omega arith)
  destroy_links-ends d fuel (suc rounds) s few fit enough h =
      elim (Bool-cases (length s.omap == 0)) [
        | inl e ↦ (s, rw (e, destroy_links) refl, ground (arith, e))
        | inr e ↦
            let (t, done, less, fit') = destroy_last d fuel s few fit e enough in
            let (u, ended, none_left) =
              destroy_links-ends d fuel rounds t few fit' (omega arith) (omega arith) in
            (u, rw (e, destroy_links, done) ended, none_left)
      ]

-- With destructors and handlers that make no links and give no object more callers, and at most 16
-- callers of each object, the room of the array, `casycom_reset` ends, within as many rounds as
-- there are links, and leaves no link, no message in either queue, no class in the object table and
-- no error.
pub reset-IsReset :
    {U : Type 0} (d : Destructors U) (fuel rounds : ℕ) (s : Sys U)
    → MakesNoLinks d
    → CallersFit s.omap
    → length s.omap ≤ fuel
    → length s.omap ≤ rounds
    → (t : Sys U) × (reset d fuel rounds s ≡ some t) × IsReset t
unfolding reset
reset-IsReset d fuel rounds s few fit enough h =
    let (t, done, none_left) = destroy_links-ends d fuel rounds s few fit enough h in
    (
      record t {
        omap = [];
        input_queue = [];
        output_queue = [];
        registry = record t.registry { object_table = [] };
        error = none;
      },
      rw done refl,
      record {
        omap = refl;
        input_queue = refl;
        output_queue = refl;
        object_table = refl;
        error = refl;
      },
    )
