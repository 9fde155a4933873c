-- ===== src/Registry/Choice.antt =====
-- `casycom_find_factory` chooses the first class that has the interface, and the default otherwise.
use casycom.Base.{
  ℕ, ◌≡◌, ◌≢◌, refl, ap, true, inl, inr, List, [], ◌∷◌, ◌++◌, Option, none, some, arith, ◌==◌,
  Option-cases,
}
use casycom.Registry.{
  Dtable, Registry, dtable_for, find_dtable, or_default, factory_from, find_factory,
}

module _ (dtable : ℕ → List Dtable) (r : Registry) (iid : ℕ) where
  abbrev pub NoneSupports : List ℕ → Type 0
  NoneSupports [] = Unit
  NoneSupports (o ∷ os) = (find_dtable dtable r o iid ≡ none) × NoneSupports os

  -- How a class is chosen from the classes `table`.
  pub data Chooses (table : List ℕ) (o : ℕ) : Type 0 where
    registered :
        (others later : List ℕ) (d : Dtable)
        → table ≡ others ++ (o ∷ later)
        → NoneSupports others
        → find_dtable dtable r o iid ≡ some d
        → Chooses table o
    fallback : NoneSupports table → o ≡ r.default_object → Chooses table o

  skipped :
      (ot : ℕ) (ots : List ℕ) (o : ℕ)
      → find_dtable dtable r ot iid ≡ none
      → Chooses ots o
      → Chooses (ot ∷ ots) o
  skipped ot ots o e (registered others later d table unable able) =
      registered (ot ∷ others) later d (ap (ot ∷◌) table) (e, unable) able
  skipped ot ots o e (fallback unable is_default) = fallback (e, unable) is_default

  factory_from-Chooses : (table : List ℕ) → Chooses table (factory_from dtable r table iid)
  unfolding factory_from
  factory_from-Chooses [] = fallback tt refl
  factory_from-Chooses (ot ∷ ots) = elim (Option-cases (find_dtable dtable r ot iid)) [
    | inl e ↦ rw e (skipped ot ots _ e (factory_from-Chooses ots))
    | inr (d, e) ↦ rw e (registered [] ots d refl tt e)
  ]

-- `casycom_find_factory` gives the first class of the object table that has a dtable for the
-- interface, and the default class when there is no such class.
pub find_factory-Chooses :
    (dtable : ℕ → List Dtable) (r : Registry) (iid : ℕ)
    → Chooses dtable r iid r.object_table (find_factory dtable r iid)
unfolding find_factory
find_factory-Chooses dtable r iid = factory_from-Chooses dtable r iid r.object_table

or_default-true :
    (found : Option Dtable) (ds : List Dtable) → ds ≢ [] → or_default found true ds ≢ none
unfolding or_default
or_default-true (some d) ds h e = cc
or_default-true none [] h e = h refl
or_default-true none (d ∷ ds) h e = cc

default_supports :
    (dtable : ℕ → List Dtable) (r : Registry) (iid : ℕ)
    → dtable r.default_object ≢ []
    → find_dtable dtable r r.default_object iid ≢ none
unfolding find_dtable
default_supports dtable r iid h =
    let own : (r.default_object == r.default_object) ≡ true = ground arith in
    rw own (or_default-true (dtable_for (dtable r.default_object) iid) (dtable r.default_object) h)

-- When the default class has a dtable, the class that `casycom_find_factory` gives for an interface
-- has a dtable for it.
pub find_factory-supports :
    (dtable : ℕ → List Dtable) (r : Registry) (iid : ℕ)
    → dtable r.default_object ≢ []
    → find_dtable dtable r (find_factory dtable r iid) iid ≢ none
find_factory-supports dtable r iid h = elim (find_factory-Chooses dtable r iid) [
  | registered _ _ d _ _ able ↦ λ e. cc
  | fallback _ is_default ↦ rw is_default (default_supports dtable r iid h)
]
