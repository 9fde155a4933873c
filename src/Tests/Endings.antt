-- ===== src/Tests/Endings.antt =====
-- The destruction of an object that made two others.
use casycom.Base.{ℕ, ◌+◌, ◌≡◌, refl, inl, inr, true, false, [], ◌∷◌, none, some, arith}
use casycom.Links.{MsgLink}
use casycom.Loop.{Sys}
use casycom.Destruction.{Destructors, destroy_object, destroy_unused_objects}
use casycom.Destruction.Unused.{KeepsTable, Sweeps, destroy_unused_objects-Sweeps}
use casycom.Destruction.Cascade.{
  MakesNoLinks, Shrinks-refl, CallersFit, length-callers, Erases, destroy_object-Erases,
}
use casycom.MainLoop.{reset}
use casycom.MainLoop.Resets.{IsReset, reset-IsReset}

abbrev link : ℕ → ℕ → ℕ → MsgLink
link o src dest = record {
  o = o;
  factory = 80;
  h = record { interface = 5; src = src; dest = dest };
  flags = 0;
}

abbrev sys : Sys ℕ
sys = record {
  omap = link 1000 0 1 ∷ link 2000 1 2 ∷ link 3000 2 3 ∷ [];
  registry = record { object_table = 80 ∷ []; default_object = 0 };
  input_queue = [];
  output_queue = [];
  error = none;
  quitting = false;
  exit_code = 0;
  user = 0;
}

-- `user` counts the objects destroyed.
abbrev counting : Destructors ℕ
counting = record {
  destroy = λ f o s. record s { user = s.user + 1 };
  has_destroyed = λ f. true;
  object_destroyed = λ f o oid s. s;
}

counting-MakesNoLinks : MakesNoLinks counting
counting-MakesNoLinks = record {
  destroy_fewer = λ f o s. Shrinks-refl s.omap;
  destroyed_fewer = λ f o oid s. Shrinks-refl s.omap;
}

-- There are only three links.
few_callers : (a b c : MsgLink) → CallersFit (a ∷ b ∷ c ∷ [])
few_callers a b c oid = omega (arith, length-callers (a ∷ b ∷ c ∷ []) oid)

destroy_object-Erases_example : Erases 1 sys (destroy_object counting 4 (link 1000 0 1) sys)
destroy_object-Erases_example =
    destroy_object-Erases counting 4 (link 1000 0 1) sys counting-MakesNoLinks (few_callers _ _ _)
      (omega arith) (omega arith)

reset-IsReset_example : (t : Sys ℕ) × (reset counting 3 3 sys ≡ some t) × IsReset t
reset-IsReset_example =
    reset-IsReset counting 3 3 sys counting-MakesNoLinks (few_callers _ _ _) (omega arith)
      (omega arith)

-- The second object is marked.
abbrev marked_sys : Sys ℕ
marked_sys = record sys {
  omap = link 1000 0 1 ∷ record (link 2000 1 2) { flags = 1 } ∷ link 3000 2 3 ∷ [];
}

counting-KeepsTable : KeepsTable counting
counting-KeepsTable = record { destroy_same = λ f o s. refl; destroyed_same = λ f o oid s. refl }

destroy_unused_objects-Sweeps_example :
    Sweeps marked_sys (destroy_unused_objects counting 4 2 marked_sys)
destroy_unused_objects-Sweeps_example =
    destroy_unused_objects-Sweeps counting 4 2 marked_sys counting-KeepsTable
      (inl refl, (inr (omega arith), (inl refl, tt))) (few_callers _ _ _) (omega arith)
      (omega arith)
