-- ===== src/Classes/Lookup.antt =====
-- Which class answers for an interface after `casycom_enable_externs`.
use casycom.Base.{
  ℕ, ◌≡◌, refl, ◌∙◌, List, [], ◌∷◌, ◌++◌, some, ◌==◌, if◌then◌else◌, inl, inr, Bool-cases, ap,
}
use mathlib.Core.List.{append_assoc}
use casycom.Iids
use casycom.Registry.{
  Dtable, Registry, register, register_default, dtable_for, or_default, find_dtable, factory_from,
  find_factory,
}
use casycom.Registry.Choice.{NoneSupports}
use casycom.Classes.Address
use casycom.Classes.{
  Factory, dtable_at, d_com_relay_com, f_timer, f_extern, f_com_relay, class_at, dtables,
  enable_externs,
}

-- The class for an interface that no class of the program has, and the dtable that it answers with.
unfoldable pub class_for : ℕ → ℕ × Dtable
unfolding d_com_relay_com
class_for iid =
    if Iids.timer == iid
    then (Address.timer, dtable_at 14 Iids.timer)
    else if Iids.extern == iid
    then (Address.extern, dtable_at 21 Iids.extern)
    else if Iids.timer_r == iid
    then (Address.extern, dtable_at 22 Iids.timer_r)
    else (Address.com_relay, d_com_relay_com)

factory_from-append :
    (dtable : ℕ → List Dtable) (r : Registry) (iid : ℕ) (os later : List ℕ)
    → NoneSupports dtable r iid os
    → factory_from dtable r (os ++ later) iid ≡ factory_from dtable r later iid
unfolding factory_from
factory_from-append dtable r iid [] later unable = refl
factory_from-append dtable r iid (o ∷ os) later (unable, rest) =
    rw unable (factory_from-append dtable r iid os later rest)

module _ (own : ℕ → Factory) (r : Registry) (iid : ℕ)
    (e : r.default_object ≡ Address.com_relay) where
  factory_from-class_for :
      factory_from (dtables own) r (Address.timer ∷ Address.extern ∷ []) iid ≡ (class_for iid).0
  unfolding factory_from find_dtable or_default dtable_for dtables class_at f_timer f_extern
      class_for
  factory_from-class_for = rw e (elim (Bool-cases (Iids.timer == iid)) [
    | inl t ↦ rw t refl
    | inr t ↦ elim (Bool-cases (Iids.extern == iid)) [
      | inl x ↦ rw (t, x) refl
      | inr x ↦ elim (Bool-cases (Iids.timer_r == iid)) [
        | inl y ↦ rw (t, x, y) refl
        | inr y ↦ rw (t, x, y) refl
      ]
    ]
  ])

  find_dtable-class_for : find_dtable (dtables own) r (class_for iid).0 iid ≡ some (class_for iid).1
  unfolding find_dtable or_default dtable_for dtables class_at f_timer f_extern f_com_relay
      class_for
  find_dtable-class_for = rw e (elim (Bool-cases (Iids.timer == iid)) [
    | inl t ↦ rw t (rw t refl)
    | inr t ↦ elim (Bool-cases (Iids.extern == iid)) [
      | inl x ↦ rw (t, x) (rw x refl)
      | inr x ↦ elim (Bool-cases (Iids.timer_r == iid)) [
        | inl y ↦ rw (t, x, y) (rw (x, y) refl)
        | inr y ↦
            rw (t, x, y)
              (elim (Bool-cases (Iids.com_iid == iid)) [ inl z ↦ rw z refl | inr z ↦ rw z refl ])
      ]
    ]
  ])

-- After `casycom_enable_externs`, for an interface that no class registered before has,
-- `casycom_find_factory` gives the Timer class for Timer, the Extern class for Extern and for the
-- reply of Timer, and the relay class for any other, and in that class `casycom_find_dtable` finds
-- the dtable of the interface, or the relay's COM dtable for an interface that no class has.
pub enable_externs-class_for :
    (own : ℕ → Factory) (r : Registry) (iid : ℕ)
    → NoneSupports (dtables own) (enable_externs r) iid r.object_table
    → (find_factory (dtables own) (enable_externs r) iid ≡ (class_for iid).0)
      × (find_dtable (dtables own) (enable_externs r) (class_for iid).0 iid
          ≡ some (class_for iid).1)
unfolding enable_externs find_factory register register_default
enable_externs-class_for own r iid unable =
    let table = append_assoc r.object_table (Address.timer ∷ []) (Address.extern ∷ []) in
    let new = enable_externs r in
    (
      ap (λ os. factory_from (dtables own) new os iid) table
          ∙ (factory_from-append (dtables own) new iid r.object_table _ unable
              ∙ factory_from-class_for own new iid refl),
      find_dtable-class_for own new iid refl,
    )
