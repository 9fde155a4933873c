-- ===== src/Registry.antt =====
-- The object table of main.c: which factory makes the objects of an interface. Factories and
-- interfaces are addresses, 0 for null; `dtable` gives the dtables of the factory at an address, which
-- are constants of the program that registers it, and `name` the name of an interface.
pub mod Choice
pub mod Names
use casycom.Base.{
  ℕ, ◌+◌, ◌-◌, ◌≡◌, Bool, true, false, List, [], ◌∷◌, ◌++◌, Option, none, some, ◌==◌, ◌&&◌, not,
  if◌then◌else◌,
}

-- A dtable: its address and the interface it implements.
pub record Dtable : Type 0 where
  pub at : ℕ
  pub interface : ℕ

pub record Registry : Type 0 where
  pub object_table : List ℕ
  pub default_object : ℕ

-- `casycom_register` and `casycom_register_default`.
unfoldable pub register : Registry → ℕ → Registry
register r o = record r { object_table = r.object_table ++ (o ∷ []) }

unfoldable pub register_default : Registry → ℕ → Registry
register_default r o = record r { default_object = o }

-- The loop over the dtables of a factory, to the null pointer at their end.
unfoldable pub dtable_for : List Dtable → ℕ → Option Dtable
dtable_for [] iid = none
dtable_for (d ∷ ds) iid = if d.interface == iid then some d else dtable_for ds iid

abbrev pub first_of : List Dtable → Option Dtable
first_of [] = none
first_of (d ∷ ds) = some d

-- `casycom_find_dtable`: the default class answers for every interface with its first dtable.
unfoldable pub or_default : Option Dtable → Bool → List Dtable → Option Dtable
or_default (some d) is_default ds = some d
or_default none is_default ds = if is_default then first_of ds else none

unfoldable pub find_dtable : (ℕ → List Dtable) → Registry → ℕ → ℕ → Option Dtable
unfolding or_default
find_dtable dtable r o iid =
    or_default (dtable_for (dtable o) iid) (o == r.default_object) (dtable o)

abbrev pub is_some : Option Dtable → Bool
is_some none = false
is_some (some d) = true

-- The loop of `casycom_find_factory` over the classes from some index on.
unfoldable pub factory_from : (ℕ → List Dtable) → Registry → List ℕ → ℕ → ℕ
factory_from dtable r [] iid = r.default_object
factory_from dtable r (ot ∷ ots) iid =
    if is_some (find_dtable dtable r ot iid) then ot else factory_from dtable r ots iid

unfoldable pub find_factory : (ℕ → List Dtable) → Registry → ℕ → ℕ
find_factory dtable r iid = factory_from dtable r r.object_table iid

-- `!strcmp (a, b)`, on names without their terminators.
unfoldable pub same_name : List ℕ → List ℕ → Bool
same_name [] [] = true
same_name [] (y ∷ ys) = false
same_name (x ∷ xs) [] = false
same_name (x ∷ xs) (y ∷ ys) = (x == y) && same_name xs ys

-- The loops of `casycom_interface_by_name`.
unfoldable pub interface_in : (ℕ → List ℕ) → List Dtable → List ℕ → Option ℕ
unfolding same_name
interface_in name [] iname = none
interface_in name (d ∷ ds) iname =
    if same_name (name d.interface) iname then some d.interface else interface_in name ds iname

unfoldable pub or_else : Option ℕ → Option ℕ → Option ℕ
or_else none second = second
or_else (some iid) second = some iid

unfoldable pub interface_in_table : (ℕ → List Dtable) → (ℕ → List ℕ) → List ℕ → List ℕ → Option ℕ
unfolding or_else
interface_in_table dtable name [] iname = none
interface_in_table dtable name (f ∷ fs) iname =
    or_else (interface_in name (dtable f) iname) (interface_in_table dtable name fs iname)

-- Of the default class the source looks at the first dtable only.
unfoldable pub default_named : (ℕ → List ℕ) → Option Dtable → List ℕ → Option ℕ
default_named name none iname = none
default_named name (some d) iname =
    if same_name (name d.interface) iname then some d.interface else none

-- `casycom_interface_by_name`; none is the null pointer.
unfoldable pub interface_by_name : (ℕ → List Dtable) → (ℕ → List ℕ) → Registry → List ℕ → Option ℕ
unfolding interface_in_table default_named or_else
interface_by_name dtable name r iname =
    or_else (interface_in_table dtable name r.object_table iname) (
      if r.default_object == 0
      then none
      else default_named name (first_of (dtable r.default_object)) iname)
