-- ===== src/Tests/Classes.antt =====
-- The library's classes beside one class of the program.
use casycom.Base.{ℕ, ◌≡◌, refl, true, false, [], ◌∷◌, none, some}
use casycom.Registry.{Registry, find_dtable, find_factory, or_default, dtable_for}
use casycom.Classes.{
  Factory, dtable_at, f_fd_io, f_timer, f_extern, f_com_relay, f_extern_server, class_at, dtables,
  check_object, all_have_interfaces, enable_externs,
}
use casycom.Classes.Lookup.{class_for, enable_externs-class_for}

-- A class for the interface 20.
abbrev own : ℕ → Factory
own o = record {
  has_create = true;
  has_destroy = false;
  has_object_destroyed = false;
  has_error = false;
  dtable = dtable_at 90 20 ∷ [];
}

abbrev registry : Registry
registry = record { object_table = 50 ∷ []; default_object = 0 }

checks :
    (check_object f_fd_io ≡ true)
    × (check_object f_timer ≡ true)
    × (check_object f_extern ≡ true)
    × (check_object f_com_relay ≡ true)
    × (check_object f_extern_server ≡ true)
unfolding check_object all_have_interfaces f_fd_io f_timer f_extern f_com_relay f_extern_server
checks = (refl, refl, refl, refl, refl)

unsupported : find_dtable (dtables own) (enable_externs registry) 50 21 ≡ none
unfolding find_dtable or_default dtable_for dtables class_at enable_externs
unsupported = refl

enable_externs-class_for_example :
    (find_factory (dtables own) (enable_externs registry) 21 ≡ (class_for 21).0)
    × (find_dtable (dtables own) (enable_externs registry) (class_for 21).0 21
        ≡ some (class_for 21).1)
enable_externs-class_for_example = enable_externs-class_for own registry 21 (unsupported, tt)
