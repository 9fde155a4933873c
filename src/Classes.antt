-- ===== src/Classes.antt =====
-- The library's own classes: the `Factory` constants of io.c, timer.c, xcom.c and xsrv.c with their
-- dtables, `casycom_enable_externs` of xcom.c, which registers some of them, and the check of a class in
-- main.c. The functions that a factory points to are those of its object's module; here it has whether
-- they are there.
pub mod Address
pub mod Lookup
use casycom.Base.{ℕ, Bool, true, false, not, ◌&&◌, List, [], ◌∷◌, ◌==◌, if◌then◌else◌}
use casycom.Iids
use casycom.Classes.Address
use casycom.Registry.{Dtable, Registry, register, register_default}

pub record Factory : Type 0 where
  pub has_create : Bool
  pub has_destroy : Bool
  pub has_object_destroyed : Bool
  pub has_error : Bool
  pub dtable : List Dtable

abbrev pub dtable_at : ℕ → ℕ → Dtable
dtable_at at interface = record { at = at; interface = interface }

-- `d_COMRelay_COM`.
unfoldable pub d_com_relay_com : Dtable
d_com_relay_com = dtable_at 23 Iids.com_iid

unfoldable pub f_fd_io : Factory
f_fd_io = record {
  has_create = true;
  has_destroy = false;
  has_object_destroyed = false;
  has_error = false;
  dtable = dtable_at 11 Iids.fd_io ∷ dtable_at 12 Iids.io ∷ dtable_at 13 Iids.timer_r ∷ [];
}

unfoldable pub f_timer : Factory
f_timer = record {
  has_create = true;
  has_destroy = true;
  has_object_destroyed = false;
  has_error = false;
  dtable = dtable_at 14 Iids.timer ∷ [];
}

unfoldable pub f_extern : Factory
f_extern = record {
  has_create = true;
  has_destroy = true;
  has_object_destroyed = false;
  has_error = false;
  dtable = dtable_at 21 Iids.extern ∷ dtable_at 22 Iids.timer_r ∷ [];
}

unfoldable pub f_com_relay : Factory
unfolding d_com_relay_com
f_com_relay = record {
  has_create = true;
  has_destroy = true;
  has_object_destroyed = true;
  has_error = true;
  dtable = d_com_relay_com ∷ [];
}

unfoldable pub f_extern_server : Factory
f_extern_server = record {
  has_create = true;
  has_destroy = true;
  has_object_destroyed = true;
  has_error = true;
  dtable =
      dtable_at 31 Iids.extern_server ∷ dtable_at 32 Iids.timer_r ∷ dtable_at 33 Iids.extern_r ∷ [];
}

-- The factory at an address, in a program whose own classes are `own`.
unfoldable pub class_at : (ℕ → Factory) → ℕ → Factory
unfolding f_fd_io f_timer f_extern f_com_relay f_extern_server
class_at own o =
    if o == Address.fd_io
    then f_fd_io
    else if o == Address.timer
    then f_timer
    else if o == Address.extern
    then f_extern
    else if o == Address.com_relay
    then f_com_relay
    else if o == Address.extern_server
    then f_extern_server
    else own o

unfoldable pub dtables : (ℕ → Factory) → ℕ → List Dtable
unfolding class_at
dtables own o = (class_at own o).dtable

-- Each dtable points to its interface.
unfoldable pub all_have_interfaces : List Dtable → Bool
all_have_interfaces [] = true
all_have_interfaces (d ∷ ds) = not (d.interface == Iids.null) && all_have_interfaces ds

abbrev is_empty : List Dtable → Bool
is_empty [] = true
is_empty (d ∷ ds) = false

-- `casycom_debug_check_object`, which a build with assertions calls at registration.
unfoldable pub check_object : Factory → Bool
unfolding all_have_interfaces
check_object o = o.has_create && (not (is_empty o.dtable) && all_have_interfaces o.dtable)

-- `casycom_enable_externs`.
unfoldable pub enable_externs : Registry → Registry
unfolding register register_default
enable_externs r =
    register_default (register (register r Address.timer) Address.extern) Address.com_relay
