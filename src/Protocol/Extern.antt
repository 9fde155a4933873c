-- ===== src/Protocol/Extern.antt =====
-- The Extern and ExternR interfaces of xcom.h and xcom.c. Interface lists and `ExternInfo` go by
-- address, within the process.
use casycom.Base.{ℕ, ◌^◌, ◌<◌, refl, ap, Bool, true, [], ◌∷◌, Option, some, ◌==◌, if◌then◌else◌}
use casycom.Base.Chain.{◌>>=◌, ◌>>◌, assert}
use casycom.Iids
use casycom.Msg.{Interface, Proxy, Msg, begin, stream, written, default_dispatch}
use casycom.Msg.Signature.{validate_signature, validate_sigelement}
use casycom.Stm.{write_pod, read_pod}
use casycom.Protocol.Fields.{Delivers, value4, value8}

abbrev pub method_open : ℕ
method_open = 0

abbrev pub method_close : ℕ
method_close = 1

abbrev pub method_connected : ℕ
method_connected = 0

-- `enum EExternType`.
abbrev pub extern_client : ℕ
extern_client = 0

abbrev pub extern_server : ℕ
extern_server = 1

unfoldable pub open_extern : Proxy → ℕ → ℕ → ℕ → ℕ → Option Msg
unfolding begin stream written
open_extern pp fd atype imported exported = do
  assert (pp.interface == Iids.extern)
  let msg = begin pp method_open 24
  os1 ← write_pod 4 (stream msg) fd
  os2 ← write_pod 4 os1 atype
  os3 ← write_pod 8 os2 imported
  os4 ← write_pod 8 os3 exported
  some (written msg os4)

unfoldable pub close_extern : Proxy → Option Msg
unfolding begin
close_extern pp = some (begin pp method_close 0)

pub data ExternCall : Type 0 where
  opened : (fd atype imported exported : ℕ) → ExternCall
  closed : ExternCall
  nothing : ExternCall

dispatch_open : Msg → Option ExternCall
unfolding stream
dispatch_open msg = do
  (fd, is1) ← read_pod 4 (stream msg)
  (atype, is2) ← read_pod 4 is1
  (imported, is3) ← read_pod 8 is2
  (exported, is4) ← read_pod 8 is3
  some (opened fd atype imported exported)

-- The dispatcher asserts that its table is of this interface; the table's interface is an argument.
unfoldable pub extern_dispatch : ℕ → Msg → Option ExternCall
unfolding dispatch_open
extern_dispatch table_iid msg = do
  assert (table_iid == Iids.extern)
  if msg.imethod == method_open
      then dispatch_open msg
      else if msg.imethod == method_close
      then some closed
      else do default_dispatch msg; some nothing

abbrev pub i_extern : Interface
i_extern = record {
  name = b'E' ∷ b'x' ∷ b't' ∷ b'e' ∷ b'r' ∷ b'n' ∷ [];
  method =
      (b'o' ∷ b'p' ∷ b'e' ∷ b'n' ∷ [], b'i' ∷ b'u' ∷ b'x' ∷ b'x' ∷ [])
      ∷ (b'c' ∷ b'l' ∷ b'o' ∷ b's' ∷ b'e' ∷ [], [])
      ∷ [];
}

unfoldable pub connected : Proxy → ℕ → Option Msg
unfolding begin stream written
connected pp einfo = do
  assert (pp.interface == Iids.extern_r)
  let msg = begin pp method_connected 8
  os1 ← write_pod 8 (stream msg) einfo
  some (written msg os1)

pub data ExternRCall : Type 0 where
  was_connected : (einfo : ℕ) → ExternRCall
  unheard : ExternRCall

dispatch_connected : Bool → Msg → Option ExternRCall
unfolding stream
dispatch_connected has_connected msg = do
  (einfo, is1) ← read_pod 8 (stream msg)
  some (if has_connected then was_connected einfo else unheard)

unfoldable pub extern_r_dispatch : ℕ → Bool → Msg → Option ExternRCall
unfolding dispatch_connected
extern_r_dispatch table_iid has_connected msg = do
  assert (table_iid == Iids.extern_r)
  if msg.imethod == method_connected
      then dispatch_connected has_connected msg
      else do default_dispatch msg; some unheard

abbrev pub i_extern_r : Interface
i_extern_r = record {
  name = b'E' ∷ b'x' ∷ b't' ∷ b'e' ∷ b'r' ∷ b'n' ∷ b'R' ∷ [];
  method = (b'c' ∷ b'o' ∷ b'n' ∷ b'n' ∷ b'e' ∷ b'c' ∷ b't' ∷ b'e' ∷ b'd' ∷ [], b'x' ∷ []) ∷ [];
}

-- A call of `PExtern_open` through an Extern proxy, with arguments of their sizes, passes the check
-- of its signature and reaches the handler with these arguments.
pub open_extern-Delivers :
    (src dest fd atype imported exported : ℕ)
    → fd < 2 ^ 32
    → atype < 2 ^ 32
    → imported < 2 ^ 64
    → exported < 2 ^ 64
    → Delivers
        (record { interface = Iids.extern; src = src; dest = dest })
        (b'i' ∷ b'u' ∷ b'x' ∷ b'x' ∷ [])
        (extern_dispatch Iids.extern)
        (opened fd atype imported exported)
        (open_extern
          (record { interface = Iids.extern; src = src; dest = dest })
          fd
          atype
          imported
          exported)
unfolding open_extern extern_dispatch validate_signature validate_sigelement write_pod read_pod
open_extern-Delivers src dest fd atype imported exported h k l n = record {
  message = _;
  sent = refl;
  header = refl;
  plain = refl;
  checked = refl;
  called = λ i.
      some (opened (value4 fd h i) (value4 atype k i) (value8 imported l i) (value8 exported n i));
}

-- A call of `PExternR_connected` through an ExternR proxy, with a 64-bit pointer, passes the check
-- of its signature and reaches a table's handler with it.
pub connected-Delivers :
    (src dest einfo : ℕ)
    → einfo < 2 ^ 64
    → Delivers
        (record { interface = Iids.extern_r; src = src; dest = dest })
        (b'x' ∷ [])
        (extern_r_dispatch Iids.extern_r true)
        (was_connected einfo)
        (connected (record { interface = Iids.extern_r; src = src; dest = dest }) einfo)
unfolding connected extern_r_dispatch validate_signature validate_sigelement write_pod read_pod
connected-Delivers src dest einfo h = record {
  message = _;
  sent = refl;
  header = refl;
  plain = refl;
  checked = refl;
  called = ap (λ a. some (was_connected a)) (value8 einfo h);
}
