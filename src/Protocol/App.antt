-- ===== src/Protocol/App.antt =====
-- app.h and app.c: the interface through which the framework starts the application's object.
use casycom.Base.{ℕ, ◌^◌, ◌<◌, refl, ap₂, Bool, true, [], ◌∷◌, Option, some, ◌==◌, if◌then◌else◌}
use casycom.Base.Chain.{◌>>=◌, ◌>>◌}
use casycom.Msg.{Interface, Proxy, Msg, begin, stream, written, default_dispatch}
use casycom.Msg.Signature.{validate_signature, validate_sigelement}
use casycom.Stm.{write_pod, read_pod}
use casycom.Protocol.Fields.{Delivers, value4, value8}

abbrev pub method_init : ℕ
method_init = 0

abbrev pub method_signal : ℕ
method_signal = 1

unfoldable pub app_init : Proxy → ℕ → ℕ → Option Msg
unfolding begin stream written
app_init pp argc argv = do
  let msg = begin pp method_init 12
  os1 ← write_pod 8 (stream msg) argv
  os2 ← write_pod 4 os1 argc
  some (written msg os2)

unfoldable pub app_signal : Proxy → ℕ → ℕ → ℕ → Option Msg
unfolding begin stream written
app_signal pp sig child_pid child_status = do
  let msg = begin pp method_signal 12
  os1 ← write_pod 4 (stream msg) sig
  os2 ← write_pod 4 os1 child_pid
  os3 ← write_pod 4 os2 child_status
  some (written msg os3)

-- `DApp`: which handlers the table has.
pub record DApp : Type 0 where
  pub has_init : Bool
  pub has_signal : Bool

-- The handler that is called.
pub data AppCall : Type 0 where
  init : (argc argv : ℕ) → AppCall
  signal : (sig child_pid child_status : ℕ) → AppCall
  nothing : AppCall

dispatch_init : DApp → Msg → Option AppCall
unfolding stream
dispatch_init dtable msg = do
  (argv, is1) ← read_pod 8 (stream msg)
  (argc, is2) ← read_pod 4 is1
  some (if dtable.has_init then init argc argv else nothing)

dispatch_signal : DApp → Msg → Option AppCall
unfolding stream
dispatch_signal dtable msg = do
  (sig, is1) ← read_pod 4 (stream msg)
  (child_pid, is2) ← read_pod 4 is1
  (child_status, is3) ← read_pod 4 is2
  some (if dtable.has_signal then signal sig child_pid child_status else nothing)

unfoldable pub dispatch : DApp → Msg → Option AppCall
unfolding dispatch_init dispatch_signal
dispatch dtable msg =
    if msg.imethod == method_init
    then dispatch_init dtable msg
    else if msg.imethod == method_signal
    then dispatch_signal dtable msg
    else do default_dispatch msg; some nothing

abbrev pub i_app : Interface
i_app = record {
  name = b'A' ∷ b'p' ∷ b'p' ∷ [];
  method =
      (b'i' ∷ b'n' ∷ b'i' ∷ b't' ∷ [], b'x' ∷ b'u' ∷ [])
      ∷ (b's' ∷ b'i' ∷ b'g' ∷ b'n' ∷ b'a' ∷ b'l' ∷ [], b'u' ∷ b'u' ∷ b'i' ∷ [])
      ∷ [];
}

-- A table that has both handlers.
abbrev pub both : DApp
both = record { has_init = true; has_signal = true }

-- A call of `PApp_init` with arguments of their sizes passes the check of its signature and reaches
-- a table with both handlers with these arguments.
pub app_init-Delivers :
    (pp : Proxy) (argc argv : ℕ)
    → argc < 2 ^ 32
    → argv < 2 ^ 64
    → Delivers pp (b'x' ∷ b'u' ∷ []) (dispatch both) (init argc argv) (app_init pp argc argv)
unfolding app_init dispatch validate_signature validate_sigelement write_pod read_pod
app_init-Delivers pp argc argv h k = record {
  message = _;
  sent = refl;
  header = refl;
  plain = refl;
  checked = refl;
  called = ap₂ (λ a b. some (init a b)) (value4 argc h) (value8 argv k);
}

-- A call of `PApp_signal` with arguments of their sizes passes the check of its signature and
-- reaches a table with both handlers with these arguments.
pub app_signal-Delivers :
    (pp : Proxy) (sig child_pid child_status : ℕ)
    → sig < 2 ^ 32
    → child_pid < 2 ^ 32
    → child_status < 2 ^ 32
    → Delivers pp
        (b'u' ∷ b'u' ∷ b'i' ∷ [])
        (dispatch both)
        (signal sig child_pid child_status)
        (app_signal pp sig child_pid child_status)
unfolding app_signal dispatch validate_signature validate_sigelement write_pod read_pod
app_signal-Delivers pp sig child_pid child_status h k l = record {
  message = _;
  sent = refl;
  header = refl;
  plain = refl;
  checked = refl;
  called = λ i. some (signal (value4 sig h i) (value4 child_pid k i) (value4 child_status l i));
}

-- Calls of `PApp_init` and of `PApp_signal` with arguments of their sizes pass the checks of their
-- signatures and reach a table with both handlers with these arguments.
pub app_calls-Delivers :
    (pp : Proxy) (argc argv sig child_pid child_status : ℕ)
    → argc < 2 ^ 32
    → argv < 2 ^ 64
    → sig < 2 ^ 32
    → child_pid < 2 ^ 32
    → child_status < 2 ^ 32
    → Delivers pp (b'x' ∷ b'u' ∷ []) (dispatch both) (init argc argv) (app_init pp argc argv)
      × Delivers pp
          (b'u' ∷ b'u' ∷ b'i' ∷ [])
          (dispatch both)
          (signal sig child_pid child_status)
          (app_signal pp sig child_pid child_status)
app_calls-Delivers pp argc argv sig child_pid child_status h k l m n =
    (app_init-Delivers pp argc argv h k, app_signal-Delivers pp sig child_pid child_status l m n)
