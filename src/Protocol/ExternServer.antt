-- ===== src/Protocol/ExternServer.antt =====
-- The ExternServer interface of xsrv.h and xsrv.c.
use casycom.Base.{
  ℕ, ◌^◌, ◌<◌, refl, Bool, true, false, [], ◌∷◌, Option, some, ◌==◌, if◌then◌else◌, not,
}
use casycom.Base.Chain.{◌>>=◌, ◌>>◌, assert}
use casycom.Iids
use casycom.Msg.{Interface, Proxy, Msg, begin, stream, written, default_dispatch}
use casycom.Msg.Signature.{validate_signature, validate_sigelement}
use casycom.Stm.{write_pod, read_pod}
use casycom.Protocol.Fields.{Delivers, value4, value8}

abbrev pub method_open : ℕ
method_open = 0

abbrev pub method_close : ℕ
method_close = 1

abbrev bit : Bool → ℕ
bit true = 1
bit false = 0

unfoldable pub open_server : Proxy → ℕ → ℕ → Bool → Option Msg
unfolding begin stream written
open_server pp fd exported close_when_empty = do
  assert (pp.interface == Iids.extern_server)
  let msg = begin pp method_open 13
  os1 ← write_pod 8 (stream msg) exported
  os2 ← write_pod 4 os1 fd
  os3 ← write_pod 1 os2 (bit close_when_empty)
  some (written msg os3)

unfoldable pub close_server : Proxy → Option Msg
unfolding begin
close_server pp = do assert (pp.interface == Iids.extern_server); some (begin pp method_close 0)

pub data ServerCall : Type 0 where
  opened : (fd exported : ℕ) (close_when_empty : Bool) → ServerCall
  closed : ServerCall
  nothing : ServerCall

dispatch_open : Msg → Option ServerCall
unfolding stream
dispatch_open msg = do
  (exported, is1) ← read_pod 8 (stream msg)
  (fd, is2) ← read_pod 4 is1
  (close_when_empty, is3) ← read_pod 1 is2
  some (opened fd exported (not (close_when_empty == 0)))

unfoldable pub server_dispatch : ℕ → Msg → Option ServerCall
unfolding dispatch_open
server_dispatch table_iid msg = do
  assert (table_iid == Iids.extern_server)
  if msg.imethod == method_open
      then dispatch_open msg
      else if msg.imethod == method_close
      then some closed
      else do default_dispatch msg; some nothing

abbrev pub i_extern_server : Interface
i_extern_server = record {
  name = b'E' ∷ b'x' ∷ b't' ∷ b'e' ∷ b'r' ∷ b'n' ∷ b'S' ∷ b'e' ∷ b'r' ∷ b'v' ∷ b'e' ∷ b'r' ∷ [];
  method =
      (b'o' ∷ b'p' ∷ b'e' ∷ b'n' ∷ [], b'x' ∷ b'i' ∷ b'b' ∷ [])
      ∷ (b'c' ∷ b'l' ∷ b'o' ∷ b's' ∷ b'e' ∷ [], [])
      ∷ [];
}

-- A call of `PExternServer_open` through an ExternServer proxy, with arguments of their sizes,
-- passes the check of its signature and reaches the handler with these arguments.
pub open_server-Delivers :
    (src dest fd exported : ℕ) (close_when_empty : Bool)
    → fd < 2 ^ 32
    → exported < 2 ^ 64
    → Delivers
        (record { interface = Iids.extern_server; src = src; dest = dest })
        (b'x' ∷ b'i' ∷ b'b' ∷ [])
        (server_dispatch Iids.extern_server)
        (opened fd exported close_when_empty)
        (open_server
          (record { interface = Iids.extern_server; src = src; dest = dest })
          fd
          exported
          close_when_empty)
unfolding open_server server_dispatch validate_signature validate_sigelement write_pod read_pod
open_server-Delivers src dest fd exported true h k = record {
  message = _;
  sent = refl;
  header = refl;
  plain = refl;
  checked = refl;
  called = λ i. some (opened (value4 fd h i) (value8 exported k i) true);
}
open_server-Delivers src dest fd exported false h k = record {
  message = _;
  sent = refl;
  header = refl;
  plain = refl;
  checked = refl;
  called = λ i. some (opened (value4 fd h i) (value8 exported k i) false);
}
