-- ===== src/Protocol/Sockets.antt =====
-- The calls that open Externs and servers, xcom.c and xsrv.c.
use casycom.Base.{ℕ, ◌^◌, ◌<◌, Bool, true, [], ◌∷◌}
use casycom.Iids
use casycom.Msg.{Proxy}
use casycom.Protocol.Fields.{Delivers}
use casycom.Protocol.Extern
use casycom.Protocol.ExternServer

abbrev pub via : ℕ → ℕ → ℕ → Proxy
via interface src dest = record { interface = interface; src = src; dest = dest }

-- Calls of `PExtern_open`, `PExternR_connected` and `PExternServer_open` through proxies of their
-- interfaces, with arguments of their sizes, pass the checks of their signatures and reach the
-- handlers with these arguments.
pub open_calls-Delivers :
    (src dest fd atype imported exported einfo : ℕ) (close_when_empty : Bool)
    → fd < 2 ^ 32
    → atype < 2 ^ 32
    → imported < 2 ^ 64
    → exported < 2 ^ 64
    → einfo < 2 ^ 64
    → Delivers
        (via Iids.extern src dest)
        (b'i' ∷ b'u' ∷ b'x' ∷ b'x' ∷ [])
        (Extern.extern_dispatch Iids.extern)
        (Extern.opened fd atype imported exported)
        (Extern.open_extern (via Iids.extern src dest) fd atype imported exported)
      × Delivers
          (via Iids.extern_r src dest)
          (b'x' ∷ [])
          (Extern.extern_r_dispatch Iids.extern_r true)
          (Extern.was_connected einfo)
          (Extern.connected (via Iids.extern_r src dest) einfo)
      × Delivers
          (via Iids.extern_server src dest)
          (b'x' ∷ b'i' ∷ b'b' ∷ [])
          (ExternServer.server_dispatch Iids.extern_server)
          (ExternServer.opened fd exported close_when_empty)
          (ExternServer.open_server (via Iids.extern_server src dest) fd exported close_when_empty)
open_calls-Delivers src dest fd atype imported exported einfo close_when_empty h k l m n = (
  Extern.open_extern-Delivers src dest fd atype imported exported h k l m,
  Extern.connected-Delivers src dest einfo n,
  ExternServer.open_server-Delivers src dest fd exported close_when_empty h m,
)
