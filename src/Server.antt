-- ===== src/Server.antt =====
-- The ExternServer object of xsrv.c, which accepts connections and makes an Extern for each, and the names
-- of local sockets. The system calls answer by parameters; `none` is a failed assertion.
pub mod Accepts
use casycom.Base.{
  ℕ, ◌+◌, ◌^◌, Bool, true, false, not, ◌&&◌, ◌||◌, List, [], ◌∷◌, ◌++◌, Option, none, some, ◌==◌,
  if◌then◌else◌,
}
use casycom.Base.Chain.{◌>>=◌, ◌>>◌, assert}
use casycom.Iids
use casycom.Msg.{Proxy, Msg}
use casycom.Registry.{Dtable}
use casycom.Loop.{Sys}
use casycom.Destruction.{Destructors, destroy_proxy}
use casycom.Framework.{create_proxy, create_reply_proxy, mark_object, raise, send}
use casycom.Protocol.Timer.{wait_read, no_fd}
use casycom.Protocol.Extern.{open_extern, connected, extern_server}
use casycom.Protocol.ExternServer.{open_server}

-- `exported` is the address of the list.
pub record ExternServer : Type 0 where
  pub at : ℕ
  pub reply : Proxy
  pub fd : ℕ
  pub timer : Proxy
  pub close_when_empty : Bool
  pub exported : ℕ
  pub pconn : List Proxy

-- `pathvec`, a file's name with the descriptor of its socket.
unfoldable pub register_local_name : List (ℕ × List ℕ) → ℕ → List ℕ → List (ℕ × List ℕ)
register_local_name paths fd path = paths ++ ((fd, path) ∷ [])

-- Without a name: the names left, and those of the files unlinked.
unfoldable pub unregister_local_name : List (ℕ × List ℕ) → ℕ → List (ℕ × List ℕ) × List (List ℕ)
unregister_local_name [] fd = ([], [])
unregister_local_name (x ∷ paths) fd =
    let rest = unregister_local_name paths fd in
    if x.0 == fd then (rest.0, x.1 ∷ rest.1) else (x ∷ rest.0, rest.1)

-- `ExternServer_destroy`; the object is freed, and its socket is left open.
unfoldable server_destroy : ExternServer → List (ℕ × List ℕ) → List (ℕ × List ℕ) × List (List ℕ)
unfolding unregister_local_name
server_destroy o paths = unregister_local_name paths o.fd

-- What `accept` answers.
pub data Accepted : Type 0 where
  connection : ℕ → Accepted
  no_more : Accepted
  refused : List ℕ → Accepted

unfoldable pub is_connection : List Proxy → ℕ → Bool
is_connection [] oid = false
is_connection (c ∷ cs) oid = if c.dest == oid then true else is_connection cs oid

-- The error of an accepted connection is logged: the texts for the log, and whether it is handled.
unfoldable server_error : ExternServer → ℕ → List ℕ → List (List ℕ) × Bool
unfolding is_connection
server_error o eoid e = if is_connection o.pconn eoid then (e ∷ [], true) else ([], false)

abbrev pub is_empty : List Proxy → Bool
is_empty [] = true
is_empty (c ∷ cs) = false

module _ {U : Type 0} where
  unfoldable pub server_create : (ℕ → List Dtable) → ℕ → Msg → Sys U → ExternServer × Sys U
  unfolding create_reply_proxy create_proxy
  server_create dtable at msg s =
      let r = create_reply_proxy dtable Iids.extern_r msg s in
      let t = create_proxy dtable Iids.timer r.0.src r.1 in
      (
        record {
          at = at;
          reply = r.0;
          fd = no_fd;
          timer = t.0;
          close_when_empty = false;
          exported = Iids.null;
          pconn = [];
        },
        t.1,
      )

  -- The loop of `ExternServer_TimerR_timer` up to the end of its calls of `accept`.
  unfoldable pub accept_one :
      (ℕ → List Dtable) → ℕ → ExternServer → Sys U → Option (ExternServer × Sys U)
  unfolding create_proxy open_extern send
  accept_one dtable cfd o s = do
    let r = create_proxy dtable Iids.extern o.reply.src s
    t ← send (open_extern r.0 cfd extern_server Iids.null o.exported) r.1
    some (record o { pconn = o.pconn ++ (r.0 ∷ []) }, t)

  unfoldable pub accept_all :
      (ℕ → List Dtable)
      → List ℕ
      → List Accepted
      → ExternServer
      → Sys U
      → Option (ExternServer × Sys U)
  unfolding accept_one wait_read send raise mark_object
  accept_all dtable accept_text [] o s = none
  accept_all dtable accept_text (connection cfd ∷ calls) o s =
      accept_one dtable cfd o s >>= λ r. accept_all dtable accept_text calls r.0 r.1
  accept_all dtable accept_text (no_more ∷ calls) o s =
      send (wait_read o.timer o.fd) s >>= λ t. some (o, t)
  accept_all dtable accept_text (refused e ∷ calls) o s =
      some (o, mark_object o.at (raise (accept_text ++ e) s))

  unfoldable pub server_timer :
      (ℕ → List Dtable)
      → List ℕ
      → List Accepted
      → ℕ
      → ExternServer
      → Sys U
      → Option (ExternServer × Sys U)
  unfolding accept_all
  server_timer dtable accept_text calls fd o s = do
    assert (fd == o.fd)
    accept_all dtable accept_text calls o s

  unfoldable pub server_open :
      (ℕ → List Dtable)
      → List ℕ
      → List Accepted
      → (fd exported : ℕ) → Bool
      → ExternServer
      → Sys U
      → Option (ExternServer × Sys U)
  unfolding server_timer
  server_open dtable accept_text calls fd exported close_when_empty o s = do
    assert (o.fd == no_fd)
    server_timer dtable accept_text calls fd
        (record o { fd = fd; exported = exported; close_when_empty = close_when_empty }) s

  unfoldable server_close : ExternServer → Sys U → Sys U
  unfolding mark_object
  server_close o s = mark_object o.at s

  unfoldable server_connected : ExternServer → ℕ → Sys U → Option (Sys U)
  unfolding connected send
  server_connected o einfo s = send (connected o.reply einfo) s

  -- The loop of `ExternServer_object_destroyed`: the connections left. An element erased is cleared first.
  unfoldable pub drop_connections :
      Destructors U → ℕ → List Proxy → ℕ → Sys U → Option (List Proxy × Sys U)
  unfolding destroy_proxy
  drop_connections d fuel [] oid s = some ([], s)
  drop_connections d fuel (c ∷ cs) oid s =
      if c.dest == oid
      then (destroy_proxy d fuel c s >>= λ r. drop_connections d fuel cs oid r.1)
      else (drop_connections d fuel cs oid s >>= λ r. some (c ∷ r.0, r.1))

  unfoldable pub server_object_destroyed :
      Destructors U → ℕ → ExternServer → ℕ → Sys U → Option (ExternServer × Sys U)
  unfolding drop_connections mark_object
  server_object_destroyed d fuel o oid s = do
    r ← drop_connections d fuel o.pconn oid s
    some (
      record o { pconn = r.0 },
      if is_empty r.0 && o.close_when_empty then mark_object o.at r.1 else r.1,
    )
