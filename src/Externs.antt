-- ===== src/Externs.antt =====
-- The Extern object of xcom.c: the state, the sockets' life, the connections' tables and the handshake.
-- Interfaces, objects and interface lists go by address; a list of interfaces is `[]` for null. The system
-- calls answer by parameters.
pub mod Conns
pub mod Exports
pub mod Incoming
pub mod Reading
pub mod Outgoing
pub mod Frames
pub mod Transfer
use casycom.Base.{
  ℕ, zero, suc, ◌+◌, ◌-◌, ◌%◌, ◌^◌, Bool, true, false, not, ◌&&◌, ◌||◌, List, [], ◌∷◌, ◌++◌, Option,
  none, some, ltb, leb, ◌==◌, if◌then◌else◌, length, take, replicate,
}
use casycom.Base.Chain.{◌>>=◌, ◌>>◌, assert}
use casycom.Iids
use casycom.Msg.{Interface, Proxy, Msg}
use casycom.Registry.{Dtable}
use casycom.Loop.{Sys}
use casycom.Framework.{create_proxy, create_reply_proxy, mark_object, raise, send}
use casycom.Protocol.Timer.{no_fd}
use casycom.Protocol.Extern.{connected, extern_client}
use casycom.Wire.{
  header_buf_size, extid_client_base, extid_client_last, extid_server_base, extid_server_last,
}
use casycom.Writer.{Sender}

pub record Conn : Type 0 where
  pub proxy : Proxy
  pub extid : ℕ

pub record Credentials : Type 0 where
  pub pid : ℕ
  pub uid : ℕ
  pub gid : ℕ

pub record Info : Type 0 where
  pub interfaces : List ℕ
  pub creds : Credentials
  pub oid : ℕ
  pub is_client : Bool
  pub is_unix_socket : Bool

-- `at` and `info_at` are the addresses of the object and of its `info`; `out` holds `outgoing`,
-- `outHWritten` and `outBWritten`.
pub record Extern : Type 0 where
  pub at : ℕ
  pub info_at : ℕ
  pub reply : Proxy
  pub fd : ℕ
  pub out : Sender
  pub h_read : ℕ
  pub b_read : ℕ
  pub in_msg : Option Msg
  pub exported : List ℕ
  pub imported : List ℕ
  pub info : Info
  pub conns : List Conn
  pub timer : Proxy
  pub last_fd : ℕ
  pub h_buf : List ℕ

-- The loop's state, the descriptors closed, in their order, and `_Extern_externs`.
pub record Net (U : Type 0) : Type 0 where
  pub sys : Sys U
  pub closed : List ℕ
  pub externs : List Extern

-- `fd >= 0`.
unfoldable pub is_open : ℕ → Bool
is_open fd = ltb fd (2 ^ 31)

-- What the system says of a socket: its type, its family, and whether its flags were read and set.
pub record SocketAnswers : Type 0 where
  pub so_type : Option ℕ
  pub family : Option ℕ
  pub got_flags : Bool
  pub set_flags : Bool

abbrev pub sock_stream : ℕ
sock_stream = 1

abbrev pub pf_local : ℕ
pf_local = 1

abbrev pub pf_inet : ℕ
pf_inet = 2

abbrev is_value : Option ℕ → ℕ → Bool
is_value none v = false
is_value (some w) v = w == v

abbrev is_answer : Option ℕ → Bool
is_answer none = false
is_answer (some v) = true

-- `Extern_is_valid_socket`.
unfoldable pub is_valid_socket : SocketAnswers → Extern → Bool × Extern
is_valid_socket a o =
    if not (is_value a.so_type sock_stream)
    then (false, o)
    else if not (is_answer a.family)
    then (false, o)
    else (let local = is_value a.family pf_local in
        let o' = record o { info = record o.info { is_unix_socket = local } } in
        ((local || is_value a.family pf_inet) && (a.got_flags && a.set_flags), o'))

-- The text of `exlist`. Without a name, the last comma is looked for before the array.
unfoldable pub comma_names : (ℕ → Interface) → List ℕ → List ℕ
comma_names interfaces [] = []
comma_names interfaces (ei ∷ eis) = (interfaces ei).name ++ (b',' ∷ comma_names interfaces eis)

unfoldable pub export_text : (ℕ → Interface) → List ℕ → Option (List ℕ)
unfolding comma_names
export_text interfaces exported = do
  let list = comma_names interfaces exported
  assert (ltb (length list) 256)
  assert (ltb 0 (length list))
  some (take (length list - 1) list)

-- `0 == strncmp (name, iname, n)` for the `n` characters at `iname`.
unfoldable pub starts_with : List ℕ → List ℕ → Bool
starts_with name [] = true
starts_with [] (c ∷ cs) = false
starts_with (b ∷ name) (c ∷ cs) = (b == c) && starts_with name cs

unfoldable pub matching : (ℕ → Interface) → List ℕ → List ℕ → List ℕ
unfolding starts_with
matching interfaces [] text = []
matching interfaces (i ∷ is) text =
    if starts_with (interfaces i).name text
    then i ∷ matching interfaces is text
    else matching interfaces is text

-- The loop of `Extern_COM_export`: the characters from `iname` up to `ilist`, and those from there on.
unfoldable pub import_from : (ℕ → Interface) → List ℕ → List ℕ → List ℕ → List ℕ
unfolding matching
import_from interfaces imported [] [] = []
import_from interfaces imported (c ∷ text) [] = matching interfaces imported (c ∷ text)
import_from interfaces imported text (c ∷ ilist) =
    if c == b','
    then matching interfaces imported text ++ import_from interfaces imported (c ∷ []) ilist
    else import_from interfaces imported (text ++ (c ∷ [])) ilist

-- The extid of a new connection to `oid`, of sixteen bits.
unfoldable pub own_extid : Bool → ℕ → ℕ
own_extid is_client oid =
    (oid + (if is_client then extid_client_base else extid_server_base)) % 2 ^ 16

-- The range of the extids that the other side may give.
unfoldable pub is_extid_refused : Bool → ℕ → Bool
is_extid_refused is_client extid =
    leb extid_client_last extid
    || (is_client && (ltb extid extid_server_base || leb extid_server_last extid))

-- The lookups, from the first element on.
unfoldable pub conn_by_extid : List Conn → ℕ → Option Conn
conn_by_extid [] extid = none
conn_by_extid (c ∷ cs) extid = if c.extid == extid then some c else conn_by_extid cs extid

unfoldable pub conn_by_oid : List Conn → ℕ → Option Conn
conn_by_oid [] oid = none
conn_by_oid (c ∷ cs) oid = if c.proxy.dest == oid then some c else conn_by_oid cs oid

-- `vector_erase (&o->conns, conn - o->conns.d)`, for the connection that was found for the oid.
unfoldable pub erase_conn : List Conn → ℕ → List Conn
erase_conn [] oid = []
erase_conn (c ∷ cs) oid = if c.proxy.dest == oid then cs else c ∷ erase_conn cs oid

unfoldable pub is_in : List ℕ → ℕ → Bool
is_in [] i = false
is_in (x ∷ xs) i = if x == i then true else is_in xs i

abbrev has_conn : Option Conn → Bool
has_conn none = false
has_conn (some c) = true

unfoldable pub find_by_interface : List Extern → ℕ → Option Extern
unfolding is_in
find_by_interface [] iid = none
find_by_interface (e ∷ es) iid =
    if is_in e.info.interfaces iid then some e else find_by_interface es iid

unfoldable pub find_by_id : List Extern → ℕ → Option Extern
unfolding conn_by_oid
find_by_id [] oid = none
find_by_id (e ∷ es) oid = if has_conn (conn_by_oid e.conns oid) then some e else find_by_id es oid

-- `casycom_extern_info` and `casycom_extern_object_info`.
unfoldable pub extern_info : List Extern → ℕ → Option Info
extern_info [] eid = none
extern_info (e ∷ es) eid = if e.info.oid == eid then some e.info else extern_info es eid

unfoldable pub extern_object_info : List Extern → ℕ → Option Info
unfolding find_by_id
extern_object_info es oid = elim (find_by_id es oid) [ none ↦ none | some e ↦ some e.info ]

unfoldable pub without : List Extern → ℕ → List Extern
without [] at = []
without (e ∷ es) at = if e.at == at then without es at else e ∷ without es at

-- An object that an operation has changed, in the place of its former state.
unfoldable pub put_back : Extern → List Extern → List Extern
put_back o [] = []
put_back o (e ∷ es) = if e.at == o.at then o ∷ put_back o es else e ∷ put_back o es

module _ {U : Type 0} where
  unfoldable pub close_fd : ℕ → Net U → Net U
  unfolding is_open
  close_fd fd n = if is_open fd then record n { closed = n.closed ++ (fd ∷ []) } else n

  unfoldable pub close_fds : List ℕ → Net U → Net U
  unfolding close_fd
  close_fds [] n = n
  close_fds (fd ∷ fds) n = close_fds fds (close_fd fd n)

  -- `xalloc` clears the object.
  unfoldable pub extern_create : (ℕ → List Dtable) → ℕ → ℕ → Msg → Net U → Extern × Net U
  unfolding create_reply_proxy create_proxy
  extern_create dtable at info_at msg n =
      let r = create_reply_proxy dtable Iids.extern_r msg n.sys in
      let t = create_proxy dtable Iids.timer msg.h.dest r.1 in
      let o : Extern = record {
        at = at;
        info_at = info_at;
        reply = r.0;
        fd = no_fd;
        out = record { outgoing = []; h_written = 0; b_written = 0 };
        h_read = 0;
        b_read = 0;
        in_msg = none;
        exported = [];
        imported = [];
        info = record {
          interfaces = [];
          creds = record { pid = 0; uid = 0; gid = 0 };
          oid = r.0.src;
          is_client = false;
          is_unix_socket = false;
        };
        conns = [];
        timer = t.0;
        last_fd = no_fd;
        h_buf = replicate header_buf_size 0;
      } in
      (o, record n { sys = t.1; externs = n.externs ++ (o ∷ []) })

  -- The messages and the object are freed.
  unfoldable pub extern_destroy : Extern → Net U → Net U
  unfolding close_fd without
  extern_destroy o n =
      let m = close_fd o.last_fd (close_fd o.fd n) in record m { externs = without m.externs o.at }

  unfoldable pub extern_close : Extern → Net U → Extern × Net U
  unfolding close_fd is_open mark_object
  extern_close o n =
      let m = close_fd o.fd n in
      (
        if is_open o.fd then record o { fd = no_fd } else o,
        record m { sys = mark_object o.at m.sys },
      )

  unfoldable pub fail : List ℕ → Extern → Net U → Extern × Net U
  unfolding raise extern_close
  fail e o n = extern_close o (record n { sys = raise e n.sys })

  -- `Extern_set_credentials_passing`, for what `setsockopt` answers: the text of its error, if any.
  unfoldable pub set_credentials_passing : Option (List ℕ) → Extern → Net U → Extern × Net U
  unfolding is_open fail
  set_credentials_passing answer o n =
      if not (is_open o.fd) || not o.info.is_unix_socket
      then (o, n)
      else elim answer [ none ↦ (o, n) | some e ↦ fail e o n ]

  -- `Extern_COM_error`, `Extern_COM_delete` and `Extern_COM_export`.
  unfoldable pub com_error : List ℕ → Extern → Net U → Extern × Net U
  unfolding fail
  com_error e o n = fail e o n

  unfoldable pub com_delete : Extern → Net U → Extern × Net U
  unfolding extern_close
  com_delete o n = extern_close o n

  unfoldable pub com_export : (ℕ → Interface) → List ℕ → Extern → Net U → Option (Extern × Net U)
  unfolding import_from send connected
  com_export interfaces ilist o n = do
    let o' = record o {
      info = record o.info { interfaces = import_from interfaces o.imported [] ilist };
    }
    sys ← send (connected o'.reply o'.info_at) n.sys
    some (o', record n { sys = sys })
