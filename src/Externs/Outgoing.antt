-- ===== src/Externs/Outgoing.antt =====
-- What an Extern does with a message for the other side, its timer's handler, and its opening. The answers
-- of the system calls are parameters.
pub mod Connections
use casycom.Base.{
  ℕ, ◌+◌, ◌%◌, ◌^◌, Bool, true, false, not, ◌&&◌, List, [], ◌∷◌, ◌++◌, Option, none, some, ◌==◌,
  if◌then◌else◌,
}
use casycom.Base.Chain.{◌>>=◌, ◌>>◌}
use casycom.Iids
use casycom.Msg.{Proxy, Msg}
use casycom.FdIo.{Answer, Ending, complete, at_eof, must_wait, with_error}
use casycom.Loop.{Sys}
use casycom.Framework.{create_proxy_to, send}
use casycom.Protocol.Com.{export_message, method_delete}
use casycom.Protocol.Extern.{extern_client}
use casycom.Protocol.Timer.{watch, watch_read, watch_rdwr, timer_none}
use casycom.Wire.{extid_com}
use casycom.Writer.{Sender, Sent, writing}
use casycom.Externs.{
  Conn, Extern, Net, SocketAnswers, own_extid, close_fds, conn_by_oid, erase_conn, is_open,
  is_valid_socket, extern_close, fail, set_credentials_passing, export_text,
}
use casycom.Externs.Incoming.{Program}
use casycom.Externs.Reading.{Chunk, reading}

-- The texts of the errors.
pub record Texts : Type 0 where
  pub multiple : List ℕ
  pub recvmsg : List ℕ
  pub sendmsg : List ℕ
  pub incompatible : List ℕ

-- What the system answers to one run of the timer's handler.
pub record Calls : Type 0 where
  pub reads : List (Answer Chunk)
  pub writes : List (Answer ℕ)

unfoldable pub is_com_delete : Msg → Bool
is_com_delete msg = (msg.h.interface == Iids.com_iid) && (msg.imethod == method_delete)

module _ {U : Type 0} where
  -- How `Extern_writing` leaves the object and the net, and what it returns.
  unfoldable pub after_writing : Texts → Sent → Extern → Net U → Bool × Extern × Net U
  unfolding extern_close fail close_fds
  after_writing texts w o n =
      let o' = record o { out = w.sender } in
      let m = close_fds w.fds n in
      elim w.ending [
        | complete ↦ (false, o', m)
        | at_eof ↦ let r = extern_close o' m in (false, r.0, r.1)
        | must_wait ↦ (true, o', m)
        | with_error e ↦ let r = fail (texts.sendmsg ++ e) o' m in (false, r.0, r.1)
      ]

  unfoldable pub read_part : Program → Texts → Calls → Extern → Net U → Option (Extern × Net U)
  unfolding reading is_open
  read_part p texts calls o n =
      if is_open o.fd then reading p texts.multiple texts.recvmsg calls.reads o n else some (o, n)

  unfoldable pub write_part :
      Program → Texts → Calls → Extern → Net U → Option (Bool × Extern × Net U)
  unfolding writing after_writing is_open
  write_part p texts calls o n =
      if is_open o.fd
      then (writing p.interfaces calls.writes o.out >>= λ w. some (after_writing texts w o n))
      else some (false, o, n)

  unfoldable pub watch_part : Bool → Extern → Net U → Option (Extern × Net U)
  unfolding watch send is_open
  watch_part waits o n =
      if is_open o.fd
      then (send (watch o.timer (if waits then watch_rdwr else watch_read) o.fd timer_none) n.sys
          >>= λ sys. some (o, record n { sys = sys }))
      else some (o, n)

  -- `Extern_TimerR_timer`.
  unfoldable pub extern_timer : Program → Texts → Calls → Extern → Net U → Option (Extern × Net U)
  unfolding read_part write_part watch_part
  extern_timer p texts calls o n = do
    r ← read_part p texts calls o n
    w ← write_part p texts calls r.0 r.1
    watch_part w.0 w.1 w.2

  -- The connection of a message, made if there is none.
  unfoldable pub new_outgoing : Program → Extern → Msg → Net U → Conn × Extern × Net U
  unfolding create_proxy_to own_extid
  new_outgoing p o msg n =
      let r = create_proxy_to p.dtable Iids.com_iid o.info.oid msg.h.dest n.sys in
      let conn : Conn = record { proxy = r.0; extid = own_extid o.info.is_client msg.h.dest } in
      (conn, record o { conns = o.conns ++ (conn ∷ []) }, record n { sys = r.1 })

  unfoldable pub outgoing_conn : Program → Extern → Msg → Net U → Conn × Extern × Net U
  unfolding conn_by_oid new_outgoing
  outgoing_conn p o msg n = elim (conn_by_oid o.conns msg.h.dest) [
    | some conn ↦ (conn, o, n)
    | none ↦ new_outgoing p o msg n
  ]

  -- The message with its extid; a deleted object's connection is dropped.
  unfoldable pub connect_out : Program → Extern → Msg → Net U → Msg × Extern × Net U
  unfolding outgoing_conn is_com_delete erase_conn
  connect_out p o msg n =
      if msg.h.dest == o.info.oid
      then (record msg { extid = extid_com }, o, n)
      else (let r = outgoing_conn p o msg n in
          (
            record msg { extid = r.0.extid },
            if is_com_delete msg
                then record r.1 { conns = erase_conn r.1.conns msg.h.dest }
                else r.1,
            r.2,
          ))

  -- `Extern_queue_outgoing_message`.
  unfoldable pub queue_outgoing_message :
      Program → Texts → Calls → Extern → Msg → Net U → Option (Extern × Net U)
  unfolding connect_out extern_timer
  queue_outgoing_message p texts calls o msg n =
      let r = connect_out p o msg n in
      extern_timer p texts calls
        (record r.1 { out = record r.1.out { outgoing = r.1.out.outgoing ++ (r.0 ∷ []) } }) r.2

  -- `Extern_Extern_open`, for what the system says of the socket and of its credentials.
  unfoldable pub export_interfaces :
      Program → Texts → Calls → Extern → Net U → Option (Extern × Net U)
  unfolding export_text export_message queue_outgoing_message
  export_interfaces p texts calls o n = do
    exlist ← export_text p.interfaces o.exported
    let comp : Proxy = record { interface = Iids.com_iid; src = o.info.oid; dest = o.info.oid }
    msg ← export_message comp exlist
    queue_outgoing_message p texts calls o msg n

  unfoldable pub extern_open :
      Program
      → Texts
      → SocketAnswers
      → Option (List ℕ)
      → Calls
      → (fd atype : ℕ) (imported exported : List ℕ) → Extern
      → Net U
      → Option (Extern × Net U)
  unfolding is_valid_socket fail set_credentials_passing export_interfaces
  extern_open p texts socket creds calls fd atype imported exported o n =
      let o1 = record o {
        fd = fd;
        info = record o.info { is_client = atype == extern_client };
        imported = imported;
        exported = exported;
      } in
      let v = is_valid_socket socket o1 in
      if not v.0
      then some (fail texts.incompatible v.1 n)
      else (let r =
            if v.1.info.is_unix_socket then set_credentials_passing creds v.1 n else (v.1, n) in
          export_interfaces p texts calls r.0 r.1)
