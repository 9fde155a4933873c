-- ===== src/Externs/Incoming.antt =====
-- A message that has arrived: `Extern_validate_message` and `Extern_queue_incoming_message`. The reading
-- side's buffer is in the object. `none` is a failed assertion.
pub mod Recognised
pub mod Connections
use casycom.Base.{
  ℕ, ◌+◌, ◌-◌, Bool, true, false, not, ◌&&◌, ◌||◌, List, [], ◌∷◌, ◌++◌, Option, none, some, ltb,
  leb, ◌==◌, if◌then◌else◌, ceilg,
}
use casycom.Base.Bytes.{memcpy}
use casycom.Base.Chain.{◌>>=◌}
use casycom.Iids
use casycom.Stm.{le_bytes}
use casycom.Msg.{
  Interface, Msg, signature_of, no_fd_in_message, message_body_alignment, method_invalid,
}
use casycom.Msg.Signature.{validate_signature}
use casycom.Registry.{Dtable, interface_by_name}
use casycom.Loop.{queue_message}
use casycom.Framework.{create_proxy}
use casycom.Protocol.Timer.{no_fd}
use casycom.Protocol.Com.{ComCall, com_dispatch, create_object_message}
use casycom.Wire.{extid_com, name_in_header, lookup_in_msg_method}
use casycom.Externs.{
  Conn, Extern, Net, conn_by_extid, is_extid_refused, is_in, com_error, com_delete, com_export,
}

-- The interfaces at their addresses, and the dtables of the factories.
pub record Program : Type 0 where
  pub interfaces : ℕ → Interface
  pub dtable : ℕ → List Dtable

-- A message refused, one that is freed without more, or one to queue.
pub data Verdict : Type 0 where
  refused : Verdict
  ignored : Verdict
  accepted : Msg → Verdict

-- The descriptor that came with the message, if it has one, is put in its body.
unfoldable pub take_fd : Extern → Msg → Msg × Extern
unfolding memcpy le_bytes
take_fd o msg = if msg.fdoffset == no_fd_in_message then (msg, o) else (
  record msg { body = memcpy msg.body msg.fdoffset (le_bytes 4 o.last_fd) },
  record o { last_fd = no_fd },
)

unfoldable pub address : Msg → Conn → Msg
address msg conn = record msg { h = record msg.h { src = conn.proxy.src; dest = conn.proxy.dest } }

-- The body is checked by its signature; `some none` refuses it.
unfoldable pub check_body : Program → Msg → Option (Option Msg)
unfolding validate_signature ceilg signature_of
check_body p msg = do
  sig ← signature_of (p.interfaces msg.h.interface) msg.imethod
  vmsize ← validate_signature sig msg
  some (
      if ceilg vmsize message_body_alignment == msg.size
      then some (record msg { size = vmsize })
      else none)

module _ {U : Type 0} where
  unfoldable pub lookup_in_msg_interface : Program → Extern → Net U → Option (Option ℕ)
  unfolding name_in_header interface_by_name
  lookup_in_msg_interface p o n = do
    found ← name_in_header o.h_buf o.h_read
    some (found >>= interface_by_name p.dtable (λ i. (p.interfaces i).name) n.sys.registry)

  -- The first part of `Extern_validate_message`: the message with its interface, method and real size,
  -- and `some none` where it is refused.
  unfoldable pub recognise : Program → Extern → Msg → Net U → Option (Option Msg)
  unfolding lookup_in_msg_interface lookup_in_msg_method check_body
  recognise p o msg n = lookup_in_msg_interface p o n >>= λ found. elim found [
    | none ↦ some none
    | some iid ↦
        let imethod = lookup_in_msg_method o.h_buf (p.interfaces iid) in
        if imethod == method_invalid
        then some none
        else check_body p (record msg { h = record msg.h { interface = iid }; imethod = imethod })
  ]

  -- A request to create an object.
  unfoldable pub new_incoming : Program → Extern → Msg → Net U → Conn × Extern × Net U
  unfolding create_proxy create_object_message queue_message
  new_incoming p o msg n =
      let r = create_proxy p.dtable Iids.com_iid o.info.oid n.sys in
      let conn : Conn = record { proxy = r.0; extid = msg.extid } in
      (
        conn,
        record o { conns = o.conns ++ (conn ∷ []) },
        record n { sys = queue_message (create_object_message r.0) r.1 },
      )

  unfoldable pub connect_in : Program → Extern → Msg → Net U → Verdict × Extern × Net U
  unfolding conn_by_extid is_in is_extid_refused new_incoming address
  connect_in p o msg n = elim (conn_by_extid o.conns msg.extid) [
    | some conn ↦ (accepted (address msg conn), o, n)
    | none ↦
        if msg.h.interface == Iids.com_iid
        then (ignored, o, n)
        else if not (is_in o.exported msg.h.interface)
        then (refused, o, n)
        else if is_extid_refused o.info.is_client msg.extid
        then (refused, o, n)
        else (let r = new_incoming p o msg n in (accepted (address msg r.0), r.1, r.2))
  ]

  -- `Extern_validate_message`.
  unfoldable pub validate_message :
      Program → Extern → Msg → Net U → Option (Verdict × Extern × Net U)
  unfolding recognise take_fd connect_in
  validate_message p o msg n = recognise p o msg n >>= λ found. elim found [
    | none ↦ some (refused, o, n)
    | some m ↦
        let r = take_fd o m in
        if (r.0).extid == extid_com
        then some (if (r.0).h.interface == Iids.com_iid then accepted r.0 else refused, r.1, n)
        else some (connect_in p r.1 r.0 n)
  ]

  -- The handlers of `d_Extern_COM`; a message for the relay is not for an Extern.
  unfoldable pub com_handle : Program → ComCall → Extern → Net U → Option (Extern × Net U)
  unfolding com_error com_delete com_export
  com_handle p ComCall.relay o n = none
  com_handle p (ComCall.error e) o n = some (com_error e o n)
  com_handle p (ComCall.export ilist) o n = com_export p.interfaces ilist o n
  com_handle p ComCall.delete o n = some (com_delete o n)
  com_handle p ComCall.nothing o n = some (o, n)

  unfoldable pub queue_incoming_message : Program → Extern → Msg → Net U → Option (Extern × Net U)
  unfolding com_dispatch com_handle queue_message
  queue_incoming_message p o msg n =
      if msg.extid == extid_com
      then (com_dispatch true msg >>= λ call. com_handle p call o n)
      else some (o, record n { sys = queue_message msg n.sys })
