-- ===== src/Relay.antt =====
-- The COMRelay object of xcom.c, between a local object and the Extern that leads to the remote one. An
-- Extern goes by its address in the list of Externs. `none` is a failed assertion, or a pointer to an
-- Extern that is gone.
pub mod Lifetime
pub mod Routes
use casycom.Base.{
  ℕ, Bool, true, false, not, ◌&&◌, List, [], ◌∷◌, ◌++◌, Option, none, some, ◌==◌, if◌then◌else◌,
}
use casycom.Base.Chain.{◌>>=◌}
use casycom.Iids
use casycom.Msg.{Proxy, Msg, forward}
use casycom.Registry.{Dtable, Registry, register, register_default}
use casycom.Loop.{Sys, Client, queue_message, forward_error}
use casycom.Framework.{create_proxy, create_proxy_to, create_reply_proxy, mark_object, raise}
use casycom.Protocol.Com.{ComCall, error_message, delete_message, com_dispatch}
use casycom.Externs.{Extern, Net, find_by_interface, find_by_id, put_back}
use casycom.Externs.Incoming.{Program}
use casycom.Externs.Outgoing.{Texts, Calls, queue_outgoing_message}

pub record Relay : Type 0 where
  pub at : ℕ
  pub localp : Proxy
  pub externid : ℕ
  pub extern : Option ℕ

abbrev null_proxy : Proxy
null_proxy = record { interface = Iids.null; src = 0; dest = 0 }

unfoldable pub extern_at : List Extern → ℕ → Option Extern
extern_at [] at = none
extern_at (e ∷ es) at = if e.at == at then some e else extern_at es at

-- "The message comes from the real object".
unfoldable pub failp : Relay → Proxy
failp o = record { interface = Iids.com_iid; src = o.localp.dest; dest = o.localp.src }

module _ {U : Type 0} where
  -- With the Extern that was found: its id, and a link that brings the news of its end.
  unfoldable pub attach : Program → Msg → Option Extern → Relay → Net U → Relay × Net U
  unfolding create_proxy_to
  attach p msg none o n = (o, n)
  attach p msg (some e) o n = (
    record o { externid = e.info.oid; extern = some e.at },
    record n { sys = (create_proxy_to p.dtable Iids.com_iid msg.h.dest e.info.oid n.sys).1 },
  )

  unfoldable pub relay_create : Program → ℕ → Msg → Net U → Relay × Net U
  unfolding attach create_reply_proxy find_by_interface find_by_id
  relay_create p at msg n =
      let o : Relay = record { at = at; localp = null_proxy; externid = 0; extern = none } in
      if not (msg.h.interface == Iids.com_iid)
      then (let r = create_reply_proxy p.dtable Iids.com_iid msg n.sys in
          attach p msg (find_by_interface n.externs msg.h.interface) (record o { localp = r.0 })
            (record n { sys = r.1 }))
      else attach p msg (find_by_id n.externs msg.h.dest) o n

  -- `Extern_queue_outgoing_message (o->pExtern, msg)`.
  unfoldable pub queue_to : Program → Texts → Calls → ℕ → Msg → Net U → Option (Net U)
  unfolding extern_at queue_outgoing_message put_back
  queue_to p texts calls at msg n = do
    e ← extern_at n.externs at
    r ← queue_outgoing_message p texts calls e msg n
    some (record r.1 { externs = put_back r.0 r.1.externs })

  -- The proxy to the local object, made by the first message that comes for it.
  unfoldable pub with_local : Program → Relay → Msg → Net U → Relay × Net U
  unfolding create_proxy
  with_local p o msg n =
      if o.localp.interface == Iids.null
      then (let r = create_proxy p.dtable msg.h.interface msg.h.dest n.sys in
          (record o { localp = r.0 }, record n { sys = r.1 }))
      else (o, n)

  -- With the proxy to the local object: no Extern, a message for the object, or one from it, whose body
  -- goes to the message that is queued.
  unfoldable pub route_message :
      Program
      → Texts
      → Calls
      → List ℕ
      → Option ℕ
      → Relay
      → Msg
      → Net U
      → Option (Relay × Msg × Net U)
  unfolding raise forward queue_message queue_to
  route_message p texts calls not_found none o msg n =
      some (o, msg, record n { sys = raise not_found n.sys })
  route_message p texts calls not_found (some at) o msg n =
      if not (msg.h.src == o.localp.dest)
      then (let f = forward o.localp msg in
          some (o, f.1, record n { sys = queue_message f.0 n.sys }))
      else (do m ← queue_to p texts calls at msg n; some (o, record msg { size = 0; body = [] }, m))

  -- `COMRelay_COM_message`: the relay, what is left of the message, and the net. `not_found` is the text
  -- of the error.
  unfoldable pub relay_message :
      Program → Texts → Calls → List ℕ → Relay → Msg → Net U → Option (Relay × Msg × Net U)
  unfolding with_local route_message
  relay_message p texts calls not_found o msg n =
      let r = with_local p o msg n in route_message p texts calls not_found o.extern r.0 msg r.1

  unfoldable relay_destroy : Program → Texts → Calls → Relay → Net U → Option (Net U)
  unfolding failp queue_to delete_message
  relay_destroy p texts calls o n = elim o.extern [
    | none ↦ some n
    | some at ↦ delete_message (failp o) >>= λ msg. queue_to p texts calls at msg n
  ]

  unfoldable pub relay_error :
      Program → Texts → Calls → Relay → ℕ → List ℕ → Net U → Option (Bool × Net U)
  unfolding failp queue_to error_message
  relay_error p texts calls o eoid e n = elim o.extern [
    | none ↦ some (false, n)
    | some at ↦
        if eoid == o.localp.dest
        then (do
          msg ← error_message (failp o) e
          m ← queue_to p texts calls at msg n
          some (true, m))
        else some (false, n)
  ]

  unfoldable pub relay_object_destroyed : Relay → ℕ → Net U → Relay × Net U
  unfolding mark_object
  relay_object_destroyed o oid n = (
    if oid == o.externid then record o { extern = none } else o,
    record n { sys = mark_object o.at n.sys },
  )

  -- `COMRelay_COM_error` and `COMRelay_COM_delete`.
  unfoldable pub relay_com_error : Client U → ℕ → List ℕ → Relay → Net U → Option (Relay × Net U)
  unfolding raise forward_error
  relay_com_error client fuel e o n = do
    r ← forward_error client fuel o.localp.dest o.localp.src (raise e n.sys)
    some (o, record n { sys = r.1 })

  unfoldable pub relay_com_delete : Relay → Net U → Relay × Net U
  unfolding mark_object
  relay_com_delete o n = (record o { extern = none }, record n { sys = mark_object o.at n.sys })

  -- The handler of the relay's table, which has no `COM_export`.
  unfoldable pub relay_call :
      Program
      → Texts
      → Calls
      → Client U
      → ℕ
      → List ℕ
      → Relay
      → Msg
      → Net U
      → ComCall
      → Option (Relay × Msg × Net U)
  unfolding relay_message relay_com_error relay_com_delete
  relay_call p texts calls client fuel not_found o msg n ComCall.relay =
      relay_message p texts calls not_found o msg n
  relay_call p texts calls client fuel not_found o msg n (ComCall.error e) =
      relay_com_error client fuel e o n >>= λ r. some (r.0, msg, r.1)
  relay_call p texts calls client fuel not_found o msg n (ComCall.export ilist) = some (o, msg, n)
  relay_call p texts calls client fuel not_found o msg n ComCall.delete =
      let r = relay_com_delete o n in some (r.0, msg, r.1)
  relay_call p texts calls client fuel not_found o msg n ComCall.nothing = some (o, msg, n)

  -- `PCOM_dispatch` with that table.
  unfoldable pub relay_dispatch :
      Program
      → Texts
      → Calls
      → Client U
      → ℕ
      → List ℕ
      → Relay
      → Msg
      → Net U
      → Option (Relay × Msg × Net U)
  unfolding com_dispatch relay_call
  relay_dispatch p texts calls client fuel not_found o msg n =
      com_dispatch false msg >>= relay_call p texts calls client fuel not_found o msg n
