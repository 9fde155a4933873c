-- ===== src/Relay/Routes.antt =====
-- Where a relay sends the messages that it gets.
use casycom.Base.{
  ℕ, ◌≡◌, ◌≢◌, refl, ap, ◌∙◌, Bool, true, false, List, [], Option, some, ◌==◌, arith,
}
use casycom.Base.Chain.{◌>>=◌}
use casycom.Iids
use casycom.Msg.{Msg, forward, begin}
use casycom.Loop.{Client, queue_message}
use casycom.Framework.{create_reply_proxy, create_proxy_to, raise}
use casycom.Externs.{Extern, Net, find_by_interface}
use casycom.Externs.Incoming.{Program}
use casycom.Externs.Outgoing.{Texts, Calls}
use casycom.Relay.{Relay, relay_create, attach, route_message, queue_to, relay_dispatch}
use casycom.Relay.Lifetime.{
  detached, attached_if, Follows, relay_message-eq, relay_dispatch-message, Follows-keeps,
}

module _ {U : Type 0} (p : Program) (texts : Texts) (calls : Calls) (client : Client U) (fuel : ℕ)
    (not_found : List ℕ) where
  -- A relay between the object `local` and the Extern at `extern`, for messages of other interfaces than COM:
  -- what the object sends goes out, and everything else to the object, as if the relay, `remote`, had sent it.
  pub record RelaysBetween (local remote extern : ℕ) (o : Relay) (n : Net U) : Type 0 where
    pub sends :
        (msg : Msg)
        → msg.h.interface ≢ Iids.com_iid
        → msg.h.src ≡ local
        → relay_dispatch p texts calls client fuel not_found o msg n ≡ (
            queue_to p texts calls extern msg n >>= λ m.
            some (o, record msg { size = 0; body = [] }, m))
    pub forwards :
        (msg : Msg)
        → msg.h.interface ≢ Iids.com_iid
        → msg.h.src ≢ local
        → (m left : Msg) × (relay_dispatch p texts calls client fuel not_found o msg n
            ≡ some (o, left, record n { sys = queue_message m n.sys }))
          × (m.h ≡ record { interface = msg.h.interface; src = remote; dest = local })
          × (m.imethod ≡ msg.imethod)
          × (m.body ≡ msg.body)
          × (m.size ≡ msg.size)
          × (left.body ≡ [])

  -- A relay whose Extern or remote object is gone: every such message is an error, and stays as it is.
  pub record IsDetached (o : Relay) (n : Net U) : Type 0 where
    pub refuses :
        (msg : Msg)
        → msg.h.interface ≢ Iids.com_iid
        → relay_dispatch p texts calls client fuel not_found o msg n
          ≡ some (o, msg, record n { sys = raise not_found n.sys })

  abbrev pub Relays : Bool → ℕ → ℕ → ℕ → Relay → Net U → Type 0
  Relays true local remote extern o n = RelaysBetween local remote extern o n
  Relays false local remote extern o n = IsDetached o n

module _ {U : Type 0} (p : Program) (texts : Texts) (calls : Calls) (client : Client U) (fuel : ℕ)
    (not_found : List ℕ) (n : Net U) (o : Relay) (extern local remote : ℕ)
    (ready : (o.localp.interface == Iids.null) ≡ false) (to_local : o.localp.dest ≡ local)
    (from_relay : o.localp.src ≡ remote) (attached : o.extern ≡ some extern) where
  dispatch-route :
      (msg : Msg)
      → msg.h.interface ≢ Iids.com_iid
      → relay_dispatch p texts calls client fuel not_found o msg n
        ≡ route_message p texts calls not_found (some extern) o msg n
  dispatch-route msg other =
      let e : (msg.h.interface == Iids.com_iid) ≡ false = ground (arith, other) in
      relay_dispatch-message p texts calls client fuel not_found o msg n e
      ∙ (relay_message-eq p texts calls client fuel not_found o msg n ready
          ∙ ap (λ (x : Option ℕ). route_message p texts calls not_found x o msg n) attached)

  route_message-own :
      (msg : Msg)
      → msg.h.src ≡ local
      → route_message p texts calls not_found (some extern) o msg n ≡ (
          queue_to p texts calls extern msg n >>= λ m.
          some (o, record msg { size = 0; body = [] }, m))
  unfolding route_message
  route_message-own msg e =
      let own : (msg.h.src == o.localp.dest) ≡ true = ground (arith, e, to_local) in rw own refl

  route_message-other :
      (msg : Msg)
      → msg.h.src ≢ local
      → route_message p texts calls not_found (some extern) o msg n
        ≡ some (
          o,
          (forward o.localp msg).1,
          record n { sys = queue_message (forward o.localp msg).0 n.sys },
        )
  unfolding route_message
  route_message-other msg ne =
      let other : (msg.h.src == o.localp.dest) ≡ false = ground (arith, ne, to_local) in
      rw other refl

  forward_header :
      (msg : Msg)
      → (forward o.localp msg).0.h
        ≡ record { interface = msg.h.interface; src = remote; dest = local }
  unfolding forward begin
  forward_header msg =
      λ i. record { interface = msg.h.interface; src = from_relay i; dest = to_local i }

  relays : RelaysBetween p texts calls client fuel not_found local remote extern o n
  unfolding forward begin
  relays = record {
    sends = λ msg other e. dispatch-route msg other ∙ route_message-own msg e;
    forwards = λ msg other ne. (
      (forward o.localp msg).0,
      (forward o.localp msg).1,
      dispatch-route msg other ∙ route_message-other msg ne,
      forward_header msg,
      refl,
      refl,
      refl,
      refl,
    );
  }

module _ {U : Type 0} (p : Program) (texts : Texts) (calls : Calls) (client : Client U) (fuel : ℕ)
    (not_found : List ℕ) (n : Net U) (o : Relay)
    (ready : (o.localp.interface == Iids.null) ≡ false) where
  refuses : IsDetached p texts calls client fuel not_found (detached o) n
  unfolding route_message
  refuses = record {
    refuses = λ msg other.
        let e : (msg.h.interface == Iids.com_iid) ≡ false = ground (arith, other) in
        relay_dispatch-message p texts calls client fuel not_found (detached o) msg n e
        ∙ relay_message-eq p texts calls client fuel not_found (detached o) msg n ready;
  }

  Relays-if :
      (still : Bool) (extern : ℕ)
      → o.extern ≡ some extern
      → Relays p texts calls client fuel not_found still o.localp.dest o.localp.src extern
          (attached_if still o)
          n
  Relays-if true extern attached =
      relays p texts calls client fuel not_found n o extern o.localp.dest o.localp.src ready refl
        refl attached
  Relays-if false extern attached = refuses

-- A relay is made by the first message of a local object for an imported interface, and then its
-- handlers are called, each in some state of the net. As long as no COM delete has come and not the
-- news that its Extern is gone, it relays between the object and the Extern that imports the
-- interface: a message from the object is queued in that Extern, if this is in the net, and its body
-- is taken over; another message is queued for the object once, under the relay's id, with its
-- interface, method and body. After one of these events, each message is an error and stays as it
-- is. This is about messages of other interfaces than COM, and the handlers are those of the relay's
-- table, its own and for messages to relay, and `COMRelay_object_destroyed`.
pub relay_create-RelaysBetween :
    {U : Type 0} (p : Program) (texts : Texts) (calls : Calls) (client : Client U) (fuel : ℕ)
    (not_found : List ℕ) (at : ℕ) (msg : Msg) (n m : Net U) (e : Extern) (still : Bool) (o : Relay)
    → msg.h.interface ≢ Iids.com_iid
    → find_by_interface n.externs msg.h.interface ≡ some e
    → Follows p texts calls client fuel not_found (relay_create p at msg n).0 still o
    → Relays p texts calls client fuel not_found still msg.h.src msg.h.dest e.at o m
unfolding relay_create attach create_reply_proxy create_proxy_to
relay_create-RelaysBetween p texts calls client fuel not_found at msg n m e still o other found f =
    let t : (msg.h.interface == Iids.com_iid) ≡ false = ground (arith, other) in
    let made : Relay = record {
      at = at;
      localp = record { interface = Iids.com_iid; src = msg.h.dest; dest = msg.h.src };
      externid = e.info.oid;
      extern = some e.at;
    } in
    let created : (relay_create p at msg n).0 ≡ made = rw (t, found, relay_create) refl in
    let f' : Follows p texts calls client fuel not_found made still o = rw created at f in
    let same : o ≡ attached_if still made =
      Follows-keeps p texts calls client fuel not_found made still o refl f' in
    rw same (Relays-if p texts calls client fuel not_found m made refl still e.at refl)
