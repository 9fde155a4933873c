-- ===== src/Relay/Lifetime.antt =====
-- The relay object from its creation on: what its handlers make of its fields.
use casycom.Base.{
  ℕ, ◌≡◌, refl, sym, ap, ◌∙◌, Bool, true, false, not, ◌&&◌, List, [], Option, none, some, ◌==◌,
  if◌then◌else◌, inl, inr, Bool-cases, arith,
}
use mathlib.Core.Option.{some-injective}
use casycom.Base.Chain.{assert, >>=-eq-some}
use casycom.Iids
use casycom.Msg.{Msg, Proxy, method_create_object, stream, default_dispatch}
use casycom.Stm.{read_string}
use casycom.Loop.{Client, forward_error}
use casycom.Framework.{raise}
use casycom.Protocol.Com.{ComCall, com_dispatch, method_error, method_export, method_delete}
use casycom.Externs.{Net}
use casycom.Externs.Incoming.{Program}
use casycom.Externs.Outgoing.{Texts, Calls}
use casycom.Relay.{
  Relay, relay_message, with_local, route_message, queue_to, relay_com_error, relay_com_delete,
  relay_call, relay_dispatch, relay_object_destroyed,
}

-- The call with which the other side tells that the remote object is gone.
abbrev pub is_delete : Msg → Bool
is_delete msg = (msg.h.interface == Iids.com_iid) && (msg.imethod == method_delete)

abbrev pub detached : Relay → Relay
detached o = record o { extern = none }

abbrev pub attached_if : Bool → Relay → Relay
attached_if still o = if still then o else detached o

abbrev is_delete_call : ComCall → Bool
is_delete_call ComCall.relay = false
is_delete_call (ComCall.error e) = false
is_delete_call (ComCall.export ilist) = false
is_delete_call ComCall.delete = true
is_delete_call ComCall.nothing = false

com_dispatch-delete :
    (msg : Msg) (call : ComCall)
    → com_dispatch false msg ≡ some call
    → is_delete_call call ≡ is_delete msg
unfolding com_dispatch default_dispatch
com_dispatch-delete msg call h = elim (Bool-cases (msg.h.interface == Iids.com_iid)) [
  | inr other ↦
      let same : ComCall.relay ≡ call = some-injective _ _ (rw other at h) in
      rw (other, ← same) refl
  | inl com_call ↦ elim (Bool-cases (msg.imethod == method_error)) [
    | inl e ↦
        let (t, text, h') =
          >>=-eq-some (read_string (stream msg)) (λ t. some (ComCall.error t.0))
            (rw (com_call, e) at h) in
        let same : ComCall.error t.0 ≡ call = some-injective _ _ h' in
        let no_delete : (msg.imethod == method_delete) ≡ false = ground (arith, e) in
        rw (com_call, no_delete, ← same) refl
    | inr e ↦ elim (Bool-cases (msg.imethod == method_export)) [
      | inl x ↦
          let (t, text, h') =
            >>=-eq-some (read_string (stream msg)) (λ t. some ComCall.nothing)
              (rw (com_call, e, x) at h) in
          let same : ComCall.nothing ≡ call = some-injective _ _ h' in
          let no_delete : (msg.imethod == method_delete) ≡ false = ground (arith, x) in
          rw (com_call, no_delete, ← same) refl
      | inr x ↦ elim (Bool-cases (msg.imethod == method_delete)) [
        | inl d ↦
            let same : ComCall.delete ≡ call = some-injective _ _ (rw (com_call, e, x, d) at h) in
            rw (com_call, d, ← same) refl
        | inr d ↦
            let (u, fits, h') =
              >>=-eq-some (assert (msg.imethod == method_create_object)) (λ u. some ComCall.nothing)
                (rw (com_call, e, x, d) at h) in
            let same : ComCall.nothing ≡ call = some-injective _ _ h' in
            rw (com_call, d, ← same) refl
      ]
    ]
  ]
]

attached_twice : (a b : Bool) (o : Relay) → attached_if b (attached_if a o) ≡ attached_if (a && b) o
attached_twice true b o = refl
attached_twice false true o = refl
attached_twice false false o = refl

attached_localp : (a : Bool) (o : Relay) → Relay.localp (attached_if a o) ≡ o.localp
attached_localp true o = refl
attached_localp false o = refl

module _ {U : Type 0} (p : Program) (texts : Texts) (calls : Calls) (client : Client U) (fuel : ℕ)
    (not_found : List ℕ) where
  -- What a relay `o` has become after some events, each in some state of the net, and whether it is still
  -- attached to its Extern: no delete has come, and not the news that the Extern is gone.
  pub data Follows (o : Relay) : Bool → Relay → Type 0 where
    begun : Follows o true o
    handled :
        {still : Bool} {o' : Relay} (msg : Msg) (n : Net U) (r : Relay × Msg × Net U)
        → Follows o still o'
        → relay_dispatch p texts calls client fuel not_found o' msg n ≡ some r
        → Follows o (still && not (is_delete msg)) r.0
    told :
        {still : Bool} {o' : Relay} (oid : ℕ) (n : Net U)
        → Follows o still o'
        → Follows o (still && not (oid == o'.externid)) (relay_object_destroyed o' oid n).0

  route_message-keeps :
      (x : Option ℕ) (o : Relay) (msg : Msg) (n : Net U) (r : Relay × Msg × Net U)
      → route_message p texts calls not_found x o msg n ≡ some r
      → r.0 ≡ o
  unfolding route_message
  route_message-keeps none o msg n r h =
      ap (λ (t : Relay × Msg × Net U). t.0) (sym (some-injective _ _ h))
  route_message-keeps (some at) o msg n r h = elim (Bool-cases (msg.h.src == o.localp.dest)) [
    | inr other ↦ ap (λ (t : Relay × Msg × Net U). t.0) (sym (some-injective _ _ (rw other at h)))
    | inl own ↦
        let (m, sent, h') =
          >>=-eq-some (queue_to p texts calls at msg n)
            (λ m. some (o, record msg { size = 0; body = [] }, m)) (rw own at h) in
        ap (λ (t : Relay × Msg × Net U). t.0) (sym (some-injective _ _ h'))
  ]

  pub with_local-ready :
      (o : Relay) (msg : Msg) (n : Net U)
      → (o.localp.interface == Iids.null) ≡ false
      → with_local p o msg n ≡ (o, n)
  unfolding with_local
  with_local-ready o msg n ready = rw ready refl

  pub relay_message-eq :
      (o : Relay) (msg : Msg) (n : Net U)
      → (o.localp.interface == Iids.null) ≡ false
      → relay_message p texts calls not_found o msg n
        ≡ route_message p texts calls not_found o.extern o msg n
  unfolding relay_message
  relay_message-eq o msg n ready =
      ap (λ (r : Relay × Net U). route_message p texts calls not_found o.extern r.0 msg r.1)
        (with_local-ready o msg n ready)

  -- A message of another interface than COM is relayed.
  pub relay_dispatch-message :
      (o : Relay) (msg : Msg) (n : Net U)
      → (msg.h.interface == Iids.com_iid) ≡ false
      → relay_dispatch p texts calls client fuel not_found o msg n
        ≡ relay_message p texts calls not_found o msg n
  unfolding relay_dispatch com_dispatch relay_call
  relay_dispatch-message o msg n e = rw e refl

  relay_call-keeps :
      (o : Relay) (msg : Msg) (n : Net U) (call : ComCall) (r : Relay × Msg × Net U)
      → (o.localp.interface == Iids.null) ≡ false
      → relay_call p texts calls client fuel not_found o msg n call ≡ some r
      → r.0 ≡ attached_if (not (is_delete_call call)) o
  unfolding relay_call relay_com_error relay_com_delete
  relay_call-keeps o msg n ComCall.relay r ready h =
      route_message-keeps o.extern o msg n r (sym (relay_message-eq o msg n ready) ∙ h)
  relay_call-keeps o msg n (ComCall.error e) r ready h =
      let (q, failed, h') =
        >>=-eq-some (relay_com_error client fuel e o n)
          (λ (q : Relay × Net U). some (q.0, msg, q.1)) h in
      let (f, forwarded, h'') =
        >>=-eq-some (forward_error client fuel o.localp.dest o.localp.src (raise e n.sys))
          (λ f. some (o, record n { sys = f.1 })) failed in
      ap (λ (t : Relay × Msg × Net U). t.0) (sym (some-injective _ _ h'))
      ∙ ap (λ (t : Relay × Net U). t.0) (sym (some-injective _ _ h''))
  relay_call-keeps o msg n (ComCall.export ilist) r ready h =
      ap (λ (t : Relay × Msg × Net U). t.0) (sym (some-injective _ _ h))
  relay_call-keeps o msg n ComCall.delete r ready h =
      ap (λ (t : Relay × Msg × Net U). t.0) (sym (some-injective _ _ h))
  relay_call-keeps o msg n ComCall.nothing r ready h =
      ap (λ (t : Relay × Msg × Net U). t.0) (sym (some-injective _ _ h))

  relay_dispatch-keeps :
      (o : Relay) (msg : Msg) (n : Net U) (r : Relay × Msg × Net U)
      → (o.localp.interface == Iids.null) ≡ false
      → relay_dispatch p texts calls client fuel not_found o msg n ≡ some r
      → r.0 ≡ attached_if (not (is_delete msg)) o
  unfolding relay_dispatch
  relay_dispatch-keeps o msg n r ready h =
      let (call, e, h') =
        >>=-eq-some (com_dispatch false msg)
          (relay_call p texts calls client fuel not_found o msg n) h in
      relay_call-keeps o msg n call r ready h'
      ∙ ap (λ b. attached_if (not b) o) (com_dispatch-delete msg call e)

  object_destroyed-detaches :
      (o : Relay) (oid : ℕ) (n : Net U)
      → (relay_object_destroyed o oid n).0 ≡ attached_if (not (oid == o.externid)) o
  unfolding relay_object_destroyed
  object_destroyed-detaches o oid n = elim (Bool-cases (oid == o.externid)) [
    | inl gone ↦ rw gone refl
    | inr there ↦ rw there refl
  ]

  -- The proxy and the id stay, and the Extern as long as the relay is attached.
  pub Follows-keeps :
      (o : Relay) (still : Bool) (o' : Relay)
      → (o.localp.interface == Iids.null) ≡ false
      → Follows o still o'
      → o' ≡ attached_if still o
  Follows-keeps o still o' ready begun = refl
  Follows-keeps o _ _ ready (handled {still} {o'} msg n r f h) =
      let same = Follows-keeps o still o' ready f in
      let ready' : (o'.localp.interface == Iids.null) ≡ false =
        ap (λ (x : Relay). x.localp.interface == Iids.null) same
        ∙ (ap (λ (h : Proxy). h.interface == Iids.null) (attached_localp still o) ∙ ready) in
      relay_dispatch-keeps o' msg n r ready' h
      ∙ (ap (attached_if (not (is_delete msg))) same ∙ attached_twice still (not (is_delete msg)) o)
  Follows-keeps o _ _ ready (told {still} {o'} oid n f) =
      let same = Follows-keeps o still o' ready f in
      object_destroyed-detaches o' oid n
      ∙ (ap (attached_if (not (oid == o'.externid))) same
          ∙ attached_twice still (not (oid == o'.externid)) o)
