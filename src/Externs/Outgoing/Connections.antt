-- ===== src/Externs/Outgoing/Connections.antt =====
-- The connections of an Extern when it sends a message, and the way back of the answer.
use mathlib.Core.Option.{some-injective}
use casycom.Base.{
  ℕ, ◌≤◌, ◌≡◌, ◌≢◌, inl, inr, refl, sym, true, false, List, [], ◌∷◌, ◌++◌, none, some, ◌==◌, arith,
  Bool-cases, Option-cases,
}
use casycom.Iids
use casycom.Msg.{Proxy, Msg, oid_last}
use casycom.Links.Order.{All, IsSorted}
use casycom.Links.Entry.{create_link_to-Entered}
use casycom.Registry.{find_factory}
use casycom.Framework.{create_proxy_to}
use casycom.Externs.{Conn, Extern, Net, conn_by_oid, conn_by_extid, own_extid}
use casycom.Externs.Conns.{
  AreConnected, AreDistinct, AreConnected-snoc, conn_by_oid-none, HasOwnExtid-new, All-map2,
  IsInOrder,
}
use casycom.Externs.Incoming.{Program, accepted, address, connect_in}
use casycom.Externs.Outgoing.{connect_out, outgoing_conn, new_outgoing, is_com_delete}

All-found :
    (P : Conn → Type 0) (cs : List Conn) (oid : ℕ) (c : Conn)
    → conn_by_oid cs oid ≡ some c
    → All P cs
    → P c
unfolding conn_by_oid
All-found P [] oid c h a = cc
All-found P (x ∷ cs) oid c h a = elim (Bool-cases (x.proxy.dest == oid)) [
  | inl e ↦ let q : x ≡ c = some-injective x c (rw e at h) in rw (sym q) a.0
  | inr e ↦ All-found P cs oid c (rw e at h) a.1
]

conn_by_oid-dest :
    (cs : List Conn) (oid : ℕ) (c : Conn) → conn_by_oid cs oid ≡ some c → c.proxy.dest ≡ oid
unfolding conn_by_oid
conn_by_oid-dest [] oid c h = cc
conn_by_oid-dest (x ∷ cs) oid c h = elim (Bool-cases (x.proxy.dest == oid)) [
  | inl e ↦ let q : x ≡ c = some-injective x c (rw e at h) in rw (sym q) (ground (arith, e))
  | inr e ↦ conn_by_oid-dest cs oid c (rw e at h)
]

-- The extid of a connection leads back to it.
conn_by_extid-found :
    (cs : List Conn) (oid : ℕ) (c : Conn)
    → AreDistinct (λ (d : Conn). d.extid) cs
    → conn_by_oid cs oid ≡ some c
    → conn_by_extid cs c.extid ≡ some c
unfolding conn_by_oid conn_by_extid
conn_by_extid-found [] oid c d h = cc
conn_by_extid-found (x ∷ cs) oid c d h = elim (Bool-cases (x.proxy.dest == oid)) [
  | inl e ↦
      let q : x ≡ c = some-injective x c (rw e at h) in
      let hit : (c.extid == c.extid) ≡ true = ground arith in rw q (rw hit refl)
  | inr e ↦
      let ne : x.extid ≢ c.extid =
        All-found (λ (y : Conn). x.extid ≢ y.extid) cs oid c (rw e at h) d.0 in
      let miss : (x.extid == c.extid) ≡ false = ground (arith, ne) in
      rw miss (conn_by_extid-found cs oid c d.1 (rw e at h))
]

conn_by_extid-last :
    (cs : List Conn) (c : Conn)
    → All (λ (d : Conn). d.extid ≢ c.extid) cs
    → conn_by_extid (cs ++ (c ∷ [])) c.extid ≡ some c
unfolding conn_by_extid
conn_by_extid-last [] c a = let hit : (c.extid == c.extid) ≡ true = ground arith in rw hit refl
conn_by_extid-last (x ∷ cs) c a =
    let miss : (x.extid == c.extid) ≡ false = ground (arith, a.0) in
    rw miss (conn_by_extid-last cs c a.1)

-- A connection that is found, in a well-formed table.
pub record Connects {U : Type 0} (o : Extern) (oid : ℕ) (r : Conn × Extern × Net U) : Type 0 where
  pub connected : AreConnected o.info.is_client (r.2).sys.omap (r.1).conns
  pub sorted : IsSorted (r.2).sys.omap
  pub info : (r.1).info ≡ o.info
  pub leads : ((r.0).proxy).dest ≡ oid
  pub back : conn_by_extid (r.1).conns (r.0).extid ≡ some r.0

module _ {U : Type 0} (p : Program) (o : Extern) (msg : Msg) (n : Net U) (s : IsSorted n.sys.omap)
    (a : AreConnected o.info.is_client n.sys.omap o.conns) (small : msg.h.dest ≤ oid_last) where
  new_outgoing-Connects :
      conn_by_oid o.conns msg.h.dest ≡ none → Connects o msg.h.dest (new_outgoing p o msg n)
  unfolding new_outgoing create_proxy_to
  new_outgoing-Connects absent =
      let factory = find_factory p.dtable n.sys.registry Iids.com_iid in
      let h : Proxy = record { interface = Iids.com_iid; src = o.info.oid; dest = msg.h.dest } in
      let oids = conn_by_oid-none o.conns msg.h.dest absent in
      let extids =
        All-map2 _ _ (λ (c : Conn). c.extid ≢ own_extid o.info.is_client msg.h.dest) o.conns
          (λ c. HasOwnExtid-new o.info.is_client msg.h.dest c small) a.own oids in
      record {
        connected =
            AreConnected-snoc o.info.is_client n.sys.omap factory h o.conns
              (own_extid o.info.is_client msg.h.dest) s a oids extids
              (record { small = small; extid = inl refl });
        sorted = (create_link_to-Entered n.sys.omap factory h s).sorted;
        info = refl;
        leads = refl;
        back =
            conn_by_extid-last o.conns
              (record { proxy = h; extid = own_extid o.info.is_client msg.h.dest }) extids;
      }

  outgoing_conn-Connects : Connects o msg.h.dest (outgoing_conn p o msg n)
  unfolding outgoing_conn
  outgoing_conn-Connects = elim (Option-cases (conn_by_oid o.conns msg.h.dest)) [
    | inl e ↦ rw (e, outgoing_conn) (new_outgoing-Connects e)
    | inr (c, e) ↦
        rw (e, outgoing_conn)
          record {
            connected = a;
            sorted = s;
            info = refl;
            leads = conn_by_oid-dest o.conns msg.h.dest c e;
            back = conn_by_extid-found o.conns msg.h.dest c a.extids e;
          }
  ]

-- A message from the other side with the extid that `Extern_queue_outgoing_message` gave to a
-- message for another object than the Extern itself, other than the one that deletes the
-- connection, is accepted and addressed to that object, without any change, when the table of
-- connections is in order and the object's id in range.
pub connect_in-connect_out :
    {U : Type 0} (p : Program) (o : Extern) (msg answer : Msg) (n : Net U)
    → IsInOrder o n
    → msg.h.dest ≤ oid_last
    → msg.h.dest ≢ o.info.oid
    → is_com_delete msg ≡ false
    → let r = connect_out p o msg n in
      answer.extid ≡ (r.0).extid
      → (m : Msg) × (connect_in p (r.1) answer (r.2) ≡ (accepted m, r.1, r.2))
        × (m.h.dest ≡ msg.h.dest)
        × (m.body ≡ answer.body)
unfolding connect_out connect_in address
connect_in-connect_out p o msg answer n i small other stays e =
    let c = outgoing_conn-Connects p o msg n i.sorted i.connected small in
    let r = outgoing_conn p o msg n in
    let miss : (msg.h.dest == o.info.oid) ≡ false = ground (arith, other) in
    let same : answer.extid ≡ (r.0).extid = rw (miss, connect_out) at e in
    let found : conn_by_extid (r.1).conns answer.extid ≡ some r.0 = rw same c.back in
    rw (miss, stays, connect_out)
      (rw (found, connect_in) (address answer (r.0), refl, c.leads, refl))
