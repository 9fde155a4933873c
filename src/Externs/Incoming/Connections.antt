-- ===== src/Externs/Incoming/Connections.antt =====
-- The connections of an Extern when a message arrives.
use casycom.Base.{
  ◌+◌, ◌^◌, ◌≤◌, ◌<◌, ◌≡◌, ◌≢◌, inl, inr, refl, ap, ◌∙◌, Bool, true, false, [], none, ◌==◌, arith,
  Bool-cases, Option-cases, length,
}
use casycom.Iids
use casycom.Msg.{Msg, oid_last}
use casycom.Links.{OMap, free_oid}
use casycom.Links.Order.{All, links_to}
use casycom.Links.Entry.{create_link_to-Entered}
use casycom.Links.Fresh.{free_oid-FirstFree, lowest}
use casycom.Registry.{find_factory}
use casycom.Framework.{create_proxy, create_proxy_to}
use casycom.Externs.{Conn, Extern, Net, conn_by_extid, is_in, is_extid_refused}
use casycom.Externs.Conns.{
  AreConnected-snoc, conn_by_extid-none, HasOwnExtid, All-map, is_extid_refused-client,
  is_extid_refused-server,
}
use casycom.Externs.Incoming.{Program, refused, connect_in, new_incoming}
use casycom.Externs.Conns.{IsInOrder}

-- There is an id left for a new object.
pub record HasFreeOid (omap : OMap) : Type 0 where
  pub room : lowest omap + length omap < 2 ^ 16
  pub small : free_oid omap ≤ oid_last

module _ {U : Type 0} (p : Program) (o : Extern) (msg : Msg) (n : Net U) (i : IsInOrder o n)
    (f : HasFreeOid n.sys.omap) where
  fresh : All (λ (c : Conn). c.proxy.dest ≢ free_oid n.sys.omap) o.conns
  fresh =
      let free = free_oid-FirstFree n.sys.omap i.sorted f.room in
      All-map o.conns
        (λ (c : Conn) (linked : links_to c.proxy.dest n.sys.omap ≢ [])
            (same : c.proxy.dest ≡ free_oid n.sys.omap).
          linked (ap (λ d. links_to d n.sys.omap) same ∙ free.free))
        i.connected.linked

  new_incoming-IsInOrder :
      conn_by_extid o.conns msg.extid ≡ none
      → is_extid_refused o.info.is_client msg.extid ≡ false
      → let r = new_incoming p o msg n in IsInOrder (r.1) (r.2)
  unfolding new_incoming create_proxy create_proxy_to
  new_incoming-IsInOrder absent taken = record {
    connected =
        AreConnected-snoc o.info.is_client n.sys.omap
          (find_factory p.dtable n.sys.registry Iids.com_iid)
          (record { interface = Iids.com_iid; src = o.info.oid; dest = free_oid n.sys.omap })
          o.conns msg.extid i.sorted i.connected fresh (conn_by_extid-none o.conns msg.extid absent)
          (own o.info.is_client taken);
    sorted = (create_link_to-Entered n.sys.omap _ _ i.sorted).sorted;
  }
    where
      own :
          (is_client : Bool)
          → is_extid_refused is_client msg.extid ≡ false
          → HasOwnExtid is_client (record {
            proxy = record {
              interface = Iids.com_iid;
              src = o.info.oid;
              dest = free_oid n.sys.omap;
            };
            extid = msg.extid;
          })
      own true h = absurd (let q = is_extid_refused-client msg.extid in cc)
      own false h = record {
        small = f.small;
        extid = inr (refl, is_extid_refused-server msg.extid h);
      }

-- While there is an id left for a new object, the lookup and the creation of connections in
-- `Extern_validate_message` keep the table of connections in order, whatever the message is.
pub connect_in-IsInOrder :
    {U : Type 0} (p : Program) (o : Extern) (msg : Msg) (n : Net U)
    → IsInOrder o n
    → HasFreeOid n.sys.omap
    → let r = connect_in p o msg n in IsInOrder (r.1) (r.2)
unfolding connect_in
connect_in-IsInOrder p o msg n i f = elim (Option-cases (conn_by_extid o.conns msg.extid)) [
  | inr (c, e) ↦ rw (e, connect_in) i
  | inl e ↦ elim (Bool-cases (msg.h.interface == Iids.com_iid)) [
    | inl t ↦ rw (e, t, connect_in) i
    | inr t ↦ elim (Bool-cases (is_in o.exported msg.h.interface)) [
      | inr u ↦ rw (e, t, u, connect_in) i
      | inl u ↦ elim (Bool-cases (is_extid_refused o.info.is_client msg.extid)) [
        | inl v ↦ rw (e, t, u, v, connect_in) i
        | inr v ↦ rw (e, t, u, v, connect_in) (new_incoming-IsInOrder p o msg n i f e v)
      ]
    ]
  ]
]

-- To an Extern that is the client's, the other side can not address an object that it has not been
-- given: a message of another interface than COM with an extid that is not known is refused,
-- without any change.
pub connect_in-client :
    {U : Type 0} (p : Program) (o : Extern) (msg : Msg) (n : Net U)
    → o.info.is_client ≡ true
    → conn_by_extid o.conns msg.extid ≡ none
    → msg.h.interface ≢ Iids.com_iid
    → connect_in p o msg n ≡ (refused, o, n)
unfolding connect_in
connect_in-client p o msg n client absent interface =
    let t : (msg.h.interface == Iids.com_iid) ≡ false = ground (arith, interface) in
    let v : is_extid_refused o.info.is_client msg.extid ≡ true =
      rw client (is_extid_refused-client msg.extid) in
    elim (Bool-cases (is_in o.exported msg.h.interface)) [
      | inl u ↦ rw (absent, t, u, v, connect_in) refl
      | inr u ↦ rw (absent, t, u, connect_in) refl
    ]
