-- ===== src/Server/Accepts.antt =====
-- A connection that a server accepts.
use casycom.Base.{
  ℕ, ◌+◌, ◌^◌, ◌<◌, ◌≡◌, ◌≢◌, refl, ap, ◌∙◌, List, [], ◌∷◌, ◌++◌, some, arith, length,
}
use casycom.Iids
use casycom.Msg.{Proxy, Msg}
use casycom.Links.{create_link_to, free_oid}
use casycom.Links.Order.{All, IsSorted, links_to}
use casycom.Links.Entry.{create_link_to-Entered}
use casycom.Links.Fresh.{free_oid-FirstFree, lowest}
use casycom.Registry.{Dtable, find_factory}
use casycom.Loop.{Sys, queue_message}
use casycom.Framework.{create_proxy, create_proxy_to, send}
use casycom.Protocol.Extern.{opened, extern_server, open_extern-Delivers, extern_dispatch}
use casycom.Externs.Conns.{
  AreDistinct, AreDistinct-snoc, All-map, All-snoc, links_to-kept, links_to-new,
}
use casycom.Server.{ExternServer, accept_one}

-- The connections lead to distinct objects, which have links.
pub record IsServing {U : Type 0} (o : ExternServer) (s : Sys U) : Type 0 where
  pub distinct : AreDistinct (λ (c : Proxy). c.dest) o.pconn
  pub linked : All (λ (c : Proxy). links_to c.dest s.omap ≢ []) o.pconn
  pub sorted : IsSorted s.omap

-- What accepting the descriptor `cfd` leads to.
pub record Accepts {U : Type 0} (cfd : ℕ) (o : ExternServer) (s : Sys U) (r : ExternServer × Sys U)
    : Type 0 where
  pub proxy : Proxy
  pub message : Msg
  pub serving : IsServing (r.0) (r.1)
  pub kept : (r.0).pconn ≡ o.pconn ++ (proxy ∷ [])
  pub fresh : links_to proxy.dest s.omap ≡ []
  pub sent : (r.1).output_queue ≡ s.output_queue ++ (message ∷ [])
  pub header : message.h ≡ proxy
  pub opens :
      extern_dispatch Iids.extern message ≡ some (opened cfd extern_server Iids.null o.exported)

-- On sorted links with an id left, and with a descriptor and an address of their sizes, an accepted
-- connection gets an object that no link led to before, its proxy is added to the server's, which
-- still lead to distinct objects with links, and one message is sent, which the new object's
-- dispatcher reads as the opening of this descriptor as a server, with the interfaces that the
-- server exports.
pub accept_one-Accepts :
    {U : Type 0} (dtable : ℕ → List Dtable) (cfd : ℕ) (o : ExternServer) (s : Sys U)
    → IsServing o s
    → lowest s.omap + length s.omap < 2 ^ 16
    → cfd < 2 ^ 32
    → o.exported < 2 ^ 64
    → (r : ExternServer × Sys U) × (accept_one dtable cfd o s ≡ some r) × Accepts cfd o s r
unfolding accept_one create_proxy create_proxy_to send queue_message
accept_one-Accepts {U = U} dtable cfd o s serving room fd exported =
    let factory = find_factory dtable s.registry Iids.extern in
    let h : Proxy = record { interface = Iids.extern; src = o.reply.src; dest = free_oid s.omap } in
    let free = free_oid-FirstFree s.omap serving.sorted room in
    let d =
      open_extern-Delivers o.reply.src (free_oid s.omap) cfd extern_server Iids.null o.exported fd
        (omega arith) (omega arith) exported in
    let fresh : All (λ (c : Proxy). c.dest ≢ free_oid s.omap) o.pconn =
      All-map o.pconn
        (λ (c : Proxy) (linked : links_to c.dest s.omap ≢ []) (same : c.dest ≡ free_oid s.omap).
          linked (ap (λ oid. links_to oid s.omap) same ∙ free.free))
        serving.linked in
    let kept_links : All (λ (c : Proxy). links_to c.dest (create_link_to s.omap factory h) ≢ [])
        o.pconn =
      All-map o.pconn (λ c. links_to-kept s.omap factory h serving.sorted c.dest) serving.linked in
    let t : Sys U = record s { omap = create_link_to s.omap factory h } in
    (
      (record o { pconn = o.pconn ++ (h ∷ []) }, queue_message d.message t),
      rw (d.sent) refl,
      record {
        proxy = h;
        message = d.message;
        serving = record {
          distinct = AreDistinct-snoc (λ (c : Proxy). c.dest) o.pconn h serving.distinct fresh;
          linked = All-snoc _ o.pconn h kept_links (links_to-new s.omap factory h serving.sorted);
          sorted = (create_link_to-Entered s.omap factory h serving.sorted).sorted;
        };
        kept = refl;
        fresh = free.free;
        sent = refl;
        header = d.header;
        opens = d.called;
      },
    )
