-- ===== src/Externs/Conns.antt =====
-- The connections of an Extern: their extids and their objects are distinct, and each has a link.
use casycom.Base.{
  ℕ, ◌≤◌, ◌<◌, ◌≡◌, ◌≢◌, ◌⊎◌, inl, inr, sym, ◌∙◌, Bool, true, false, List, [], ◌∷◌, ◌++◌, none,
  ◌==◌, arith, Bool-cases,
}
use casycom.Msg.{Proxy, oid_last}
use casycom.Links.{OMap, MsgLink, new_link, create_link_to}
use casycom.Links.Order.{All, IsSorted, links_to}
use casycom.Links.Entry.{create_link_to-Entered}
use casycom.Wire.{extid_client_last}
use casycom.Externs.{
  Conn, Extern, Net, conn_by_oid, conn_by_extid, erase_conn, own_extid, is_extid_refused,
}

-- No later element has the key of an earlier one.
abbrev pub AreDistinct : {A : Type 0} → (A → ℕ) → List A → Type 0
AreDistinct key [] = Unit
AreDistinct key (c ∷ cs) = All (λ d. key c ≢ key d) cs × AreDistinct key cs

-- The extid is the one that this side gives, or one that a server was given.
pub record HasOwnExtid (is_client : Bool) (c : Conn) : Type 0 where
  pub small : c.proxy.dest ≤ oid_last
  pub extid :
      (c.extid ≡ own_extid is_client c.proxy.dest)
      ⊎ ((is_client ≡ false) × (c.extid < extid_client_last))

pub record AreConnected (is_client : Bool) (omap : OMap) (conns : List Conn) : Type 0 where
  pub extids : AreDistinct (λ (c : Conn). c.extid) conns
  pub oids : AreDistinct (λ (c : Conn). c.proxy.dest) conns
  pub own : All (HasOwnExtid is_client) conns
  pub linked : All (λ (c : Conn). links_to c.proxy.dest omap ≢ []) conns

-- The table of an Extern is in order, and so is the table of links.
pub record IsInOrder {U : Type 0} (o : Extern) (n : Net U) : Type 0 where
  pub connected : AreConnected o.info.is_client n.sys.omap o.conns
  pub sorted : IsSorted n.sys.omap

pub All-map :
    {A : Type 0} {P Q : A → Type 0} (cs : List A) → ((c : A) → P c → Q c) → All P cs → All Q cs
All-map [] f a = tt
All-map (c ∷ cs) f a = (f c a.0, All-map cs f a.1)

pub All-map2 :
    {A : Type 0} (P Q R : A → Type 0) (cs : List A)
    → ((c : A) → P c → Q c → R c)
    → All P cs
    → All Q cs
    → All R cs
All-map2 P Q R [] f a b = tt
All-map2 P Q R (c ∷ cs) f a b = (f c a.0 b.0, All-map2 P Q R cs f a.1 b.1)

pub All-snoc :
    {A : Type 0} (P : A → Type 0) (cs : List A) (x : A) → All P cs → P x → All P (cs ++ (x ∷ []))
All-snoc P [] x a h = (h, tt)
All-snoc P (c ∷ cs) x a h = (a.0, All-snoc P cs x a.1 h)

pub AreDistinct-snoc :
    {A : Type 0} (key : A → ℕ) (cs : List A) (x : A)
    → AreDistinct key cs
    → All (λ c. key c ≢ key x) cs
    → AreDistinct key (cs ++ (x ∷ []))
AreDistinct-snoc key [] x d a = (tt, tt)
AreDistinct-snoc key (c ∷ cs) x d a = (All-snoc _ cs x d.0 a.0, AreDistinct-snoc key cs x d.1 a.1)

All-erase_conn :
    (P : Conn → Type 0) (cs : List Conn) (oid : ℕ) → All P cs → All P (erase_conn cs oid)
unfolding erase_conn
All-erase_conn P [] oid a = tt
All-erase_conn P (c ∷ cs) oid a = elim (Bool-cases (c.proxy.dest == oid)) [
  | inl e ↦ rw e a.1
  | inr e ↦ rw e (a.0, All-erase_conn P cs oid a.1)
]

AreDistinct-erase_conn :
    (key : Conn → ℕ) (cs : List Conn) (oid : ℕ)
    → AreDistinct key cs
    → AreDistinct key (erase_conn cs oid)
unfolding erase_conn
AreDistinct-erase_conn key [] oid d = tt
AreDistinct-erase_conn key (c ∷ cs) oid d = elim (Bool-cases (c.proxy.dest == oid)) [
  | inl e ↦ rw e d.1
  | inr e ↦ rw e (All-erase_conn _ cs oid d.0, AreDistinct-erase_conn key cs oid d.1)
]

pub AreConnected-erase_conn :
    (is_client : Bool) (omap : OMap) (cs : List Conn) (oid : ℕ)
    → AreConnected is_client omap cs
    → AreConnected is_client omap (erase_conn cs oid)
AreConnected-erase_conn is_client omap cs oid a = record {
  extids = AreDistinct-erase_conn _ cs oid a.extids;
  oids = AreDistinct-erase_conn _ cs oid a.oids;
  own = All-erase_conn _ cs oid a.own;
  linked = All-erase_conn _ cs oid a.linked;
}

-- No connection has the oid, or the extid, that was looked for in vain.
pub conn_by_oid-none :
    (cs : List Conn) (oid : ℕ)
    → conn_by_oid cs oid ≡ none
    → All (λ (c : Conn). c.proxy.dest ≢ oid) cs
unfolding conn_by_oid
conn_by_oid-none [] oid h = tt
conn_by_oid-none (c ∷ cs) oid h = elim (Bool-cases (c.proxy.dest == oid)) [
  | inl e ↦ absurd (let q = rw e at h in cc)
  | inr e ↦ (ground (arith, e), conn_by_oid-none cs oid (rw e at h))
]

pub conn_by_extid-none :
    (cs : List Conn) (extid : ℕ)
    → conn_by_extid cs extid ≡ none
    → All (λ (c : Conn). c.extid ≢ extid) cs
unfolding conn_by_extid
conn_by_extid-none [] extid h = tt
conn_by_extid-none (c ∷ cs) extid h = elim (Bool-cases (c.extid == extid)) [
  | inl e ↦ absurd (let q = rw e at h in cc)
  | inr e ↦ (ground (arith, e), conn_by_extid-none cs extid (rw e at h))
]

append_one : (xs : OMap) (x : MsgLink) → xs ++ (x ∷ []) ≢ []
append_one [] x h = cc
append_one (y ∷ xs) x h = cc

module _ (omap : OMap) (factory : ℕ) (h : Proxy) (s : IsSorted omap) where
  pub links_to-new : links_to h.dest (create_link_to omap factory h) ≢ []
  links_to-new e =
      let entered = create_link_to-Entered omap factory h s in
      append_one (links_to h.dest omap) (new_link factory h) (sym entered.last_to_dest ∙ e)

  -- A link that is entered takes none away.
  pub links_to-kept :
      (dest : ℕ) → links_to dest omap ≢ [] → links_to dest (create_link_to omap factory h) ≢ []
  links_to-kept dest some_link none_left =
      let entered = create_link_to-Entered omap factory h s in
      elim (Bool-cases (h.dest == dest)) [
        | inl hit ↦
            let same : dest ≡ h.dest = ground (arith, hit) in links_to-new (rw same at none_left)
        | inr miss ↦ some_link (sym (entered.others dest (ground (arith, miss))) ∙ none_left)
      ]

-- A new connection, whose oid and extid no other has.
pub AreConnected-snoc :
    (is_client : Bool) (omap : OMap) (factory : ℕ) (h : Proxy) (cs : List Conn) (extid : ℕ)
    → let new : Conn = record { proxy = h; extid = extid } in
      IsSorted omap
      → AreConnected is_client omap cs
      → All (λ (c : Conn). c.proxy.dest ≢ h.dest) cs
      → All (λ (c : Conn). c.extid ≢ extid) cs
      → HasOwnExtid is_client new
      → AreConnected is_client (create_link_to omap factory h) (cs ++ (new ∷ []))
AreConnected-snoc is_client omap factory h cs extid s a oids extids own =
    let new : Conn = record { proxy = h; extid = extid } in
    record {
      extids = AreDistinct-snoc _ cs new a.extids extids;
      oids = AreDistinct-snoc _ cs new a.oids oids;
      own = All-snoc _ cs new a.own own;
      linked =
          All-snoc _ cs new (All-map cs (λ c. links_to-kept omap factory h s c.proxy.dest) a.linked)
            (links_to-new omap factory h s);
    }

-- The extids that one side gives are distinct, and distinct from those that a server was given.
pub HasOwnExtid-new :
    (is_client : Bool) (oid : ℕ) (c : Conn)
    → oid ≤ oid_last
    → HasOwnExtid is_client c
    → c.proxy.dest ≢ oid
    → c.extid ≢ own_extid is_client oid
unfolding own_extid
HasOwnExtid-new true oid c small own ne e = elim own.extid [
  | inl q ↦ ne (omega (arith, own.small, small, q, e))
  | inr (q, lt) ↦ cc
]
HasOwnExtid-new false oid c small own ne e = elim own.extid [
  | inl q ↦ ne (omega (arith, own.small, small, q, e))
  | inr (q, lt) ↦ omega (arith, small, e, lt)
]

-- A client takes no extid, and a server only those of the clients.
pub is_extid_refused-client : (extid : ℕ) → is_extid_refused true extid ≡ true
unfolding is_extid_refused
is_extid_refused-client extid = ground arith

pub is_extid_refused-server :
    (extid : ℕ) → is_extid_refused false extid ≡ false → extid < extid_client_last
unfolding is_extid_refused
is_extid_refused-server extid h = ground (arith, h)
