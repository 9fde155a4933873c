-- ===== src/Links.antt =====
-- The routing table of main.c, `_casycom_omap`: its links in order, and the functions that search it
-- and enter links. The vector is the list of its elements (`Vector` shows what its operations do to
-- them).
pub mod Search
pub mod Order
pub mod Entry
pub mod Fresh
use casycom.Base.{
  ℕ, zero, suc, ◌+◌, ◌-◌, ◌%◌, ◌^◌, ◌<◌, ◌≤◌, ◌≡◌, Bool, true, false, List, [], ◌∷◌, ◌++◌, Option,
  none, some, ltb, leb, ◌==◌, ◌&&◌, if◌then◌else◌, length, get_elem?, take, drop,
}
use casycom.Base.Bisect.{bisect}
use casycom.Msg.{Proxy, oid_first, oid_broadcast}

-- `o` and `factory` are addresses, 0 for null.
pub record MsgLink : Type 0 where
  pub o : ℕ
  pub factory : ℕ
  pub h : Proxy
  pub flags : ℕ

abbrev pub OMap : Type 0
OMap = List MsgLink

abbrev pub size_max : ℕ
size_max = 2 ^ 64 - 1

-- `_casycom_omap.d[m].h.dest < oid`; `m` is always inside.
unfoldable pub before : OMap → ℕ → ℕ → Bool
before omap oid m = elim (get_elem? omap m) [ none ↦ false | some l ↦ ltb l.h.dest oid ]

-- The size of the table is fuel enough for the search, whatever the order of the links.
unfoldable pub omap_lower_bound : OMap → ℕ → ℕ
omap_lower_bound omap oid = elim (bisect (length omap + 1) (before omap oid) 0 (length omap)) [
  | none ↦ 0
  | some first ↦ first
]

-- The loop of `casycom_link_for_proxy`, over the links from index `l` on.
unfoldable pub link_from : OMap → ℕ → Proxy → ℕ
link_from [] l ph = size_max
link_from (e ∷ es) l ph =
    let rest = link_from es (l + 1) ph in
    if e.h.dest == ph.dest then (if e.h.src == ph.src then l else rest) else size_max

unfoldable pub link_for_proxy : OMap → Proxy → ℕ
unfolding omap_lower_bound link_from
link_for_proxy omap ph =
    let first = omap_lower_bound omap ph.dest in link_from (drop first omap) first ph

-- The index of the link, or the null pointer.
unfoldable pub link_for_object_from : OMap → ℕ → ℕ → Option ℕ
link_for_object_from [] dp o = none
link_for_object_from (e ∷ es) dp o =
    let rest = link_for_object_from es (dp + 1) o in if e.o == o then some dp else rest

unfoldable pub link_for_object : OMap → ℕ → Option ℕ
unfolding link_for_object_from
link_for_object omap o = link_for_object_from omap 0 o

-- The place, if the link there leads to `doid`.
unfoldable pub place_of : Option MsgLink → ℕ → ℕ → Option ℕ
place_of none dp doid = none
place_of (some l) dp doid = if l.h.dest == doid then some dp else none

unfoldable pub find_destination : OMap → ℕ → Option ℕ
unfolding place_of
find_destination omap doid =
    let dp = omap_lower_bound omap doid in place_of (get_elem? omap dp) dp doid

-- `while (ip < size && d[ip].h.dest == dest) ++ip;` over the links from index `ip` on.
unfoldable pub past_block : OMap → ℕ → ℕ → ℕ
past_block [] ip dest = ip
past_block (e ∷ es) ip dest =
    let rest = past_block es (ip + 1) dest in if e.h.dest == dest then rest else ip

-- `vector_emplace`, and the new element's fields.
unfoldable pub emplace_at : OMap → ℕ → MsgLink → OMap
emplace_at omap ip e = take ip omap ++ (e ∷ drop ip omap)

abbrev pub new_link : ℕ → Proxy → MsgLink
new_link factory h = record { o = 0; factory = factory; h = h; flags = 0 }

-- `casycom_create_proxy_to`, for the factory that was found for the interface.
unfoldable pub create_link_to : OMap → ℕ → Proxy → OMap
unfolding omap_lower_bound past_block emplace_at
create_link_to omap factory h =
    let first = omap_lower_bound omap h.dest in
    emplace_at omap (past_block (drop first omap) first h.dest) (new_link factory h)

-- The loop of `casycom_create_proxy`; an `oid_t` has sixteen bits.
unfoldable pub free_oid_from : OMap → ℕ → ℕ
free_oid_from [] nid = nid
free_oid_from (e ∷ es) nid =
    let rest = free_oid_from es (if nid == e.h.dest then (nid + 1) % 2 ^ 16 else nid) in
    if ltb nid e.h.dest then nid else rest

unfoldable pub free_oid : OMap → ℕ
unfolding free_oid_from
free_oid [] = oid_first
free_oid (e ∷ es) = free_oid_from (e ∷ es) e.h.dest

-- `flags |= 1 << f_Unused`.
abbrev pub mark : MsgLink → MsgLink
mark l = record l { flags = if l.flags % 2 == 1 then l.flags else l.flags + 1 }

-- The loop and the mark in one: the first link that has the object.
unfoldable pub mark_unused : OMap → ℕ → OMap
mark_unused [] o = []
mark_unused (l ∷ ls) o = if l.o == o then mark l ∷ ls else l ∷ mark_unused ls o

-- `casycom_oid_of_object`.
unfoldable pub oid_of_object : OMap → ℕ → ℕ
unfolding link_for_object
oid_of_object omap o = oid_at (link_for_object omap o)
  where
    dest_of : Option MsgLink → ℕ
    dest_of none = oid_broadcast
    dest_of (some l) = l.h.dest

    oid_at : Option ℕ → ℕ
    oid_at none = oid_broadcast
    oid_at (some i) = dest_of (get_elem? omap i)

-- `casycom_create_proxy`, for the factory that was found for the interface.
unfoldable pub create_link : OMap → ℕ → ℕ → ℕ → OMap
unfolding free_oid create_link_to
create_link omap factory interface src =
    create_link_to omap factory (record { interface = interface; src = src; dest = free_oid omap })
