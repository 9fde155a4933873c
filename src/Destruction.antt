-- ===== src/Destruction.antt =====
-- The destruction of links and objects, main.c. The destructors and the handlers that hear of a
-- destruction are the client's, and may change anything in the state. `none` is a crash, or a cascade that
-- does not end within the fuel.
pub mod Cascade
pub mod Marks
pub mod Unused
use casycom.Base.{
  ℕ, zero, suc, ◌+◌, ◌-◌, ◌%◌, Bool, true, false, not, ◌&&◌, leb, List, [], ◌∷◌, ◌++◌, Option, none,
  some, ◌==◌, if◌then◌else◌, length, get_elem?, set, take, drop,
}
use casycom.Base.Chain.{◌>>=◌, ◌>>◌, assert}
use casycom.Msg.{Proxy, oid_broadcast}
use casycom.Links.{MsgLink, OMap, link_for_proxy, find_destination}
use casycom.Loop.{Sys, link_to}

-- `destroy` is the factory's destructor, or `free` where it has none.
pub record Destructors (U : Type 0) : Type 0 where
  pub destroy : ℕ → ℕ → Sys U → Sys U
  pub has_destroyed : ℕ → Bool
  pub object_destroyed : ℕ → ℕ → ℕ → Sys U → Sys U

-- `vector_erase (&_casycom_omap, l)`.
unfoldable pub erase_link : OMap → ℕ → OMap
erase_link omap l = take l omap ++ drop (l + 1) omap

-- The room of `oid_t callers [16]`.
abbrev pub max_callers : ℕ
max_callers = 16

-- The objects that call the object `oid`.
unfoldable pub callers : OMap → ℕ → List ℕ
callers [] oid = []
callers (cl ∷ ls) oid =
    if (cl.h.dest == oid) && not (cl.h.src == oid_broadcast)
    then cl.h.src ∷ callers ls oid
    else callers ls oid

-- The first link from the object, by index.
unfoldable pub link_of_source : OMap → ℕ → ℕ → Option ℕ
link_of_source [] oid di = none
link_of_source (l ∷ ls) oid di = if l.h.src == oid then some di else link_of_source ls oid (di + 1)

-- The first object marked unused, by index.
unfoldable pub unused_from : OMap → ℕ → Option (ℕ × MsgLink)
unused_from [] i = none
unused_from (l ∷ ls) i = if l.flags % 2 == 1 then some (i, l) else unused_from ls (i + 1)

module _ {U : Type 0} where
  unfoldable pub notify_one : Destructors U → ℕ → Option MsgLink → Sys U → Sys U
  notify_one d oid none s = s
  notify_one d oid (some cl) s =
      if d.has_destroyed cl.factory then d.object_destroyed cl.factory cl.o oid s else s

  unfoldable pub notify : Destructors U → ℕ → List ℕ → Sys U → Sys U
  unfolding notify_one
  notify d oid [] s = s
  notify d oid (c ∷ cs) s = notify d oid cs (notify_one d oid (link_to s.omap c) s)

  -- The two passes over the callers. The first one writes past the end of its array when there are
  -- more than 16.
  unfoldable pub notify_callers : Destructors U → ℕ → Sys U → Option (Sys U)
  unfolding notify callers
  notify_callers d oid s = do
    assert (leb (length (callers s.omap oid)) max_callers)
    some (notify d oid (callers s.omap oid) s)

  -- `casycom_destroy_object` before it erases the links from the object.
  unfoldable pub announce : Destructors U → MsgLink → Sys U → Option (Sys U)
  unfolding notify_callers
  announce d ol s = notify_callers d ol.h.dest (d.destroy ol.factory ol.o s)

  -- `casycom_destroy_object`, for the loop that erases all links from an object.
  unfoldable pub destroy_object_by :
      Destructors U → (ℕ → Sys U → Option (Sys U)) → MsgLink → Sys U → Option (Sys U)
  unfolding announce
  destroy_object_by d erase ol s =
      if ol.o == 0 then some s else (announce d ol s >>= erase ol.h.dest)

  -- `casycom_destroy_link_at`, for that loop.
  unfoldable pub destroy_link_by :
      Destructors U → (ℕ → Sys U → Option (Sys U)) → ℕ → Sys U → Option (Sys U)
  unfolding destroy_object_by erase_link
  destroy_link_by d erase l s = elim (get_elem? s.omap l) [
    | none ↦ some s
    | some ol ↦ destroy_object_by d erase ol (record s { omap = erase_link s.omap l })
  ]

  -- The loop of `casycom_destroy_object`. It starts over after each link.
  unfoldable pub erase_from : Destructors U → ℕ → ℕ → Sys U → Option (Sys U)
  unfolding destroy_link_by link_of_source
  erase_from d zero oid s = none
  erase_from d (suc fuel) oid s = elim (link_of_source s.omap oid 0) [
    | none ↦ some s
    | some di ↦ destroy_link_by d (erase_from d fuel) di s >>= erase_from d fuel oid
  ]

  unfoldable pub destroy_object : Destructors U → ℕ → MsgLink → Sys U → Option (Sys U)
  unfolding destroy_object_by erase_from
  destroy_object d fuel ol s = destroy_object_by d (erase_from d fuel) ol s

  unfoldable pub destroy_link_at : Destructors U → ℕ → ℕ → Sys U → Option (Sys U)
  unfolding destroy_link_by erase_from
  destroy_link_at d fuel l s = destroy_link_by d (erase_from d fuel) l s

  -- The proxy is cleared. An index past the end, as for an unknown proxy, destroys nothing.
  unfoldable pub destroy_proxy : Destructors U → ℕ → Proxy → Sys U → Option (Proxy × Sys U)
  unfolding destroy_link_at link_for_proxy
  destroy_proxy d fuel pp s = do
    t ← destroy_link_at d fuel (link_for_proxy s.omap pp) s
    some (record { interface = 0; src = 0; dest = 0 }, t)

  -- `ol->o = NULL` and `ol->flags = 0`, and what comes then, where `ol` points to the place `i` of the
  -- table, in which the destructor may have moved the links. A place past its end is a crash.
  unfoldable pub clear_link : Destructors U → ℕ → ℕ → Option MsgLink → Sys U → Option (Sys U)
  unfolding notify_callers erase_from
  clear_link d fuel i none s = none
  clear_link d fuel i (some l) s =
      notify_callers d l.h.dest (record s { omap = set s.omap i (record l { o = 0; flags = 0 }) })
      >>= erase_from d fuel l.h.dest

  -- `casycom_destroy_object` of a link in the table: it clears the link between the destructor and the
  -- notifications. A marked link without an object stays marked.
  unfoldable pub destroy_in_place : Destructors U → ℕ → ℕ → MsgLink → Sys U → Option (Sys U)
  unfolding clear_link
  destroy_in_place d fuel i ol s =
      if ol.o == 0
      then some s
      else (let t = d.destroy ol.factory ol.o s in clear_link d fuel i (get_elem? t.omap i) t)

  -- `casycom_destroy_unused_objects`; it starts over after each object.
  unfoldable pub destroy_unused_objects : Destructors U → ℕ → ℕ → Sys U → Option (Sys U)
  unfolding unused_from destroy_in_place
  destroy_unused_objects d fuel zero s = none
  destroy_unused_objects d fuel (suc rounds) s = elim (unused_from s.omap 0) [
    | none ↦ some s
    | some found ↦
        destroy_in_place d fuel found.0 found.1 s >>= destroy_unused_objects d fuel rounds
  ]
