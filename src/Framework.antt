-- ===== src/Framework.antt =====
-- What objects call in the framework: the functions of main.c and main.h that make proxies and links, and
-- the marks, messages and errors, on the state of the message loop. `dtable` gives the dtables of the
-- factory at an address.
use casycom.Base.{ℕ, List, Option, none, some}
use casycom.Msg.{Proxy, Msg}
use casycom.Links.{free_oid, create_link_to, mark_unused}
use casycom.Registry.{Dtable, find_factory}
use casycom.Loop.{Sys, queue_message, add_error}

module _ {U : Type 0} where
  unfoldable pub create_proxy_to : (ℕ → List Dtable) → ℕ → ℕ → ℕ → Sys U → Proxy × Sys U
  create_proxy_to dtable iid src dest s =
      let h : Proxy = record { interface = iid; src = src; dest = dest } in
      (h, record s { omap = create_link_to s.omap (find_factory dtable s.registry iid) h })

  unfoldable pub create_proxy : (ℕ → List Dtable) → ℕ → ℕ → Sys U → Proxy × Sys U
  unfolding create_proxy_to
  create_proxy dtable iid src s = create_proxy_to dtable iid src (free_oid s.omap) s

  unfoldable pub create_reply_proxy : (ℕ → List Dtable) → ℕ → Msg → Sys U → Proxy × Sys U
  unfolding create_proxy_to
  create_reply_proxy dtable iid msg s = create_proxy_to dtable iid msg.h.dest msg.h.src s

  -- For the object at the address `o`.
  unfoldable pub mark_object : ℕ → Sys U → Sys U
  mark_object o s = record s { omap = mark_unused s.omap o }

  unfoldable pub raise : List ℕ → Sys U → Sys U
  unfolding add_error
  raise e s = record s { error = add_error s.error e }

  -- `casymsg_end`, for a message that a stub has made.
  unfoldable pub send : Option Msg → Sys U → Option (Sys U)
  unfolding queue_message
  send none s = none
  send (some msg) s = some (queue_message msg s)
