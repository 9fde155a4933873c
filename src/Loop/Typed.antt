-- ===== src/Loop/Typed.antt =====
-- What becomes of a message that has passed the checks of `casycom_queue_message`.
use casycom.Base.{ℕ, ◌≡◌, ◌≢◌, Option, none, some}
use casycom.Iids
use casycom.Msg.{Msg}
use casycom.Registry.{Dtable}
use casycom.Loop.{Sys, Client, link_to, check_error, deliver}
use casycom.Loop.Receipt.{Dispatches}

abbrev or_else : {U : Type 0} → Sys U → Option (Sys U) → Sys U
or_else s none = s
or_else s (some t) = t

module _ {U : Type 0} where
  -- A constructor for the message returns an object, and leaves the link to the message's destination and the
  -- classes as they are. It may make other links.
  pub record KeepsLink (client : Client U) (msg : Msg) (s : Sys U) : Type 0 where
    pub valid : (f : ℕ) → (client.create f msg s).0 ≢ 0
    pub link :
        (f : ℕ) → link_to (client.create f msg s).1.omap msg.h.dest ≡ link_to s.omap msg.h.dest
    pub registry : (f : ℕ) → (client.create f msg s).1.registry ≡ s.registry

  -- The table is given the message, for the object of the destination, and then the error it leaves is checked.
  abbrev pub IsDispatched : Client U → ℕ → Msg → Sys U → Dtable → Type 0
  IsDispatched client fuel msg s d =
      (t : Sys U) × Dispatches client msg s t d
      × (deliver client fuel msg s ≡ check_error client fuel msg.h.dest t)
