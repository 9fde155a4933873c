-- ===== src/Loop/Order.antt =====
-- A round of the loop receives each message of the input queue, and keeps the order of those queued meanwhile.
use casycom.Base.{ℕ, ◌≡◌, ◌≢◌, Bool, true, List, [], ◌++◌, Option, none, some}
use casycom.Msg.{Msg}
use casycom.Registry.{Dtable, Registry, find_dtable}
use casycom.Loop.Receipt.{Receives, ReceivesAll}
use casycom.Loop.{Sys, Client}

module _ {U : Type 0} where
  -- What running an object may do to the state: it queues messages behind those that are there, and
  -- leaves no error where there was none.
  pub record Later (s t : Sys U) : Type 0 where
    pub sent : List Msg
    pub queued : t.output_queue ≡ s.output_queue ++ sent
    pub no_error : s.error ≡ none → t.error ≡ none

  pub record IsOrderly (client : Client U) : Type 0 where
    pub create_valid : (f : ℕ) (msg : Msg) (s : Sys U) → (client.create f msg s).0 ≢ 0
    pub create_later : (f : ℕ) (msg : Msg) (s : Sys U) → Later s (client.create f msg s).1
    pub dispatch_later :
        (d : Dtable) (o : ℕ) (msg : Msg) (s : Sys U) → Later s (client.dispatch d o msg s)

  -- Every class has the interface of the message.
  abbrev pub IsSupported : Client U → Msg → Type 0
  IsSupported client msg =
      (r : Registry) (f : ℕ) → find_dtable client.dtable r f msg.h.interface ≢ none

  module _ (client : Client U) (ok : IsOrderly client) (fuel : ℕ) where
    -- The message is received, and the loop goes on.
    abbrev Goes : Msg → Sys U → Option (Bool × Sys U) → Type 0
    Goes msg s r = (t : Sys U) × (r ≡ some (true, t)) × Later s t × Receives client msg s t

  -- What a round leaves: each message of the input queue has been received, in order, up to the state
  -- `last`. What was sent meanwhile is in its output queue behind the messages that were there before, and
  -- this queue is the input of the next round.
  pub record Round (client : Client U) (s : Sys U) (result : Option (Sys U)) : Type 0 where
    pub last : Sys U
    pub received : ReceivesAll client s.input_queue s last
    pub sent : List Msg
    pub queued : last.output_queue ≡ s.output_queue ++ sent
    pub returns : result ≡ some (record last { input_queue = last.output_queue; output_queue = [] })
