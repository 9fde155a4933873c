-- ===== src/Loop/Receipt.antt =====
-- What becomes of a message that the loop takes from the input queue, told by the links and classes of the
-- state and by what the objects do.
use casycom.Base.{ℕ, ◌≡◌, ◌≢◌, List, [], ◌∷◌, none, some, get_elem?, set}
use casycom.Msg.{Msg}
use casycom.Links.{MsgLink, find_destination}
use casycom.Registry.{Dtable, find_dtable}
use casycom.Loop.{Sys, Client, link_to}

module _ {U : Type 0} (client : Client U) where
  -- The object that the constructor of `ml`'s class makes, and the state then.
  abbrev pub made : MsgLink → Msg → Sys U → ℕ × Sys U
  made ml msg s = client.create ml.factory msg s

  -- The state after the constructor, with the object entered in its link.
  abbrev pub entered : MsgLink → MsgLink → ℕ → Msg → Sys U → Sys U
  entered ml ml' i msg s = record (made ml msg s).1 {
    omap = set (made ml msg s).1.omap i (record ml' { o = (made ml msg s).0 });
  }

  -- The table `d` is given the message, which leaves `u`: for the object of the link to the destination,
  -- for a new object that is entered in the link, or for one that the constructor has entered itself.
  pub data Dispatches (msg : Msg) (s u : Sys U) (d : Dtable) : Type 0 where
    to_object :
        (ml : MsgLink)
        → link_to s.omap msg.h.dest ≡ some ml
        → ml.o ≢ 0
        → find_dtable client.dtable s.registry ml.factory msg.h.interface ≡ some d
        → u ≡ client.dispatch d ml.o msg s
        → Dispatches msg s u d
    to_new :
        (ml ml' : MsgLink) (i : ℕ)
        → link_to s.omap msg.h.dest ≡ some ml
        → ml.o ≡ 0
        → find_destination (made ml msg s).1.omap msg.h.dest ≡ some i
        → get_elem? (made ml msg s).1.omap i ≡ some ml'
        → ml'.o ≡ 0
        → find_dtable client.dtable (made ml msg s).1.registry ml'.factory msg.h.interface ≡ some d
        → u ≡ client.dispatch d (made ml msg s).0 msg (entered ml ml' i msg s)
        → Dispatches msg s u d
    to_entered :
        (ml ml' : MsgLink)
        → link_to s.omap msg.h.dest ≡ some ml
        → ml.o ≡ 0
        → link_to (made ml msg s).1.omap msg.h.dest ≡ some ml'
        → ml'.o ≢ 0
        → find_dtable client.dtable (made ml msg s).1.registry ml'.factory msg.h.interface ≡ some d
        → u ≡ client.dispatch d ml'.o msg (made ml msg s).1
        → Dispatches msg s u d

  -- A message is dispatched, unless there is no link to its destination, or none after the constructor.
  pub data Receives (msg : Msg) (s u : Sys U) : Type 0 where
    unlinked : link_to s.omap msg.h.dest ≡ none → u ≡ s → Receives msg s u
    unlinked_by :
        (ml : MsgLink)
        → link_to s.omap msg.h.dest ≡ some ml
        → ml.o ≡ 0
        → link_to (made ml msg s).1.omap msg.h.dest ≡ none
        → u ≡ (made ml msg s).1
        → Receives msg s u
    dispatched : (d : Dtable) → Dispatches msg s u d → Receives msg s u

  -- The messages of a list are received one after the other.
  pub data ReceivesAll : List Msg → Sys U → Sys U → Type 0 where
    no_more : {s : Sys U} → ReceivesAll [] s s
    one_more :
        {msg : Msg} {msgs : List Msg} {s t : Sys U} (u : Sys U)
        → Receives msg s u
        → ReceivesAll msgs u t
        → ReceivesAll (msg ∷ msgs) s t
