-- ===== src/Loop.antt =====
-- The message loop of main.c: delivery, errors and the two queues. The objects are the client's: their
-- constructors, dispatch functions and error handlers are parameters, which may change anything in the
-- state. `none` is a crash: a null dtable, a constructor that returns null, or a chain of creators that
-- does not end within the fuel.
pub mod Receipt
pub mod Forwarding
pub mod Order
pub mod Checks
pub mod Typed
use casycom.Base.{
  ℕ, zero, suc, ◌+◌, ◌-◌, ◌≡◌, Bool, true, false, not, ◌&&◌, List, [], ◌∷◌, ◌++◌, Option, none,
  some, ◌==◌, if◌then◌else◌, length, get_elem?, set,
}
use casycom.Base.Chain.{◌>>=◌, ◌>>◌, assert}
use casycom.Msg.{Msg}
use casycom.Links.{MsgLink, OMap, find_destination}
use casycom.Registry.{Dtable, Registry, find_dtable}

-- The module globals that the loop reads and writes; `user` is all that the objects keep.
pub record Sys (U : Type 0) : Type 0 where
  pub omap : OMap
  pub registry : Registry
  pub input_queue : List Msg
  pub output_queue : List Msg
  pub error : Option (List ℕ)
  pub quitting : Bool
  pub exit_code : ℕ
  pub user : U

-- The functions that the factories and dtables point to, by the addresses of those.
pub record Client (U : Type 0) : Type 0 where
  pub dtable : ℕ → List Dtable
  pub create : ℕ → Msg → Sys U → ℕ × Sys U
  pub has_error : ℕ → Bool
  pub handle : ℕ → ℕ → ℕ → Sys U → Bool × Sys U
  pub dispatch : Dtable → ℕ → Msg → Sys U → Sys U

-- "\n\t".
abbrev separator : List ℕ
separator = 10 ∷ 9 ∷ []

-- `casycom_error`, for the text that was printed.
unfoldable pub add_error : Option (List ℕ) → List ℕ → Option (List ℕ)
add_error none e = some e
add_error (some old) e = some (old ++ (separator ++ e))

-- `*casycom_find_destination (oid)`.
unfoldable pub link_to : OMap → ℕ → Option MsgLink
link_to omap oid = find_destination omap oid >>= get_elem? omap

module _ {U : Type 0} where
  unfoldable pub queue_message : Msg → Sys U → Sys U
  queue_message msg s = record s { output_queue = s.output_queue ++ (msg ∷ []) }

  unfoldable pub quit : ℕ → Sys U → Sys U
  quit exit_code s = record s { exit_code = exit_code; quitting = true }

  -- `ml->o && ml->factory->error && ml->factory->error (ml->o, eoid, _casycom_error)`.
  unfoldable pub handles : Client U → MsgLink → ℕ → Sys U → Bool × Sys U
  handles client ml eoid s =
      if not (ml.o == 0) && client.has_error ml.factory
      then client.handle ml.factory ml.o eoid s
      else (false, s)

  -- `xfree (_casycom_error)`.
  unfoldable pub clear_error : Sys U → Sys U
  clear_error s = record s { error = none }

  -- `casycom_forward_error`, one call for each unit of fuel; `failed` is what is left to do when the
  -- object has not handled the error.
  unfoldable pub after_handler :
      Bool × Sys U → (Sys U → Option (Bool × Sys U)) → Option (Bool × Sys U)
  after_handler (true, s) failed = some (true, clear_error s)
  after_handler (false, s) failed = failed s

  unfoldable pub forward_error : Client U → ℕ → ℕ → ℕ → Sys U → Option (Bool × Sys U)
  unfolding after_handler
  forward_error client zero oid eoid s = none
  forward_error client (suc fuel) oid eoid s = elim (link_to s.omap oid) [
    | none ↦ some (false, s)
    | some ml ↦
        after_handler (handles client ml eoid s)
          (λ t. do assert (not (ml.h.src == oid)); forward_error client fuel ml.h.src oid t)
  ]

  -- `casycom_find_or_create_destination`: a constructor may change the links, so the link is looked up
  -- again. Null where there is none.
  unfoldable pub enter_object : Sys U → ℕ → ℕ → MsgLink → Option MsgLink × Sys U
  enter_object s i o ml =
      if ml.o == 0
      then (some (record ml { o = o }), record s { omap = set s.omap i (record ml { o = o }) })
      else (some ml, s)

  unfoldable pub found_again : Sys U → ℕ → Option ℕ → Option MsgLink × Sys U
  unfolding enter_object
  found_again s o none = (none, s)
  found_again s o (some i) = elim (get_elem? s.omap i) [
    | none ↦ (none, s)
    | some ml ↦ enter_object s i o ml
  ]

  unfoldable pub create_destination :
      Client U → Msg → MsgLink → Sys U → Option (Option MsgLink × Sys U)
  unfolding found_again
  create_destination client msg ml s = do
    let (o, t) = client.create ml.factory msg s
    assert (not (o == 0))
    some (found_again t o (find_destination t.omap msg.h.dest))

  unfoldable pub find_or_create_destination :
      Client U → Msg → Sys U → Option (Option MsgLink × Sys U)
  unfolding create_destination
  find_or_create_destination client msg s = elim (link_to s.omap msg.h.dest) [
    | none ↦ some (none, s)
    | some ml ↦ if ml.o == 0 then create_destination client msg ml s else some (some ml, s)
  ]

  -- After a message: whether the loop goes on.
  after_error : Bool × Sys U → Bool × Sys U
  after_error (true, s) = (true, s)
  after_error (false, s) = (false, quit 1 s)

  unfoldable pub check_of : Client U → ℕ → ℕ → Option (List ℕ) → Sys U → Option (Bool × Sys U)
  unfolding after_error
  check_of client fuel dest none s = some (true, s)
  check_of client fuel dest (some e) s = do
    r ← forward_error client fuel dest dest s
    some (after_error r)

  unfoldable pub check_error : Client U → ℕ → ℕ → Sys U → Option (Bool × Sys U)
  unfolding check_of
  check_error client fuel dest s = check_of client fuel dest s.error s

  -- One message of the input queue.
  unfoldable pub deliver_to : Client U → ℕ → Msg → Option MsgLink × Sys U → Option (Bool × Sys U)
  deliver_to client fuel msg (none, s) = some (true, s)
  deliver_to client fuel msg (some ml, s) = do
    d ← find_dtable client.dtable s.registry ml.factory msg.h.interface
    check_error client fuel msg.h.dest (client.dispatch d ml.o msg s)

  unfoldable pub deliver : Client U → ℕ → Msg → Sys U → Option (Bool × Sys U)
  unfolding deliver_to
  deliver client fuel msg s = do
    r ← find_or_create_destination client msg s
    deliver_to client fuel msg r

  unfoldable pub go_on : (Sys U → Option (Sys U)) → Bool × Sys U → Option (Sys U)
  go_on rest (true, t) = rest t
  go_on rest (false, t) = some t

  unfoldable pub deliver_all : Client U → ℕ → List Msg → Sys U → Option (Sys U)
  unfolding go_on
  deliver_all client fuel [] s = some s
  deliver_all client fuel (msg ∷ msgs) s =
      deliver client fuel msg s >>= go_on (deliver_all client fuel msgs)

  unfoldable pub do_message_queues : Client U → ℕ → Sys U → Option (Sys U)
  unfolding deliver_all
  do_message_queues client fuel s = do
    t ← deliver_all client fuel s.input_queue s
    some (record t { input_queue = t.output_queue; output_queue = [] })
