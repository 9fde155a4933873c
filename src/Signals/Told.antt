-- ===== src/Signals/Told.antt =====
-- What the application is told of signals, and how a signal ends the main loop.
use casycom.Base.{
  ℕ, suc, ◌+◌, ◌≡◌, refl, ap, ap₂, ◌∙◌, Bool, true, false, ◌==◌, List, [], ◌∷◌, ◌++◌, Option, none,
  some, arith, length-append, inl, inr, Bool-cases,
}
use mathlib.Core.List.{append-nil}
use casycom.Base.Chain.{◌>>=◌}
use casycom.Iids
use casycom.Msg.{Msg, Proxy}
use casycom.Stm.{write_pod}
use casycom.Loop.{Sys, queue_message, quit}
use casycom.Framework.{send}
use casycom.Destruction.{unused_from, destroy_unused_objects}
use casycom.Timers.{run_timer_fire, fired, reply_all}
use casycom.Protocol.App.{app_signal}
use casycom.MainLoop.{
  Main, Host, Round, send_signal_message, run_timer, wait_for, queued, quit_if_done, idle,
  main_loop,
}
use casycom.MainLoop.Ends.{main_loop-quitting}
use casycom.Signals.{Arrival, is_quit, sigchld, on_msg_signal, arrive, shell_signal_quit_offset}

app_signal-sent :
    (pp : Proxy) (sig pid status : ℕ) → (msg : Msg) × (app_signal pp sig pid status ≡ some msg)
unfolding app_signal write_pod
app_signal-sent pp sig pid status = (_, refl)

module _ {U : Type 0} where
  -- What a signal leaves as it is, and what it sets.
  on_msg_signal-keeps :
      (a : Arrival) (m : Main U)
      → ((on_msg_signal a m).appp ≡ m.appp)
        × ((on_msg_signal a m).sys.output_queue ≡ m.sys.output_queue)
        × ((on_msg_signal a m).last_signal ≡ a.sig)
  unfolding on_msg_signal quit
  on_msg_signal-keeps a m = elim (Bool-cases (a.sig == sigchld)) [
    | inl child ↦ rw child (refl, refl, refl)
    | inr other ↦ elim (Bool-cases (is_quit a.sig)) [
      | inl quits ↦ rw (other, quits) (refl, refl, refl)
      | inr stays ↦ rw (other, stays) (refl, refl, refl)
    ]
  ]

  arrive-last :
      (arrivals : List Arrival) (a : Arrival) (m : Main U)
      → ((arrive (arrivals ++ (a ∷ [])) m).appp ≡ m.appp)
        × ((arrive (arrivals ++ (a ∷ [])) m).sys.output_queue ≡ m.sys.output_queue)
        × ((arrive (arrivals ++ (a ∷ [])) m).last_signal ≡ a.sig)
  unfolding arrive
  arrive-last [] a m = on_msg_signal-keeps a m
  arrive-last (b ∷ arrivals) a m =
      let (p, q, r) = arrive-last arrivals a (on_msg_signal b m) in
      let (p', q', r') = on_msg_signal-keeps b m in (p ∙ p', q ∙ q', r)

  -- One message is sent, and the signal is not pending any more.
  abbrev pub IsTold : Arrival → Main U → Main U → Type 0
  IsTold a m t =
      (msg : Msg) × (u : Main U) × (app_signal m.appp a.sig t.last_child_pid t.last_child_status
        ≡ some msg)
      × (send_signal_message t ≡ some u)
      × (u.sys.output_queue ≡ m.sys.output_queue ++ (msg ∷ []))
      × (u.last_signal ≡ 0)

  told :
      (a : Arrival) (m t : Main U)
      → (a.sig == 0) ≡ false
      → (m.appp.interface == Iids.null) ≡ false
      → t.appp ≡ m.appp
      → t.sys.output_queue ≡ m.sys.output_queue
      → t.last_signal ≡ a.sig
      → IsTold a m t
  unfolding send_signal_message send queue_message
  told a m t sig made appp queue last =
      let some_sig : (t.last_signal == 0) ≡ false = ap (λ s. s == 0) last ∙ sig in
      let some_app : (t.appp.interface == Iids.null) ≡ false =
        ap (λ (pp : Proxy). pp.interface == Iids.null) appp ∙ made in
      let (msg, sent) = app_signal-sent m.appp a.sig t.last_child_pid t.last_child_status in
      let e : app_signal t.appp t.last_signal t.last_child_pid t.last_child_status ≡ some msg =
        ap₂ (λ (pp : Proxy) (s : ℕ). app_signal pp s t.last_child_pid t.last_child_status) appp last
        ∙ sent in
      (
        msg,
        record t { sys = queue_message msg t.sys; last_signal = 0 },
        sent,
        rw (some_sig, some_app, e) refl,
        ap (λ (q : List Msg). q ++ (msg ∷ [])) queue,
        refl,
      )

  -- Of the signals that arrive before the loop is idle, the application, once its proxy is made, is
  -- told of the last one alone, with one message at the end of the output queue; then no signal is
  -- pending.
  pub send_signal_message-arrive :
      (arrivals : List Arrival) (a : Arrival) (m : Main U)
      → (a.sig == 0) ≡ false
      → (m.appp.interface == Iids.null) ≡ false
      → IsTold a m (arrive (arrivals ++ (a ∷ [])) m)
  send_signal_message-arrive arrivals a m sig made =
      let (p, q, r) = arrive-last arrivals a m in
      told a m (arrive (arrivals ++ (a ∷ [])) m) sig made p q r

is_quit-sigchld : (sig : ℕ) → is_quit sig ≡ true → (sig == sigchld) ≡ false
unfolding is_quit
is_quit-sigchld sig quits = ground (arith, quits)

is_quit-null : (sig : ℕ) → is_quit sig ≡ true → (sig == 0) ≡ false
unfolding is_quit
is_quit-null sig quits = ground (arith, quits)

queued-more :
    {U : Type 0} (code : ℕ) (msg : Msg) (s : Sys U)
    → (queued (queue_message msg (quit code s)) == 0) ≡ false
unfolding queued queue_message quit
queued-more code msg s = let l = length-append s.output_queue (msg ∷ []) in ground (arith, l)

-- What the loop finds in this round besides messages: no object to destroy and no watch.
pub record IsQuiet {U : Type 0} (host : Host U) (s : Sys U) : Type 0 where
  pub unused : unused_from s.omap 0 ≡ none
  pub watches : host.watches s.user ≡ []

module _ {U : Type 0} (host : Host U) (r : Round) (s : Sys U) (q : IsQuiet host s) where
  abbrev with_output : List Msg → Option (Bool × Sys U)
  with_output t = some (false, record s { output_queue = t })

  run_timer-quiet : (to_wait : ℕ) → run_timer host r to_wait s ≡ some (false, s)
  unfolding run_timer run_timer_fire fired reply_all
  run_timer-quiet to_wait = rw (q.watches) (ap with_output (append-nil s.output_queue))

  destroy-quiet :
      (fuel rounds : ℕ) → destroy_unused_objects host.destructors fuel (suc rounds) s ≡ some s
  unfolding destroy_unused_objects
  destroy-quiet fuel rounds = rw (q.unused, destroy_unused_objects) refl

  quit_if_done-more : (queued s == 0) ≡ false → quit_if_done (false, s) ≡ s
  unfolding quit_if_done
  quit_if_done-more more = rw more refl

module _ {U : Type 0} (host : Host U) (r : Round) (rs : List Round) (m : Main U) (a : Arrival)
    (fuel : ℕ) where
  abbrev after : Msg → Main U
  after msg = record m {
    sys = queue_message msg (quit (shell_signal_quit_offset + a.sig) m.sys);
    last_signal = 0;
  }

  on_msg_signal-quit :
      is_quit a.sig ≡ true
      → on_msg_signal a m
        ≡ record m { last_signal = a.sig; sys = quit (shell_signal_quit_offset + a.sig) m.sys }
  unfolding on_msg_signal
  on_msg_signal-quit quits =
      let other : (a.sig == sigchld) ≡ false = is_quit-sigchld a.sig quits in rw (other, quits) refl

  send-quit :
      (msg : Msg)
      → is_quit a.sig ≡ true
      → (m.appp.interface == Iids.null) ≡ false
      → app_signal m.appp a.sig m.last_child_pid m.last_child_status ≡ some msg
      → send_signal_message (on_msg_signal a m) ≡ some (after msg)
  unfolding send_signal_message send
  send-quit msg quits made sent =
      let some_sig : (a.sig == 0) ≡ false = is_quit-null a.sig quits in
      rw (on_msg_signal-quit quits, some_sig, made, sent) refl

  idle-quit :
      (msg : Msg)
      → host.fuel ≡ suc fuel
      → IsQuiet host m.sys
      → send_signal_message (on_msg_signal a m) ≡ some (after msg)
      → idle host r (on_msg_signal a m) ≡ some (after msg)
  unfolding idle
  idle-quit msg some_fuel q told =
      let s : Sys U = (after msg).sys in
      let quiet : IsQuiet host s = record { unused = q.unused; watches = q.watches } in
      let swept : destroy_unused_objects host.destructors host.fuel host.fuel s ≡ some s =
        rw some_fuel (destroy-quiet host r s quiet (suc fuel) fuel) in
      let more =
        quit_if_done-more host r s quiet
          (queued-more (shell_signal_quit_offset + a.sig) msg m.sys) in
      rw (told, swept, run_timer-quiet host r s quiet (wait_for s), more) refl

  -- When the proxy of the application is made and a signal to quit arrives right before
  -- `casycom_idle`, in a round in which no object is unused and nothing is watched, the loop ends
  -- with that round. The exit code is 128 more than the signal, and the message that tells the
  -- application of it is the last one in the output queue, where it stays undelivered.
  pub quit_signal-ends :
      host.fuel ≡ suc fuel
      → is_quit a.sig ≡ true
      → (m.appp.interface == Iids.null) ≡ false
      → IsQuiet host m.sys
      → (msg : Msg) × (u : Main U) × (app_signal m.appp a.sig m.last_child_pid m.last_child_status
          ≡ some msg)
        × ((idle host r (on_msg_signal a m) >>= main_loop host rs) ≡ some u)
        × (u.sys.exit_code ≡ shell_signal_quit_offset + a.sig)
        × (u.sys.output_queue ≡ m.sys.output_queue ++ (msg ∷ []))
  unfolding quit queue_message
  quit_signal-ends some_fuel quits made q =
      let (msg, sent) = app_signal-sent m.appp a.sig m.last_child_pid m.last_child_status in
      let e = idle-quit msg some_fuel q (send-quit msg quits made sent) in
      (msg, after msg, sent, rw e (main_loop-quitting host rs (after msg) refl), refl, refl)
