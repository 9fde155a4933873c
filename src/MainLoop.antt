-- ===== src/MainLoop.antt =====
-- The main loop of main.c around the message queues: signals, unused objects, timers, and the end. `none`
-- is a failed assertion, a crash, or a loop that is not over within its fuel or its rounds.
pub mod Ends
pub mod Resets
use casycom.Base.{
  ℕ, zero, suc, ◌+◌, ◌-◌, Bool, true, false, not, ◌&&◌, ◌||◌, List, [], ◌∷◌, ◌++◌, Option, none,
  some, ◌==◌, if◌then◌else◌, length,
}
use casycom.Base.Chain.{◌>>=◌}
use casycom.Iids
use casycom.Msg.{Proxy, Msg, begin, method_create_object, oid_broadcast, oid_app}
use casycom.Links.{MsgLink, OMap}
use casycom.Registry.{Dtable, register}
use casycom.Loop.{Sys, Client, quit, do_message_queues, find_or_create_destination}
use casycom.Destruction.{Destructors, destroy_link_at, destroy_unused_objects}
use casycom.Timers.{WatchList, Polled, run_timer_poll, run_timer_fire}
use casycom.Framework.{create_proxy, create_proxy_to, send}
use casycom.Protocol.App.{app_init, app_signal}
use casycom.Protocol.Timer.{no_fd}

-- The globals that a signal sets, and `_casycom_appp`.
pub record Main (U : Type 0) : Type 0 where
  pub sys : Sys U
  pub last_signal : ℕ
  pub last_child_pid : ℕ
  pub last_child_status : ℕ
  pub appp : Proxy

-- What is outside of the loop: the objects, where among their data timer.c keeps its watches, and the
-- fuel for the chains of calls.
pub record Host (U : Type 0) : Type 0 where
  pub client : Client U
  pub destructors : Destructors U
  pub watches : U → WatchList
  pub fuel : ℕ

-- One call of `Timer_run_timer`: the time before, and what `poll` answers and the time then.
pub record Round : Type 0 where
  pub before : ℕ
  pub poll : Polled → ℕ × List ℕ

abbrev pub exit_success : ℕ
exit_success = 0

module _ {U : Type 0} where
  -- `casycom_send_signal_message`.
  unfoldable pub send_signal_message : Main U → Option (Main U)
  unfolding app_signal send
  send_signal_message m =
      if m.last_signal == 0
      then some m
      else if m.appp.interface == Iids.null
      then some (record m { last_signal = 0 })
      else (send (app_signal m.appp m.last_signal m.last_child_pid m.last_child_status) m.sys
          >>= λ s. some (record m { sys = s; last_signal = 0 }))

  -- `Timer_run_timer`, on the state.
  unfoldable pub run_timer : Host U → Round → ℕ → Sys U → Option (Bool × Sys U)
  unfolding run_timer_poll run_timer_fire
  run_timer host r to_wait s = do
    let ws = host.watches s.user
    let answer = r.poll (run_timer_poll ws r.before to_wait)
    fired ← run_timer_fire ws answer.0 answer.1 s.omap
    some (fired.2, record s { omap = fired.1; output_queue = s.output_queue ++ fired.0 })

  -- `_casycom_input_queue.size + _casycom_output_queue.size`.
  unfoldable pub queued : Sys U → ℕ
  queued s = length s.input_queue + length s.output_queue

  unfoldable pub wait_for : Sys U → ℕ
  unfolding queued
  wait_for s = if not (queued s == 0) || s.quitting then 0 else no_fd

  unfoldable pub quit_if_done : Bool × Sys U → Sys U
  unfolding queued quit
  quit_if_done r = if not r.0 && (queued r.1 == 0) then quit exit_success r.1 else r.1

  -- `casycom_idle`.
  unfoldable pub idle : Host U → Round → Main U → Option (Main U)
  unfolding send_signal_message destroy_unused_objects run_timer wait_for quit_if_done
  idle host r m = do
    m1 ← send_signal_message m
    s ← destroy_unused_objects host.destructors host.fuel host.fuel m1.sys
    t ← run_timer host r (wait_for s) s
    some (record m1 { sys = quit_if_done t })

  -- The loop of `casycom_main`, for the rounds to come.
  unfoldable pub main_loop : Host U → List Round → Main U → Option (Main U)
  unfolding do_message_queues idle
  main_loop host [] m = if m.sys.quitting then some m else none
  main_loop host (r ∷ rs) m = if m.sys.quitting then some m else (do
    s ← do_message_queues host.client host.fuel m.sys
    m1 ← idle host r (record m { sys = s })
    main_loop host rs m1)

  -- `casycom_main`: the exit code.
  unfoldable pub casycom_main : Host U → List Round → Main U → Option (ℕ × Main U)
  unfolding main_loop
  casycom_main host rs m = do
    m1 ← main_loop host rs (record m { sys = record m.sys { quitting = false } })
    some (m1.sys.exit_code, m1)

  -- `casycom_loop_once`.
  unfoldable loop_once : Host U → Round → Sys U → Option (Bool × Sys U)
  unfolding run_timer do_message_queues destroy_unused_objects queued
  loop_once host r s = do
    t ← run_timer host r 0 s
    u ← do_message_queues host.client host.fuel t.1
    v ← destroy_unused_objects host.destructors host.fuel host.fuel u
    some (not (queued v == 0), v)

  -- `casycom_create_object`: the object's address.
  unfoldable create_object : Host U → ℕ → Sys U → Option (ℕ × Sys U)
  unfolding create_proxy begin find_or_create_destination
  create_object host iid s = do
    let op = create_proxy host.client.dtable iid oid_broadcast s
    r ← find_or_create_destination host.client (begin op.0 method_create_object 0) op.1
    ml ← r.0
    some (ml.o, r.1)

  -- The loop of `casycom_reset`, which destroys the last link until there is none.
  unfoldable pub destroy_links : Destructors U → ℕ → ℕ → Sys U → Option (Sys U)
  unfolding destroy_link_at
  destroy_links d fuel zero s = if length s.omap == 0 then some s else none
  destroy_links d fuel (suc rounds) s =
      if length s.omap == 0
      then some s
      else (destroy_link_at d fuel (length s.omap - 1) s >>= destroy_links d fuel rounds)

  unfoldable pub reset : Destructors U → ℕ → ℕ → Sys U → Option (Sys U)
  unfolding destroy_links
  reset d fuel rounds s = do
    t ← destroy_links d fuel rounds s
    some (record t {
      omap = [];
      input_queue = [];
      output_queue = [];
      registry = record t.registry { object_table = [] };
      error = none;
    })

  -- `casycom_framework_init`, after the calls that set up the process.
  unfoldable framework_init : Host U → ℕ → ℕ → ℕ → Main U → Option (Main U)
  unfolding register create_proxy_to app_init send
  framework_init host oapp argc argv m = do
    let s = record m.sys { registry = register m.sys.registry oapp }
    let appp = create_proxy_to host.client.dtable Iids.app oid_broadcast oid_app s
    t ← send (app_init appp.0 argc argv) appp.1
    some (record m { sys = t; appp = appp.0 })
