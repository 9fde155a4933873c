-- ===== src/MainLoop/Ends.antt =====
-- How the main loop ends.
use casycom.Base.{ℕ, suc, ◌≡◌, refl, true, false, some, none, List, [], ◌∷◌}
use casycom.Loop.{Sys, do_message_queues, quit}
use casycom.Destruction.{unused_from, destroy_unused_objects}
use casycom.Timers.{run_timer_fire, fired, reply_all}
use casycom.MainLoop.{
  Main, Host, Round, exit_success, send_signal_message, run_timer, wait_for, queued, quit_if_done,
  idle, main_loop, casycom_main,
}

-- Nothing is left for the loop to do: no message, no object to destroy and no watch.
pub record IsDone {U : Type 0} (host : Host U) (s : Sys U) : Type 0 where
  pub input : s.input_queue ≡ []
  pub output : s.output_queue ≡ []
  pub unused : unused_from s.omap 0 ≡ none
  pub watches : host.watches s.user ≡ []

module _ {U : Type 0} (host : Host U) (r : Round) (s : Sys U) (d : IsDone host s) where
  run_timer-done : (to_wait : ℕ) → run_timer host r to_wait s ≡ some (false, s)
  unfolding run_timer run_timer_fire fired reply_all
  run_timer-done to_wait = rw (d.watches) (rw (d.output) refl)

  quit_if_done-done :
      quit_if_done (false, s) ≡ record s { exit_code = exit_success; quitting = true }
  unfolding quit_if_done queued quit
  quit_if_done-done = rw (d.input, d.output) refl

  destroy-done :
      (fuel rounds : ℕ) → destroy_unused_objects host.destructors fuel (suc rounds) s ≡ some s
  unfolding destroy_unused_objects
  destroy-done fuel rounds = rw (d.unused, destroy_unused_objects) refl

-- Where the loop has ended.
abbrev pub ended : {U : Type 0} → Sys U → Sys U
ended s = record s { exit_code = exit_success; quitting = true }

idle-done :
    {U : Type 0} (host : Host U) (r : Round) (m : Main U) (fuel : ℕ)
    → host.fuel ≡ suc fuel
    → m.last_signal ≡ 0
    → IsDone host m.sys
    → idle host r m ≡ some (record m { sys = ended m.sys })
unfolding idle send_signal_message
idle-done host r m fuel some_fuel quiet d =
    let swept : destroy_unused_objects host.destructors host.fuel host.fuel m.sys ≡ some m.sys =
      rw some_fuel (destroy-done host r m.sys d (suc fuel) fuel) in
    rw
      (
        quiet,
        swept,
        run_timer-done host r m.sys d (wait_for m.sys),
        quit_if_done-done host r m.sys d,
      )
      refl

pub main_loop-quitting :
    {U : Type 0} (host : Host U) (rs : List Round) (m : Main U)
    → m.sys.quitting ≡ true
    → main_loop host rs m ≡ some m
unfolding main_loop
main_loop-quitting host [] m h = rw h refl
main_loop-quitting host (r ∷ rs) m h = rw h refl

-- When no signal is pending and the delivery of the messages leaves no message, no object marked
-- unused and no watch, `casycom_main` returns after this round, with `EXIT_SUCCESS`, whatever exit
-- code was set before.
pub casycom_main-ends :
    {U : Type 0} (host : Host U) (r : Round) (rs : List Round) (m : Main U) (s : Sys U) (fuel : ℕ)
    → host.fuel ≡ suc fuel
    → m.last_signal ≡ 0
    → do_message_queues host.client host.fuel (record m.sys { quitting = false }) ≡ some s
    → IsDone host s
    → casycom_main host (r ∷ rs) m ≡ some (exit_success, record m { sys = ended s })
unfolding casycom_main main_loop
casycom_main-ends host r rs m s fuel some_fuel quiet delivered d =
    let e = idle-done host r (record m { sys = s }) fuel some_fuel quiet d in
    let q = main_loop-quitting host rs (record m { sys = ended s }) refl in
    rw (delivered, e, q) refl
