-- ===== src/Timers/Wait.antt =====
-- How long the loop waits for events.
use casycom.Base.{
  ℕ, ◌+◌, ◌-◌, ◌*◌, ◌%◌, ◌^◌, ◌<◌, ◌≤◌, ◌≡◌, refl, sym, Bool, true, false, ◌⊎◌, inl, inr, [], ◌∷◌,
  some, arith, ltb, ◌==◌, if◌then◌else◌, Bool-cases,
}
use casycom.Timers.{Timer, WatchList, timer_now, nearest_from, wait_time, run_timer_poll}
use casycom.Protocol.Timer.{timer_max}

-- Some watch fires at `t`.
abbrev pub Fires : ℕ → WatchList → Type 0
Fires t [] = Bool.true ≡ false
Fires t (we ∷ ws) = (we.nextfire ≡ t) ⊎ Fires t ws

abbrev pub NoneBefore : ℕ → WatchList → Type 0
NoneBefore t [] = Unit
NoneBefore t (we ∷ ws) = (t ≤ we.nextfire) × NoneBefore t ws

-- `t` is the earliest of `limit` and the times of the watches.
pub record Earliest (limit t : ℕ) (watches : WatchList) : Type 0 where
  pub within : t ≤ limit
  pub none_before : NoneBefore t watches
  pub attained : (t ≡ limit) ⊎ Fires t watches

NoneBefore-weaken : (c d : ℕ) (ws : WatchList) → c ≤ d → NoneBefore d ws → NoneBefore c ws
NoneBefore-weaken c d [] h a = tt
NoneBefore-weaken c d (w ∷ ws) h a = (omega arith, NoneBefore-weaken c d ws h a.1)

nearest_step :
    (we : Timer) (ws : WatchList) (limit : ℕ)
    → nearest_from (we ∷ ws) limit
      ≡ nearest_from ws (if ltb we.nextfire limit then we.nextfire else limit)
unfolding nearest_from
nearest_step we ws limit = refl

-- The first loop of `Timer_run_timer` finds the earliest of the limit and the times of all watches.
pub nearest_from-Earliest :
    (watches : WatchList) (limit : ℕ) → Earliest limit (nearest_from watches limit) watches
nearest_from-Earliest [] limit =
    unfold nearest_from in record { within = omega arith; none_before = tt; attained = inl refl }
nearest_from-Earliest (we ∷ ws) limit = elim (Bool-cases (ltb we.nextfire limit)) [
  | inl e ↦
      let r = nearest_from-Earliest ws we.nextfire in
      let sooner : we.nextfire < limit = ground (arith, e) in
      rw (nearest_step we ws limit, e)
        record {
          within = let w = r.within in omega arith;
          none_before = (r.within, r.none_before);
          attained = elim r.attained [ inl q ↦ inr (inl (sym q)) | inr q ↦ inr (inr q) ];
        }
  | inr e ↦
      let r = nearest_from-Earliest ws limit in
      let later : limit ≤ we.nextfire = ground (arith, e) in
      rw (nearest_step we ws limit, e)
        record {
          within = r.within;
          none_before = (let w = r.within in omega arith, r.none_before);
          attained = elim r.attained [ inl q ↦ inl q | inr q ↦ inr (inr q) ];
        }
]

wait_time_eq :
    (nearest now to_wait : ℕ)
    → nearest < timer_max
    → 0 < to_wait
    → wait_time nearest now to_wait ≡ (nearest + 2 ^ 64 - now) % 2 ^ 32
unfolding wait_time
wait_time_eq nearest now to_wait h w =
    let e : (to_wait == 0) ≡ false = ground (arith, w) in
    let e' : ltb nearest timer_max ≡ true = ground (arith, h) in rw (e, e') refl

-- When the earliest timer is before TIMER_MAX, not yet past and less than 2^31 ms away, and the
-- call may wait, the timeout given to `poll` ends exactly at that timer.
pub run_timer_poll-in_time :
    (watches : WatchList) (now to_wait : ℕ)
    → nearest_from watches timer_max < timer_max
    → now ≤ nearest_from watches timer_max
    → nearest_from watches timer_max < now + 2 ^ 31
    → 0 < to_wait
    → now + (run_timer_poll watches now to_wait).timeout ≡ nearest_from watches timer_max
unfolding run_timer_poll
run_timer_poll-in_time watches now to_wait a b c d =
    rw (wait_time_eq (nearest_from watches timer_max) now to_wait a d) (omega arith)

-- When the earliest timer is before TIMER_MAX and past by at most 2^31 ms, and the call may wait,
-- the timeout given to `poll` is negative.
pub run_timer_poll-overdue :
    (watches : WatchList) (now to_wait : ℕ)
    → nearest_from watches timer_max < now
    → now ≤ nearest_from watches timer_max + 2 ^ 31
    → nearest_from watches timer_max < timer_max
    → 0 < to_wait
    → 2 ^ 31 ≤ (run_timer_poll watches now to_wait).timeout
unfolding run_timer_poll
run_timer_poll-overdue watches now to_wait a b c d =
    rw (wait_time_eq (nearest_from watches timer_max) now to_wait c d) (omega arith)

-- The time does not go back between two readings of a clock that does not.
timer_now_mono :
    (sec nsec sec' nsec' : ℕ)
    → nsec < 10 ^ 9
    → sec * 10 ^ 9 + nsec ≤ sec' * 10 ^ 9 + nsec'
    → nsec' < 10 ^ 9
    → sec' < 2 ^ 50
    → timer_now (some (sec, nsec)) ≤ timer_now (some (sec', nsec'))
unfolding timer_now
timer_now_mono sec nsec sec' nsec' a b c d = omega arith
