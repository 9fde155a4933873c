-- ===== src/Timers/Poll.antt =====
-- The two loops over the watches keep the list for `poll` in step with it.
use casycom.Base.{
  ℕ, zero, suc, ◌+◌, ◌%◌, ◌^◌, ◌≤◌, ◌≡◌, refl, Bool, true, false, inl, inr, ◌&&◌, ◌||◌, List, [],
  ◌∷◌, arith, ltb, leb, if◌then◌else◌, take, Bool-cases,
}
use casycom.Timers.{
  Timer, WatchList, Pollfd, polls, poll_list, has_event, fired, for_poll_from, watch_list_for_poll,
  run_timer_poll,
}

-- What `poll` does: it answers for every descriptor and its events, in order.
unfoldable pub answers : (ℕ → ℕ → ℕ) → List Pollfd → List ℕ
answers kernel [] = []
answers kernel (p ∷ ps) = kernel p.fd p.events ∷ answers kernel ps

-- A watch is due when its time has come, or its own descriptor has an event it waits for.
abbrev pub is_due : (ℕ → ℕ → ℕ) → ℕ → Timer → Bool
is_due kernel now we =
    leb we.nextfire now || (polls we && has_event (kernel we.fd (we.cmd % 2 ^ 16)) we.cmd)

unfoldable pub due : (ℕ → ℕ → ℕ) → ℕ → WatchList → WatchList
due kernel now [] = []
due kernel now (we ∷ ws) =
    if is_due kernel now we then we ∷ due kernel now ws else due kernel now ws

-- When `poll` answers for the list that the first loop made, the watches that fire are those whose
-- time has come or whose own descriptor has an event, in the order of the list.
pub fired-due :
    (kernel : ℕ → ℕ → ℕ) (now : ℕ) (watches : WatchList)
    → fired now watches (answers kernel (poll_list watches)) ≡ due kernel now watches
unfolding fired due answers poll_list
fired-due kernel now [] = refl
fired-due kernel now (we ∷ ws) = elim (Bool-cases (polls we)) [
  | inl e ↦ rw (e, fired-due kernel now ws) refl
  | inr e ↦ rw (e, fired-due kernel now ws) refl
]

for_poll_full :
    (watches : WatchList) (n_fds fdslen : ℕ)
    → fdslen ≤ n_fds
    → for_poll_from watches n_fds fdslen ≡ []
unfolding for_poll_from
for_poll_full [] n_fds fdslen h = refl
for_poll_full (we ∷ ws) n_fds fdslen h = elim (Bool-cases (polls we)) [
  | inl e ↦
      let full : ltb n_fds fdslen ≡ false = ground (arith, h) in
      rw (e, full) (for_poll_full ws n_fds fdslen h)
  | inr e ↦ rw e (for_poll_full ws n_fds fdslen h)
]

for_poll_from-take :
    (watches : WatchList) (n_fds room fdslen : ℕ)
    → n_fds + room ≡ fdslen
    → for_poll_from watches n_fds fdslen ≡ take room (poll_list watches)
unfolding for_poll_from poll_list
for_poll_from-take watches n_fds zero fdslen h = for_poll_full watches n_fds fdslen (omega arith)
for_poll_from-take [] n_fds (suc room) fdslen h = refl
for_poll_from-take (we ∷ ws) n_fds (suc room) fdslen h = elim (Bool-cases (polls we)) [
  | inl e ↦
      let fits : ltb n_fds fdslen ≡ true = ground (arith, h) in
      rw (e, fits, for_poll_from-take ws (n_fds + 1) room fdslen (omega arith)) refl
  | inr e ↦ rw e (for_poll_from-take ws n_fds (suc room) fdslen h)
]

-- `Timer_watch_list_for_poll` gives the first of the descriptors that `Timer_run_timer` would poll,
-- as many as the array has room for.
pub watch_list_for_poll-take :
    (watches : WatchList) (now to_wait fdslen : ℕ)
    → (watch_list_for_poll watches now fdslen).fds
      ≡ take fdslen (run_timer_poll watches now to_wait).fds
unfolding watch_list_for_poll run_timer_poll
watch_list_for_poll-take watches now to_wait fdslen =
    for_poll_from-take watches 0 fdslen fdslen (omega arith)
