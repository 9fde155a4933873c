-- ===== src/Timers.antt =====
-- The Timer object of timer.c and the loop over the list of watches. A descriptor and a timeout are
-- the 32 bits of a C `int`, negative from 2^31 on; the time at a call is a parameter, and so are the
-- events that `poll` returns.
pub mod Poll
pub mod Wait
use casycom.Base.{
  ℕ, zero, suc, ◌+◌, ◌-◌, ◌*◌, ◌/◌, ◌%◌, ◌^◌, Bool, true, false, not, ◌&&◌, ◌||◌, List, [], ◌∷◌,
  ◌++◌, Option, none, some, ltb, leb, ◌==◌, if◌then◌else◌, length,
}
use casycom.Base.Chain.{◌>>=◌}
use casycom.Msg.{Proxy, Msg}
use casycom.Protocol.Timer.{timer, timer_max, timer_none, watch_stop, no_fd}
use casycom.Links.{OMap, mark_unused}

-- `Timer_now`, from the seconds and nanoseconds of `clock_gettime`, `none` when that fails.
unfoldable pub timer_now : Option (ℕ × ℕ) → ℕ
timer_now none = 0
timer_now (some (sec, nsec)) = (sec * 1000 + nsec / 1000000) % 2 ^ 64

-- `at` is the object's address.
pub record Timer : Type 0 where
  pub at : ℕ
  pub reply : Proxy
  pub nextfire : ℕ
  pub cmd : ℕ
  pub fd : ℕ

abbrev pub WatchList : Type 0
WatchList = List Timer

-- `struct pollfd`, without the events that the kernel returns.
pub record Pollfd : Type 0 where
  pub fd : ℕ
  pub events : ℕ

abbrev pub poll_err : ℕ
poll_err = 8

-- `reply` is the proxy that `casycom_create_reply_proxy` made. Returns the list with the new object.
unfoldable pub timer_create : WatchList → ℕ → Proxy → WatchList
timer_create watches at reply =
    watches
    ++ (record { at = at; reply = reply; nextfire = timer_none; cmd = watch_stop; fd = no_fd } ∷ [])

-- The loop goes from the last element down, so that an erasure moves none that are still to come.
unfoldable pub timer_destroy : WatchList → ℕ → WatchList
timer_destroy [] at = []
timer_destroy (w ∷ ws) at = if w.at == at then timer_destroy ws at else w ∷ timer_destroy ws at

unfoldable pub timer_watch : ℕ → Timer → ℕ → ℕ → ℕ → Timer
timer_watch now o cmd fd timeoutms = record o {
  cmd = cmd;
  fd = fd;
  nextfire = if leb timeoutms timer_max then (timeoutms + now) % 2 ^ 64 else timeoutms;
}

-- `we->fd >= 0 && we->cmd != WATCH_STOP`.
abbrev pub polls : Timer → Bool
polls we = ltb we.fd (2 ^ 31) && not (we.cmd == watch_stop)

-- The first loop of `Timer_run_timer`: the descriptors to poll.
unfoldable pub poll_list : WatchList → List Pollfd
poll_list [] = []
poll_list (we ∷ ws) =
    if polls we
    then record { fd = we.fd; events = we.cmd % 2 ^ 16 } ∷ poll_list ws
    else poll_list ws

-- And the nearest timer.
unfoldable pub nearest_from : WatchList → ℕ → ℕ
nearest_from [] nearest = nearest
nearest_from (we ∷ ws) nearest =
    nearest_from ws (if ltb we.nextfire nearest then we.nextfire else nearest)

-- How long to wait. The difference of two 64-bit numbers is assigned to an `int`.
unfoldable pub wait_time : ℕ → ℕ → ℕ → ℕ
wait_time nearest now to_wait =
    if not (to_wait == 0) && ltb nearest timer_max
    then (nearest + 2 ^ 64 - now) % 2 ^ 32
    else to_wait

-- `a & b`, as a condition, on the first `bits` bits.
unfoldable pub meets : ℕ → ℕ → ℕ → Bool
meets zero a b = false
meets (suc bits) a b = ((a % 2 == 1) && (b % 2 == 1)) || meets bits (a / 2) (b / 2)

-- `revents & (POLLERR| we->cmd)`; `revents` has sixteen bits.
unfoldable pub has_event : ℕ → ℕ → Bool
has_event revents cmd = meets 16 revents poll_err || meets 16 revents cmd

-- The second loop: the watches that fired. `revents` are those of `fds[fdi]` and what is behind it; a
-- read past the end, which cannot be, would give 0.
head_of : List ℕ → ℕ
head_of [] = 0
head_of (r ∷ rs) = r

rest_of : List ℕ → List ℕ
rest_of [] = []
rest_of (r ∷ rs) = rs

unfoldable pub fired : ℕ → WatchList → List ℕ → WatchList
unfolding head_of rest_of
fired now [] revents = []
fired now (we ∷ ws) revents =
    let expired = leb we.nextfire now in
    let next = fired now ws (if polls we then rest_of revents else revents) in
    if expired || (polls we && has_event (head_of revents) we.cmd) then we ∷ next else next

-- For each watch that fired, the reply is sent and the object marked unused.
unfoldable pub reply_all : WatchList → OMap → Option (List Msg × OMap)
unfolding timer mark_unused
reply_all [] omap = some ([], omap)
reply_all (we ∷ ws) omap = do
  msg ← timer we.reply we.fd
  (msgs, marked) ← reply_all ws (mark_unused omap we.at)
  some (msg ∷ msgs, marked)

-- What `poll` is called with.
pub record Polled : Type 0 where
  pub fds : List Pollfd
  pub timeout : ℕ

-- The part of `Timer_run_timer` before `poll`. With no watches the source returns before the call,
-- and what `run_timer_fire` gives for them is its result.
unfoldable pub run_timer_poll : WatchList → ℕ → ℕ → Polled
unfolding poll_list nearest_from wait_time
run_timer_poll watches now to_wait = record {
  fds = poll_list watches;
  timeout = wait_time (nearest_from watches timer_max) now to_wait;
}

-- And the part after it: the messages sent, the links and the result.
unfoldable pub run_timer_fire : WatchList → ℕ → List ℕ → OMap → Option (List Msg × OMap × Bool)
unfolding fired reply_all
run_timer_fire watches now revents omap = do
  (msgs, marked) ← reply_all (fired now watches revents) omap
  some (msgs, marked, not (length watches == 0))

-- The loop of `Timer_watch_list_for_poll`, with `nFds` descriptors written so far.
unfoldable pub for_poll_from : WatchList → ℕ → ℕ → List Pollfd
for_poll_from [] n_fds fdslen = []
for_poll_from (we ∷ ws) n_fds fdslen =
    if polls we && ltb n_fds fdslen
    then record { fd = we.fd; events = we.cmd % 2 ^ 16 } ∷ for_poll_from ws (n_fds + 1) fdslen
    else for_poll_from ws n_fds fdslen

-- The descriptors written, and the timeout.
unfoldable pub watch_list_for_poll : WatchList → ℕ → ℕ → Polled
unfolding for_poll_from nearest_from
watch_list_for_poll watches now fdslen =
    let nearest = nearest_from watches timer_max in
    record {
      fds = for_poll_from watches 0 fdslen;
      timeout = if ltb now nearest then (nearest - now) % 2 ^ 32 else no_fd;
    }
