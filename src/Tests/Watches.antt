-- ===== src/Tests/Watches.antt =====
-- A timer without a descriptor, and a watch for reading.
use casycom.Base.{ℕ, ◌≡◌, refl, [], ◌∷◌, ◌==◌, if◌then◌else◌}
use casycom.Msg.{Proxy}
use casycom.Protocol.Timer.{timer_max, timer_none, no_fd}
use casycom.Timers.{WatchList, poll_list, fired, nearest_from}
use casycom.Timers.Poll.{answers, due, fired-due}

abbrev owner : Proxy
owner = record { interface = 4; src = 7; dest = 3 }

abbrev watches : WatchList
watches =
    record { at = 100; reply = owner; nextfire = 5000; cmd = 1024; fd = no_fd }
    ∷ record { at = 200; reply = owner; nextfire = timer_none; cmd = 1; fd = 5 }
    ∷ []

-- The descriptor 5 can be read.
abbrev kernel : ℕ → ℕ → ℕ
kernel fd events = if fd == 5 then 1 else 0

fired-due_example :
    fired 4000 watches (answers kernel (poll_list watches)) ≡ due kernel 4000 watches
fired-due_example = fired-due kernel 4000 watches

nearest : nearest_from watches timer_max ≡ 5000
unfolding nearest_from
nearest = refl
