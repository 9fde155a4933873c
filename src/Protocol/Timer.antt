-- ===== src/Protocol/Timer.antt =====
-- The Timer and TimerR interfaces of timer.h and timer.c. A command is the mask of its poll events, and
-- a descriptor its 32 bits, with -1 for none.
use casycom.Base.{ℕ, ◌+◌, ◌^◌, ◌-◌, ◌<◌, refl, ap, [], ◌∷◌, Option, some, ◌==◌, if◌then◌else◌}
use casycom.Base.Chain.{◌>>=◌, ◌>>◌, assert}
use casycom.Iids
use casycom.Msg.{Interface, Proxy, Msg, begin, stream, written, default_dispatch}
use casycom.Msg.Signature.{validate_signature, validate_sigelement}
use casycom.Stm.{write_pod, read_pod}
use casycom.Protocol.Fields.{Delivers, value4, value8}

abbrev pub method_watch : ℕ
method_watch = 0

abbrev pub method_timer : ℕ
method_timer = 0

abbrev pub watch_stop : ℕ
watch_stop = 0

-- `POLLIN`, `POLLOUT` and `POLLMSG`.
abbrev pub watch_read : ℕ
watch_read = 1

abbrev pub watch_write : ℕ
watch_write = 4

abbrev pub watch_rdwr : ℕ
watch_rdwr = watch_read + watch_write

abbrev pub watch_timer : ℕ
watch_timer = 1024

abbrev pub watch_read_timer : ℕ
watch_read_timer = watch_read + watch_timer

abbrev pub watch_write_timer : ℕ
watch_write_timer = watch_write + watch_timer

abbrev pub watch_rdwr_timer : ℕ
watch_rdwr_timer = watch_rdwr + watch_timer

abbrev pub timer_max : ℕ
timer_max = 2 ^ 63 - 1

abbrev pub timer_none : ℕ
timer_none = 2 ^ 64 - 1

abbrev pub no_fd : ℕ
no_fd = 2 ^ 32 - 1

unfoldable pub watch : Proxy → ℕ → ℕ → ℕ → Option Msg
unfolding begin stream written
watch pp cmd fd timeoutms = do
  assert (pp.interface == Iids.timer)
  let msg = begin pp method_watch 16
  os1 ← write_pod 4 (stream msg) cmd
  os2 ← write_pod 4 os1 fd
  os3 ← write_pod 8 os2 timeoutms
  some (written msg os3)

pub data TimerCall : Type 0 where
  watched : (cmd fd timeoutms : ℕ) → TimerCall
  nothing : TimerCall

dispatch_watch : Msg → Option TimerCall
unfolding stream
dispatch_watch msg = do
  (cmd, is1) ← read_pod 4 (stream msg)
  (fd, is2) ← read_pod 4 is1
  (timeoutms, is3) ← read_pod 8 is2
  some (watched cmd fd timeoutms)

unfoldable pub timer_dispatch : Msg → Option TimerCall
unfolding dispatch_watch
timer_dispatch msg =
    if msg.imethod == method_watch
    then dispatch_watch msg
    else do default_dispatch msg; some nothing

abbrev pub i_timer : Interface
i_timer = record {
  name = b'T' ∷ b'i' ∷ b'm' ∷ b'e' ∷ b'r' ∷ [];
  method = (b'w' ∷ b'a' ∷ b't' ∷ b'c' ∷ b'h' ∷ [], b'u' ∷ b'i' ∷ b'x' ∷ []) ∷ [];
}

unfoldable pub timer : Proxy → ℕ → Option Msg
unfolding begin stream written
timer pp fd = do
  let msg = begin pp method_timer 4
  os1 ← write_pod 4 (stream msg) fd
  some (written msg os1)

-- The handler also gets the message itself.
pub data TimerRCall : Type 0 where
  fired : (fd : ℕ) → TimerRCall
  unheard : TimerRCall

dispatch_timer : Msg → Option TimerRCall
unfolding stream
dispatch_timer msg = do (fd, is1) ← read_pod 4 (stream msg); some (fired fd)

unfoldable pub timer_r_dispatch : Msg → Option TimerRCall
unfolding dispatch_timer
timer_r_dispatch msg =
    if msg.imethod == method_timer
    then dispatch_timer msg
    else do default_dispatch msg; some unheard

abbrev pub i_timer_r : Interface
i_timer_r = record {
  name = b'T' ∷ b'i' ∷ b'm' ∷ b'e' ∷ b'r' ∷ b'R' ∷ [];
  method = (b't' ∷ b'i' ∷ b'm' ∷ b'e' ∷ b'r' ∷ [], b'i' ∷ []) ∷ [];
}

unfoldable stop : Proxy → Option Msg
stop pp = watch pp watch_stop no_fd timer_none

unfoldable set_timer : Proxy → ℕ → Option Msg
set_timer pp timeoutms = watch pp watch_timer no_fd timeoutms

unfoldable pub wait_read : Proxy → ℕ → Option Msg
wait_read pp fd = watch pp watch_read fd timer_none

unfoldable wait_write : Proxy → ℕ → Option Msg
wait_write pp fd = watch pp watch_write fd timer_none

unfoldable wait_rdwr : Proxy → ℕ → Option Msg
wait_rdwr pp fd = watch pp watch_rdwr fd timer_none

unfoldable wait_read_with_timeout : Proxy → ℕ → ℕ → Option Msg
wait_read_with_timeout pp fd timeoutms = watch pp watch_read_timer fd timeoutms

unfoldable wait_write_with_timeout : Proxy → ℕ → ℕ → Option Msg
wait_write_with_timeout pp fd timeoutms = watch pp watch_write_timer fd timeoutms

unfoldable wait_rdwr_with_timeout : Proxy → ℕ → ℕ → Option Msg
wait_rdwr_with_timeout pp fd timeoutms = watch pp watch_rdwr_timer fd timeoutms

-- A call of `PTimer_watch` through a Timer proxy, with arguments of their sizes, passes the check
-- of its signature and reaches the handler with these arguments.
pub watch-Delivers :
    (src dest cmd fd timeoutms : ℕ)
    → cmd < 2 ^ 32
    → fd < 2 ^ 32
    → timeoutms < 2 ^ 64
    → Delivers
        (record { interface = Iids.timer; src = src; dest = dest })
        (b'u' ∷ b'i' ∷ b'x' ∷ [])
        timer_dispatch
        (watched cmd fd timeoutms)
        (watch (record { interface = Iids.timer; src = src; dest = dest }) cmd fd timeoutms)
unfolding watch timer_dispatch validate_signature validate_sigelement write_pod read_pod
watch-Delivers src dest cmd fd timeoutms h k l = record {
  message = _;
  sent = refl;
  header = refl;
  plain = refl;
  checked = refl;
  called = λ i. some (watched (value4 cmd h i) (value4 fd k i) (value8 timeoutms l i));
}

-- A call of `PTimerR_timer` with a 32-bit descriptor passes the check of its signature and reaches
-- the handler with it.
pub timer-Delivers :
    (pp : Proxy) (fd : ℕ)
    → fd < 2 ^ 32
    → Delivers pp (b'i' ∷ []) timer_r_dispatch (fired fd) (timer pp fd)
unfolding timer timer_r_dispatch validate_signature validate_sigelement write_pod read_pod
timer-Delivers pp fd h = record {
  message = _;
  sent = refl;
  header = refl;
  plain = refl;
  checked = refl;
  called = ap (λ a. some (fired a)) (value4 fd h);
}

-- A call of `PTimer_watch` through a Timer proxy and a call of `PTimerR_timer`, with arguments of
-- their sizes, pass the checks of their signatures and reach their handlers with these arguments.
pub timer_calls-Delivers :
    (src dest cmd fd timeoutms : ℕ) (pp : Proxy)
    → cmd < 2 ^ 32
    → fd < 2 ^ 32
    → timeoutms < 2 ^ 64
    → Delivers
        (record { interface = Iids.timer; src = src; dest = dest })
        (b'u' ∷ b'i' ∷ b'x' ∷ [])
        timer_dispatch
        (watched cmd fd timeoutms)
        (watch (record { interface = Iids.timer; src = src; dest = dest }) cmd fd timeoutms)
      × Delivers pp (b'i' ∷ []) timer_r_dispatch (fired fd) (timer pp fd)
timer_calls-Delivers src dest cmd fd timeoutms pp h k l =
    (watch-Delivers src dest cmd fd timeoutms h k l, timer-Delivers pp fd k)
