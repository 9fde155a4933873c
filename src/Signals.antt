-- ===== src/Signals.antt =====
-- The signal handlers of main.c, with the numbers that Linux gives the signals.
pub mod Told
use casycom.Base.{
  ℕ, ◌+◌, Bool, true, false, not, ◌&&◌, ◌||◌, List, [], ◌∷◌, Option, none, some, ◌==◌,
  if◌then◌else◌, ltb,
}
use casycom.Loop.{quit}
use casycom.MainLoop.{Main, exit_success}

abbrev pub sigchld : ℕ
sigchld = 17

abbrev pub shell_signal_quit_offset : ℕ
shell_signal_quit_offset = 128

-- SIGINT, SIGQUIT and SIGTERM.
unfoldable pub is_quit : ℕ → Bool
is_quit sig = sig == 2 || (sig == 3 || sig == 15)

-- SIGILL, SIGABRT, SIGBUS, SIGFPE, SIGSYS, SIGSEGV, SIGALRM and SIGXCPU.
unfoldable pub is_die : ℕ → Bool
is_die sig =
    sig == 4 || sig == 6 || sig == 7 || sig == 8 || sig == 31 || sig == 11 || sig == 14 || sig == 24

-- Those of `is_quit`, and SIGHUP, SIGCHLD, SIGWINCH, SIGURG, SIGXFSZ, SIGUSR1, SIGUSR2 and SIGPIPE.
unfoldable pub is_msg : ℕ → Bool
unfolding is_quit
is_msg sig =
    is_quit sig
    || sig == 1
    || sig == sigchld
    || sig == 28
    || sig == 23
    || sig == 25
    || sig == 10
    || sig == 12
    || sig == 13

pub data Handler : Type 0 where
  on_message on_fatal unchanged : Handler

-- `casycom_install_signal_handlers`: the handler that a signal then has.
unfoldable pub handler : ℕ → Handler
unfolding is_msg is_die
handler sig =
    if not (ltb sig 32)
    then unchanged
    else if is_msg sig
    then on_message
    else if is_die sig
    then on_fatal
    else unchanged

-- How `casycom_on_fatal_signal` ends the process: with the exit handlers, or, if a signal comes while they
-- run, at once.
pub data Death : Type 0 where
  exited aborted : ℕ → Death

-- `double_signal` is the flag's value before.
unfoldable pub on_fatal_signal : Bool → ℕ → Death × Bool
unfolding is_quit
on_fatal_signal double_signal sig =
    let code : ℕ = if is_quit sig then exit_success else shell_signal_quit_offset + sig in
    (if double_signal then aborted (shell_signal_quit_offset + sig) else exited code, true)

-- A signal, with what `waitpid` answers if it is asked: the process, and its status if there is one.
pub record Arrival : Type 0 where
  pub sig : ℕ
  pub child_pid : ℕ
  pub child_status : Option ℕ

abbrev or_before : Option ℕ → ℕ → ℕ
or_before none before = before
or_before (some status) before = status

module _ {U : Type 0} where
  -- `casycom_on_msg_signal`.
  unfoldable pub on_msg_signal : Arrival → Main U → Main U
  unfolding is_quit quit
  on_msg_signal a m =
      if a.sig == sigchld
      then record m {
        last_signal = a.sig;
        last_child_pid = a.child_pid;
        last_child_status = or_before a.child_status m.last_child_status;
      }
      else if is_quit a.sig
      then record m { last_signal = a.sig; sys = quit (shell_signal_quit_offset + a.sig) m.sys }
      else record m { last_signal = a.sig }

  -- Signals one after another.
  unfoldable pub arrive : List Arrival → Main U → Main U
  unfolding on_msg_signal
  arrive [] m = m
  arrive (a ∷ arrivals) m = arrive arrivals (on_msg_signal a m)
