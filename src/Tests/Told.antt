-- ===== src/Tests/Told.antt =====
-- Signals in a main loop without objects.
use casycom.Base.{ℕ, ◌+◌, ◌≡◌, refl, true, [], ◌∷◌, ◌++◌, some, none}
use casycom.Base.Chain.{◌>>=◌}
use casycom.Msg.{Msg}
use casycom.Protocol.App.{app_signal}
use casycom.Destruction.{unused_from}
use casycom.MainLoop.{Main, idle, main_loop}
use casycom.Signals.{Arrival, on_msg_signal, arrive, is_quit, shell_signal_quit_offset}
use casycom.Signals.Told.{IsTold, IsQuiet, send_signal_message-arrive, quit_signal-ends}
use casycom.Tests.Nets.{sys}
use casycom.Tests.Loops.{host, round, main}

-- SIGCHLD, and SIGTERM.
abbrev child : Arrival
child = record { sig = 17; child_pid = 300; child_status = some 1 }

abbrev term : Arrival
term = record { sig = 15; child_pid = 0; child_status = none }

send_signal_message-arrive_example : IsTold term main (arrive ((child ∷ []) ++ (term ∷ [])) main)
send_signal_message-arrive_example = send_signal_message-arrive (child ∷ []) term main refl refl

quiet : IsQuiet host sys
unfolding unused_from
quiet = record { unused = refl; watches = refl }

quits : is_quit 15 ≡ true
unfolding is_quit
quits = refl

quit_signal-ends_example :
    (msg : Msg) × (u : Main ℕ) × (app_signal main.appp 15 0 0 ≡ some msg)
    × ((idle host round (on_msg_signal term main) >>= main_loop host []) ≡ some u)
    × (u.sys.exit_code ≡ shell_signal_quit_offset + 15)
    × (u.sys.output_queue ≡ sys.output_queue ++ (msg ∷ []))
quit_signal-ends_example = quit_signal-ends host round [] main term 0 refl quits refl quiet
