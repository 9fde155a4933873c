-- ===== src/Tests/Programs.antt =====
-- Sockets, a program and a dump.
use casycom.Base.{
  ℕ, ◌+◌, ◌≡◌, refl, true, false, [], ◌∷◌, List, some, none, arith, length, drop, ◌==◌,
}
use casycom.Util.{Host, is_path, executable_in_path, path_max}
use casycom.Util.Paths.{shown, found_in, directories, is_open, executable_in_path-directories}
use casycom.Iids
use casycom.Protocol.Sockets.{via}
use casycom.Sockets.{
  Kernel, Process, Address, ip4, given, refused, inaddr_loopback, einprogress, connect, bind,
  connect_name, bind_name,
}
use casycom.Sockets.Settled.{Settles, as_client, as_server}
use casycom.Sockets.Named.{calls-Settle}
use casycom.Sockets.Pipe.{Pair, pair, in_server, Launches, launch_pipe, launch_pipe-Launches}
use casycom.Tests.Nets.{sys}

-- "ab\n".
abbrev bytes : List ℕ
bytes = b'a' ∷ b'b' ∷ 10 ∷ []

-- "/a:/b".
abbrev penv : List ℕ
penv = b'/' ∷ b'a' ∷ b':' ∷ b'/' ∷ b'b' ∷ []

abbrev ls : List ℕ
ls = b'l' ∷ b's' ∷ []

-- Everything can be executed, and the array was clear.
abbrev computer : Host
computer = record { access = λ path. length path == 5; path = some penv; stack = 0 ∷ 0 ∷ [] }

ls_plain : is_path ls ≡ false
unfolding is_path
ls_plain = refl

executable_in_path-directories_example :
    executable_in_path computer ls path_max
    ≡ found_in computer.access ls path_max path_max
        (directories (shown penv))
        (is_open (shown penv))
        (drop (length (shown penv) + 1) computer.stack)
executable_in_path-directories_example =
    executable_in_path-directories computer ls path_max penv ls_plain refl (
      λ e. omega arith,
      (λ e. omega arith, (λ e. omega arith, (λ e. omega arith, (λ e. omega arith, tt)))),
    )

-- Connecting goes on in the background, and no socket can be bound.
abbrev kernel : Kernel
kernel = record {
  socket = λ family. given 7;
  connect = λ fd addr. refused einprogress;
  bind = λ fd addr. refused 98;
  listen = λ fd. given 0;
  getenv = λ name. none;
}

abbrev process : Process ℕ
process = record { sys = sys; fds = 3 ∷ []; errno = 0; paths = []; modes = [] }

abbrev local : Address
local = ip4 inaddr_loopback 80

calls-Settle_example :
    Settles (as_client 1 2 4096) process (connect kernel (via Iids.extern 1 2) local 4096 process)
    × Settles
        (as_server 1 2 4096)
        process
        (bind kernel (via Iids.extern_server 1 2) local 4096 process)
    × Settles
        (as_client 1 2 4096)
        process
        (connect_name kernel (via Iids.extern 1 2) ls 4096 process)
    × Settles
        (as_server 1 2 4096)
        process
        (bind_name kernel (via Iids.extern_server 1 2) ls 384 4096 process)
calls-Settle_example = calls-Settle kernel 1 2 ls 384 4096 process local

-- "/a/ls".
abbrev program : List ℕ
program = b'/' ∷ b'a' ∷ b'/' ∷ ls

found : executable_in_path computer program path_max ≡ some (some program)
unfolding executable_in_path is_path
found = refl

abbrev sockets : Pair
sockets = pair 7 8

launch_pipe-Launches_example :
    Launches 1 2 4096 program (some bytes) process (some program) sockets in_server true (
      launch_pipe computer sockets in_server true
        (via Iids.extern 1 2)
        program
        (some bytes)
        4096
        process)
launch_pipe-Launches_example =
    launch_pipe-Launches 1 2 4096 program (some bytes) process computer (some program) sockets
      in_server true found (λ e. omega arith)
