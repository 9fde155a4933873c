-- ===== src/Sockets.antt =====
-- The calls that make a socket and hand it to an object: PExtern_connect and PExtern_launch_pipe of xcom.c,
-- PExternServer_bind of xsrv.c, and their variants there and in xcom.h and xsrv.h. System calls answer by
-- the parameter `Kernel`. `none` is a failed assertion.
pub mod Settled
pub mod Named
pub mod Pipe
use casycom.Base.{
  ℕ, ◌+◌, ◌-◌, ◌*◌, ◌^◌, Bool, true, false, not, ◌&&◌, List, [], ◌∷◌, ◌++◌, Option, none, some,
  ◌==◌, leb, if◌then◌else◌, length, take, replicate,
}
use casycom.Base.Chain.{◌>>=◌}
use casycom.Iids
use casycom.Msg.{Proxy, Msg}
use casycom.Loop.{Sys}
use casycom.Framework.{send}
use casycom.Protocol.Extern.{open_extern, extern_client}
use casycom.Protocol.ExternServer.{open_server}
use casycom.Server.{register_local_name}

-- `struct sockaddr`: of a local socket the name up to its terminator, of the others the address and the
-- port as the members hold them.
pub data Address : Type 0 where
  unix : List ℕ → Address
  ip4 : (sin_addr sin_port : ℕ) → Address
  ip6 : (sin6_addr : List ℕ) (sin6_port : ℕ) → Address

-- `sa_family`, with the numbers that Linux gives the families.
abbrev pub family : Address → ℕ
family (unix sun_path) = 1
family (ip4 sin_addr sin_port) = 2
family (ip6 sin6_addr sin6_port) = 10

-- What a system call answers: its result, or `errno`.
pub data Answered : Type 0 where
  given : ℕ → Answered
  refused : ℕ → Answered

pub record Kernel : Type 0 where
  pub socket : ℕ → Answered
  pub connect : ℕ → Address → Answered
  pub bind : ℕ → Address → Answered
  pub listen : ℕ → Answered
  pub getenv : List ℕ → Option (List ℕ)

-- `errno` values of Linux.
abbrev pub eintr : ℕ
eintr = 4

abbrev pub enametoolong : ℕ
enametoolong = 36

abbrev pub einprogress : ℕ
einprogress = 115

-- The process around the framework: its open descriptors, the last one first, the names of local sockets
-- (`pathvec`), and the modes that `chmod` was asked to set.
pub record Process (U : Type 0) : Type 0 where
  pub sys : Sys U
  pub fds : List ℕ
  pub errno : ℕ
  pub paths : List (ℕ × List ℕ)
  pub modes : List (List ℕ × ℕ)

-- `sizeof(addr.sun_path)`.
abbrev pub sun_path_size : ℕ
sun_path_size = 108

unfoldable pub without : ℕ → List ℕ → List ℕ
without fd [] = []
without fd (x ∷ fds) = if x == fd then fds else x ∷ without fd fds

-- "/var/run/", "/tmp/" and "XDG_RUNTIME_DIR".
abbrev pub path_varrun : List ℕ
path_varrun = b'/' ∷ b'v' ∷ b'a' ∷ b'r' ∷ b'/' ∷ b'r' ∷ b'u' ∷ b'n' ∷ b'/' ∷ []

abbrev pub path_tmp : List ℕ
path_tmp = b'/' ∷ b't' ∷ b'm' ∷ b'p' ∷ b'/' ∷ []

abbrev pub xdg_runtime_dir : List ℕ
xdg_runtime_dir =
    b'X' ∷ b'D' ∷ b'G' ∷ b'_' ∷ b'R' ∷ b'U' ∷ b'N' ∷ b'T' ∷ b'I' ∷ b'M' ∷ b'E' ∷ b'_' ∷ b'D' ∷ b'I'
    ∷ b'R' ∷ []

abbrev pub or_tmp : Option (List ℕ) → List ℕ
or_tmp none = path_tmp
or_tmp (some dir) = dir

abbrev pub system_name : List ℕ → List ℕ
system_name sockname = path_varrun ++ sockname

unfoldable pub user_name : Kernel → List ℕ → List ℕ
user_name k sockname = or_tmp (k.getenv xdg_runtime_dir) ++ (b'/' ∷ sockname)

-- INADDR_LOOPBACK, as the header has it, and IN6ADDR_LOOPBACK_INIT.
abbrev pub inaddr_loopback : ℕ
inaddr_loopback = 127 * 256 ^ 3 + 1

abbrev pub in6addr_loopback : List ℕ
in6addr_loopback = replicate 15 0 ++ (1 ∷ [])

-- DEFFILEMODE, and S_IRUSR| S_IWUSR.
abbrev pub deffilemode : ℕ
deffilemode = 6 * 64 + 6 * 8 + 6

abbrev pub user_mode : ℕ
user_mode = 6 * 64

-- The result of a call of these: a descriptor, or a negative number; and the process then.
abbrev pub Called : Type 0 → Type 0
Called U = Option (Option ℕ × Process U)

module _ {U : Type 0} where
  abbrev pub opened : ℕ → Process U → Process U
  opened fd p = record p { fds = fd ∷ p.fds }

  unfoldable pub close : ℕ → Process U → Process U
  unfolding without
  close fd p = record p { fds = without fd p.fds }

  abbrev pub failed : ℕ → Process U → Called U
  failed errno p = some (none, record p { errno = errno })

  -- A stub's message is sent, and the descriptor returned.
  unfoldable pub handed : Option Msg → ℕ → Process U → Called U
  unfolding send
  handed msg fd p = do t ← send msg p.sys; some (some fd, record p { sys = t })

  unfoldable pub after_connect : Proxy → ℕ → ℕ → Answered → Process U → Called U
  unfolding close handed open_extern
  after_connect pp fd imported (given r) p =
      handed (open_extern pp fd extern_client imported Iids.null) fd p
  after_connect pp fd imported (refused e) p =
      if not (e == einprogress) && not (e == eintr)
      then failed e (close fd p)
      else handed (open_extern pp fd extern_client imported Iids.null) fd (record p { errno = e })

  unfoldable pub after_socket : Kernel → Proxy → Address → ℕ → Answered → Process U → Called U
  unfolding after_connect
  after_socket k pp addr imported (refused e) p = failed e p
  after_socket k pp addr imported (given fd) p =
      after_connect pp fd imported (k.connect fd addr) (opened fd p)

  -- `PExtern_connect`.
  unfoldable pub connect : Kernel → Proxy → Address → ℕ → Process U → Called U
  unfolding after_socket
  connect k pp addr imported p = after_socket k pp addr imported (k.socket (family addr)) p

  -- `snprintf` into `sun_path` and the test of what it returns, for the three functions that do so.
  unfoldable pub connect_name : Kernel → Proxy → List ℕ → ℕ → Process U → Called U
  unfolding connect
  connect_name k pp text imported p =
      if leb sun_path_size (length text)
      then failed enametoolong p
      else connect k pp (unix (take (sun_path_size - 1) text)) imported p

  unfoldable pub connect_local : Kernel → Proxy → List ℕ → ℕ → Process U → Called U
  unfolding connect_name
  connect_local k pp path imported p = connect_name k pp path imported p

  unfoldable pub connect_system_local : Kernel → Proxy → List ℕ → ℕ → Process U → Called U
  unfolding connect_name
  connect_system_local k pp sockname imported p =
      connect_name k pp (system_name sockname) imported p

  unfoldable pub connect_user_local : Kernel → Proxy → List ℕ → ℕ → Process U → Called U
  unfolding connect_name user_name
  connect_user_local k pp sockname imported p = connect_name k pp (user_name k sockname) imported p

  unfoldable pub connect_ip4 : Kernel → Proxy → ℕ → ℕ → ℕ → Process U → Called U
  unfolding connect
  connect_ip4 k pp ip port imported p = connect k pp (ip4 ip port) imported p

  unfoldable pub connect_local_ip4 : Kernel → Proxy → ℕ → ℕ → Process U → Called U
  unfolding connect_ip4
  connect_local_ip4 k pp port imported p = connect_ip4 k pp inaddr_loopback port imported p

  unfoldable pub connect_ip6 : Kernel → Proxy → List ℕ → ℕ → ℕ → Process U → Called U
  unfolding connect
  connect_ip6 k pp ip port imported p = connect k pp (ip6 ip port) imported p

  unfoldable pub connect_local_ip6 : Kernel → Proxy → ℕ → ℕ → Process U → Called U
  unfolding connect
  connect_local_ip6 k pp port imported p = connect k pp (ip6 in6addr_loopback port) imported p

  -- The name of a local socket is kept, to remove its file later.
  unfoldable pub keep_name : Address → ℕ → Process U → Process U
  unfolding register_local_name
  keep_name (unix sun_path) fd p = record p { paths = register_local_name p.paths fd sun_path }
  keep_name (ip4 sin_addr sin_port) fd p = p
  keep_name (ip6 sin6_addr sin6_port) fd p = p

  unfoldable pub after_listen : Proxy → Address → ℕ → ℕ → Answered → Process U → Called U
  unfolding close keep_name handed open_server
  after_listen pp addr fd exported (refused e) p = failed e (close fd p)
  after_listen pp addr fd exported (given r) p =
      handed (open_server pp fd exported false) fd (keep_name addr fd p)

  unfoldable pub after_bind : Kernel → Proxy → Address → ℕ → ℕ → Answered → Process U → Called U
  unfolding close after_listen
  after_bind k pp addr fd exported (given r) p = after_listen pp addr fd exported (k.listen fd) p
  after_bind k pp addr fd exported (refused e) p =
      if not (e == einprogress)
      then failed e (close fd p)
      else after_listen pp addr fd exported (k.listen fd) (record p { errno = e })

  unfoldable pub after_server_socket :
      Kernel → Proxy → Address → ℕ → Answered → Process U → Called U
  unfolding after_bind
  after_server_socket k pp addr exported (refused e) p = failed e p
  after_server_socket k pp addr exported (given fd) p =
      after_bind k pp addr fd exported (k.bind fd addr) (opened fd p)

  -- `PExternServer_bind`.
  unfoldable pub bind : Kernel → Proxy → Address → ℕ → Process U → Called U
  unfolding after_server_socket
  bind k pp addr exported p = after_server_socket k pp addr exported (k.socket (family addr)) p

  -- As `connect_name`; the mode of the file is set whatever `PExternServer_bind` returns.
  unfoldable pub bind_name : Kernel → Proxy → List ℕ → ℕ → ℕ → Process U → Called U
  unfolding bind
  bind_name k pp text mode exported p =
      if leb sun_path_size (length text) then failed enametoolong p else (do
        (fd, q) ← bind k pp (unix (take (sun_path_size - 1) text)) exported p
        some (fd, record q { modes = q.modes ++ ((take (sun_path_size - 1) text, mode) ∷ []) }))

  unfoldable pub bind_local : Kernel → Proxy → List ℕ → ℕ → Process U → Called U
  unfolding bind_name
  bind_local k pp path exported p = bind_name k pp path deffilemode exported p

  unfoldable pub bind_system_local : Kernel → Proxy → List ℕ → ℕ → Process U → Called U
  unfolding bind_name
  bind_system_local k pp sockname exported p =
      bind_name k pp (system_name sockname) deffilemode exported p

  unfoldable pub bind_user_local : Kernel → Proxy → List ℕ → ℕ → Process U → Called U
  unfolding bind_name user_name
  bind_user_local k pp sockname exported p =
      bind_name k pp (user_name k sockname) user_mode exported p

  unfoldable pub bind_ip4 : Kernel → Proxy → ℕ → ℕ → ℕ → Process U → Called U
  unfolding bind
  bind_ip4 k pp ip port exported p = bind k pp (ip4 ip port) exported p

  unfoldable pub bind_local_ip4 : Kernel → Proxy → ℕ → ℕ → Process U → Called U
  unfolding bind_ip4
  bind_local_ip4 k pp port exported p = bind_ip4 k pp inaddr_loopback port exported p

  unfoldable pub bind_ip6 : Kernel → Proxy → List ℕ → ℕ → ℕ → Process U → Called U
  unfolding bind
  bind_ip6 k pp ip port exported p = bind k pp (ip6 ip port) exported p

  unfoldable pub bind_local_ip6 : Kernel → Proxy → ℕ → ℕ → Process U → Called U
  unfolding bind
  bind_local_ip6 k pp port exported p = bind k pp (ip6 in6addr_loopback port) exported p
