-- ===== src/Sockets/Pipe.antt =====
-- `PExtern_launch_pipe`: a program started with its standard input connected to an Extern.
use casycom.Base.{
  ℕ, ◌≡◌, ◌≢◌, refl, ap, ◌∙◌, Bool, List, [], ◌∷◌, Option, none, some, arith, true, false,
}
use casycom.Base.Chain.{◌>>=◌}
use casycom.Iids
use casycom.Msg.{Proxy, Msg}
use casycom.Loop.{queue_message}
use casycom.Framework.{send}
use casycom.Protocol.Sockets.{via}
use casycom.Protocol.Extern.{open_extern, extern_client}
use casycom.Util.{Host, executable_in_path, path_max}
use casycom.Sockets.{Process, Called, opened, close, without, failed, handed}
use casycom.Sockets.Settled.{IsSettled, as_client, open_extern-sent, without-head}

-- ENOENT, EXIT_FAILURE and STDIN_FILENO.
abbrev enoent : ℕ
enoent = 2

abbrev exit_failure : ℕ
exit_failure = 1

abbrev pub stdin : ℕ
stdin = 0

-- What `socketpair` answers: the side of the client and that of the server, or `errno`.
pub data Pair : Type 0 where
  pair : (client_side server_side : ℕ) → Pair
  no_pair : ℕ → Pair

-- What `fork` answers, in the process in question.
pub data Forked : Type 0 where
  in_client in_server : Forked
  no_fork : ℕ → Forked

-- How the call ends: it returns, or the program `exefp` goes on in the process with these arguments, or the
-- process ends. `input` is the descriptor whose socket is the standard input of the process then.
pub data Launched (U : Type 0) : Type 0 where
  returned : Option ℕ → Process U → Launched U
  replaced : (exefp : List ℕ) (args : List (List ℕ)) (input : ℕ) → Process U → Launched U
  exited : (code input : ℕ) → Process U → Launched U

-- `exe, arg, NULL`, where a null `arg` ends the list.
unfoldable pub arguments : List ℕ → Option (List ℕ) → List (List ℕ)
arguments exe none = exe ∷ []
arguments exe (some arg) = exe ∷ arg ∷ []

module _ {U : Type 0} where
  -- `dup2 (fd, STDIN_FILENO)`: the descriptor duplicated, and the process.
  unfoldable pub to_stdin : ℕ → Process U → ℕ × Process U
  unfolding without
  to_stdin fd p = (fd, record p { fds = stdin ∷ without stdin p.fds })

  unfoldable pub launched : Called U → Option (Launched U)
  launched r = do (fd, q) ← r; some (returned fd q)

  -- `execl` returns only if it fails.
  unfoldable pub after_exec : Bool → List ℕ → List (List ℕ) → ℕ × Process U → Launched U
  after_exec true exefp args r = replaced exefp args r.0 r.1
  after_exec false exefp args r = exited exit_failure r.0 r.1

  unfoldable pub after_fork :
      Forked
      → Bool
      → Proxy
      → (exefp exe : List ℕ) → Option (List ℕ)
      → (imported client_side server_side : ℕ) → Process U
      → Option (Launched U)
  unfolding close launched handed open_extern to_stdin after_exec arguments
  after_fork (no_fork e) execs pp exefp exe arg imported client_side server_side p =
      launched (failed e (close server_side (close client_side p)))
  after_fork in_server execs pp exefp exe arg imported client_side server_side p =
      some (after_exec execs exefp (arguments exe arg) (to_stdin server_side (close client_side p)))
  after_fork in_client execs pp exefp exe arg imported client_side server_side p = launched (
      handed (open_extern pp client_side extern_client imported Iids.null) client_side
        (close server_side p))

  unfoldable pub after_pair :
      Pair
      → Forked
      → Bool
      → Proxy
      → (exefp exe : List ℕ) → Option (List ℕ)
      → ℕ
      → Process U
      → Option (Launched U)
  unfolding after_fork launched
  after_pair (no_pair e) forked execs pp exefp exe arg imported p = launched (failed e p)
  after_pair (pair client_side server_side) forked execs pp exefp exe arg imported p =
      after_fork forked execs pp exefp exe arg imported client_side server_side
        (opened client_side (opened server_side p))

  unfoldable pub after_search :
      Option (List ℕ)
      → Pair
      → Forked
      → Bool
      → Proxy
      → List ℕ
      → Option (List ℕ)
      → ℕ
      → Process U
      → Option (Launched U)
  unfolding after_pair launched
  after_search none socks forked execs pp exe arg imported p = launched (failed enoent p)
  after_search (some exefp) socks forked execs pp exe arg imported p =
      after_pair socks forked execs pp exefp exe arg imported p

  -- `PExtern_launch_pipe`, in the process where `fork` answers `forked`.
  unfoldable pub launch_pipe :
      Host
      → Pair
      → Forked
      → Bool
      → Proxy
      → List ℕ
      → Option (List ℕ)
      → ℕ
      → Process U
      → Option (Launched U)
  unfolding executable_in_path after_search
  launch_pipe h socks forked execs pp exe arg imported p = do
    exefp ← executable_in_path h exe path_max
    after_search exefp socks forked execs pp exe arg imported p

  -- -1 is returned, with nothing open and nothing sent.
  pub record HasFailed (errno : ℕ) (p : Process U) (l : Launched U) : Type 0 where
    pub after : Process U
    pub fails : l ≡ returned none after
    pub told : after.errno ≡ errno
    pub fds : after.fds ≡ p.fds
    pub sys : after.sys ≡ p.sys

  -- The client has its side of the pair only, which it returns after the message that hands it on.
  pub record IsClient (client_side : ℕ) (msg : ℕ → Option Msg) (p : Process U) (l : Launched U)
      : Type 0 where
    pub after : Process U
    pub returns : l ≡ returned (some client_side) after
    pub settled : IsSettled msg p (some client_side) after

  -- The new process has the other side, also as its standard input, and none of the client.
  pub record IsServer (server_side : ℕ) (p : Process U) (l : Process U → Launched U)
      (r : Launched U) : Type 0 where
    pub after : Process U
    pub goes_on : r ≡ l after
    pub fds : after.fds ≡ stdin ∷ without stdin (server_side ∷ p.fds)
    pub sys : after.sys ≡ p.sys

  -- What each process does, by what the search found, `socketpair` and `fork` answered, and whether
  -- `execl` starts the program.
  abbrev pub IsLaunched :
      (ℕ → Option Msg)
      → List ℕ
      → Option (List ℕ)
      → Process U
      → Option (List ℕ)
      → Pair
      → Forked
      → Bool
      → Launched U
      → Type 0
  IsLaunched msg exe arg p none socks forked execs l = HasFailed enoent p l
  IsLaunched msg exe arg p (some exefp) (no_pair e) forked execs l = HasFailed e p l
  IsLaunched msg exe arg p (some exefp) (pair c s) (no_fork e) execs l = HasFailed e p l
  IsLaunched msg exe arg p (some exefp) (pair c s) in_client execs l = IsClient c msg p l
  IsLaunched msg exe arg p (some exefp) (pair c s) in_server true l =
      IsServer s p (λ q. replaced exefp (arguments exe arg) s q) l
  IsLaunched msg exe arg p (some exefp) (pair c s) in_server false l =
      IsServer s p (λ q. exited exit_failure s q) l

abbrev pub AreDistinct : Pair → Type 0
AreDistinct (pair client_side server_side) = client_side ≢ server_side
AreDistinct (no_pair e) = Unit {0}

without-second : (c s : ℕ) (fds : List ℕ) → c ≢ s → without s (c ∷ s ∷ fds) ≡ c ∷ fds
unfolding without
without-second c s fds h = ground (arith, h)

module _ {U : Type 0} (src dest imported : ℕ) (exe : List ℕ) (arg : Option (List ℕ))
    (p : Process U) where
  -- The call returns or ends, as it should.
  abbrev pub Launches : Option (List ℕ) → Pair → Forked → Bool → Option (Launched U) → Type 0
  Launches found socks forked execs r =
      (l : Launched U) × (r ≡ some l)
      × IsLaunched (as_client src dest imported) exe arg p found socks forked execs l

  server-fds :
      (c s : ℕ)
      → stdin ∷ without stdin (without c (c ∷ s ∷ p.fds)) ≡ stdin ∷ without stdin (s ∷ p.fds)
  server-fds c s = ap (λ (fds : List ℕ). stdin ∷ without stdin fds) (without-head c (s ∷ p.fds))

  after_fork-Launches :
      (exefp : List ℕ) (c s : ℕ) (forked : Forked) (execs : Bool)
      → c ≢ s
      → Launches (some exefp) (pair c s) forked execs (
          after_fork forked execs
            (via Iids.extern src dest)
            exefp
            exe
            arg
            imported
            c
            s
            (opened c (opened s p)))
  unfolding after_fork to_stdin close after_exec launched handed send
  after_fork-Launches exefp c s (no_fork e) execs h = (
    _,
    refl,
    record {
      after = _;
      fails = refl;
      told = refl;
      fds = ap (without s) (without-head c (s ∷ p.fds)) ∙ without-head s p.fds;
      sys = refl;
    },
  )
  after_fork-Launches exefp c s in_server true h =
      (_, refl, record { after = _; goes_on = refl; fds = server-fds c s; sys = refl })
  after_fork-Launches exefp c s in_server false h =
      (_, refl, record { after = _; goes_on = refl; fds = server-fds c s; sys = refl })
  after_fork-Launches exefp c s in_client execs h =
      let (m, sent) = open_extern-sent src dest c imported Iids.null in
      let q : Process U = close s (opened c (opened s p)) in
      let t : Process U = record q { sys = queue_message m q.sys } in
      (
        returned (some c) t,
        rw sent refl,
        record { after = t; returns = refl; settled = (without-second c s p.fds h, rw sent refl) },
      )

  after_search-Launches :
      (found : Option (List ℕ)) (socks : Pair) (forked : Forked) (execs : Bool)
      → AreDistinct socks
      → Launches found socks forked execs
          (after_search found socks forked execs (via Iids.extern src dest) exe arg imported p)
  unfolding after_search after_pair launched
  after_search-Launches none socks forked execs h =
      (_, refl, record { after = _; fails = refl; told = refl; fds = refl; sys = refl })
  after_search-Launches (some exefp) (no_pair e) forked execs h =
      (_, refl, record { after = _; fails = refl; told = refl; fds = refl; sys = refl })
  after_search-Launches (some exefp) (pair c s) forked execs h =
      after_fork-Launches exefp c s forked execs h

  -- When the search for the program ends and the two sockets of a pair differ, what
  -- `PExtern_launch_pipe` does is told by what was answered. When no program is found, or there is no
  -- pair or no new process, it returns -1 with the error, no descriptor open and nothing sent. The
  -- client returns its side of the pair, the only new descriptor, after the message that hands it to
  -- the Extern. The new process becomes the program that was found, with `exe` and, if there is one,
  -- `arg` as arguments, or it ends with EXIT_FAILURE; its new descriptors are the other side of the
  -- pair and the duplicate of that side that is its standard input.
  pub launch_pipe-Launches :
      (h : Host) (found : Option (List ℕ)) (socks : Pair) (forked : Forked) (execs : Bool)
      → executable_in_path h exe path_max ≡ some found
      → AreDistinct socks
      → Launches found socks forked execs
          (launch_pipe h socks forked execs (via Iids.extern src dest) exe arg imported p)
  unfolding launch_pipe
  launch_pipe-Launches h found socks forked execs e d =
      rw e (after_search-Launches found socks forked execs d)
