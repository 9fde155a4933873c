-- ===== src/Sockets/Settled.antt =====
-- What the calls leave: no descriptor but the one they return, and no message but the one that hands it on.
use casycom.Base.{
  ℕ, ◌≡◌, refl, sym, ap, ◌∙◌, false, not, ◌&&◌, List, ◌∷◌, Option, none, some, ◌==◌, inl, inr,
  arith, Bool-cases,
}
use casycom.Iids
use casycom.Stm.{write_pod}
use casycom.Msg.{Msg}
use casycom.Loop.{queue_message}
use casycom.Framework.{send}
use casycom.Protocol.Sockets.{via}
use casycom.Protocol.Extern.{open_extern, extern_client}
use casycom.Protocol.ExternServer.{open_server}
use casycom.Sockets.{
  family, eintr, einprogress, Kernel, Address, unix, ip4, ip6, Answered, given, refused, Process,
  Called, without, close, opened, failed, handed, after_connect, after_socket, after_server_socket,
  connect, after_listen, after_bind, bind, keep_name,
}

pub without-head : (fd : ℕ) (fds : List ℕ) → without fd (fd ∷ fds) ≡ fds
unfolding without
without-head fd fds = ground arith

module _ {U : Type 0} where
  -- `msg` is the message that hands a descriptor on.
  abbrev pub IsSettled : (ℕ → Option Msg) → Process U → Option ℕ → Process U → Type 0
  IsSettled msg p none q = (q.fds ≡ p.fds) × (q.sys ≡ p.sys)
  IsSettled msg p (some fd) q = (q.fds ≡ fd ∷ p.fds) × (send (msg fd) p.sys ≡ some q.sys)

  -- The call returns, and settles.
  pub record Settles (msg : ℕ → Option Msg) (p : Process U) (r : Called U) : Type 0 where
    pub value : Option ℕ
    pub after : Process U
    pub returned : r ≡ some (value, after)
    pub settled : IsSettled msg p value after

  -- A descriptor opened for the call and closed in it.
  closed-Settles :
      (msg : ℕ → Option Msg) (p q : Process U) (fd errno : ℕ)
      → q.fds ≡ fd ∷ p.fds
      → q.sys ≡ p.sys
      → Settles msg p (failed errno (close fd q))
  unfolding close
  closed-Settles msg p q fd errno h k = record {
    value = none;
    after = _;
    returned = refl;
    settled = (ap (without fd) h ∙ without-head fd p.fds, k);
  }

  pub handed-Settles :
      (msg : ℕ → Option Msg) (p q : Process U) (fd : ℕ) (m : Msg)
      → msg fd ≡ some m
      → q.fds ≡ fd ∷ p.fds
      → q.sys ≡ p.sys
      → Settles msg p (handed (msg fd) fd q)
  unfolding handed send
  handed-Settles msg p q fd m e h k = record {
    value = some fd;
    after = record q { sys = queue_message m q.sys };
    returned = rw e refl;
    settled = (h, ap (λ o. send o p.sys) e ∙ ap (λ s. some (queue_message m s)) (sym k));
  }

module _ (src dest fd a b : ℕ) where
  pub open_extern-sent :
      (m : Msg) × (open_extern (via Iids.extern src dest) fd extern_client a b ≡ some m)
  unfolding open_extern write_pod
  open_extern-sent = (_, refl)

module _ (src dest fd exported : ℕ) where
  open_server-sent :
      (m : Msg) × (open_server (via Iids.extern_server src dest) fd exported false ≡ some m)
  unfolding open_server write_pod
  open_server-sent = (_, refl)

-- The message by which a descriptor is handed to an Extern, and to an ExternServer.
abbrev pub as_client : ℕ → ℕ → ℕ → ℕ → Option Msg
as_client src dest imported fd =
    open_extern (via Iids.extern src dest) fd extern_client imported Iids.null

abbrev pub as_server : ℕ → ℕ → ℕ → ℕ → Option Msg
as_server src dest exported fd = open_server (via Iids.extern_server src dest) fd exported false

keep_name-fds :
    {U : Type 0} (addr : Address) (fd : ℕ) (q : Process U)
    → ((keep_name addr fd q).fds ≡ q.fds) × ((keep_name addr fd q).sys ≡ q.sys)
unfolding keep_name
keep_name-fds (unix sun_path) fd q = (refl, refl)
keep_name-fds (ip4 sin_addr sin_port) fd q = (refl, refl)
keep_name-fds (ip6 sin6_addr sin6_port) fd q = (refl, refl)

module _ {U : Type 0} (k : Kernel) (src dest : ℕ) (addr : Address) (ifaces : ℕ)
    (p : Process U) where
  after_connect-Settles :
      (fd : ℕ) (r : Answered)
      → Settles
          (as_client src dest ifaces)
          p
          (after_connect (via Iids.extern src dest) fd ifaces r (opened fd p))
  unfolding after_connect
  after_connect-Settles fd (given r) =
      let m = open_extern-sent src dest fd ifaces Iids.null in
      handed-Settles (as_client src dest ifaces) p (opened fd p) fd m.0 m.1 refl refl
  after_connect-Settles fd (refused e) =
      let m = open_extern-sent src dest fd ifaces Iids.null in
      elim (Bool-cases (not (e == einprogress) && not (e == eintr))) [
        | inl t ↦ rw t (closed-Settles (as_client src dest ifaces) p (opened fd p) fd e refl refl)
        | inr t ↦ rw t (
            handed-Settles (as_client src dest ifaces) p (record (opened fd p) { errno = e }) fd m.0
              m.1 refl refl)
      ]

  after_socket-Settles :
      (r : Answered)
      → Settles
          (as_client src dest ifaces)
          p
          (after_socket k (via Iids.extern src dest) addr ifaces r p)
  unfolding after_socket
  after_socket-Settles (given fd) = after_connect-Settles fd (k.connect fd addr)
  after_socket-Settles (refused e) = record {
    value = none;
    after = _;
    returned = refl;
    settled = (refl, refl);
  }

  pub connect-Settles :
      Settles (as_client src dest ifaces) p (connect k (via Iids.extern src dest) addr ifaces p)
  unfolding connect
  connect-Settles = after_socket-Settles (k.socket (family addr))

  after_listen-Settles :
      (fd : ℕ) (q : Process U) (r : Answered)
      → q.fds ≡ fd ∷ p.fds
      → q.sys ≡ p.sys
      → Settles
          (as_server src dest ifaces)
          p
          (after_listen (via Iids.extern_server src dest) addr fd ifaces r q)
  unfolding after_listen
  after_listen-Settles fd q (given r) h l =
      let m = open_server-sent src dest fd ifaces in
      let (f, s) = keep_name-fds addr fd q in
      handed-Settles (as_server src dest ifaces) p (keep_name addr fd q) fd m.0 m.1 (f ∙ h) (s ∙ l)
  after_listen-Settles fd q (refused e) h l =
      closed-Settles (as_server src dest ifaces) p q fd e h l

  after_bind-Settles :
      (fd : ℕ) (r : Answered)
      → Settles
          (as_server src dest ifaces)
          p
          (after_bind k (via Iids.extern_server src dest) addr fd ifaces r (opened fd p))
  unfolding after_bind
  after_bind-Settles fd (given r) = after_listen-Settles fd (opened fd p) (k.listen fd) refl refl
  after_bind-Settles fd (refused e) = elim (Bool-cases (not (e == einprogress))) [
    | inl t ↦ rw t (closed-Settles (as_server src dest ifaces) p (opened fd p) fd e refl refl)
    | inr t ↦
        rw t (after_listen-Settles fd (record (opened fd p) { errno = e }) (k.listen fd) refl refl)
  ]

  after_server_socket-Settles :
      (r : Answered)
      → Settles
          (as_server src dest ifaces)
          p
          (after_server_socket k (via Iids.extern_server src dest) addr ifaces r p)
  unfolding after_server_socket
  after_server_socket-Settles (given fd) = after_bind-Settles fd (k.bind fd addr)
  after_server_socket-Settles (refused e) = record {
    value = none;
    after = _;
    returned = refl;
    settled = (refl, refl);
  }

  pub bind-Settles :
      Settles (as_server src dest ifaces) p (bind k (via Iids.extern_server src dest) addr ifaces p)
  unfolding bind
  bind-Settles = after_server_socket-Settles (k.socket (family addr))
