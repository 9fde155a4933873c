-- ===== src/Sockets/Named.antt =====
-- Local sockets by name.
use casycom.Base.{
  ℕ, ◌-◌, ◌≤◌, ◌<◌, ◌≡◌, refl, ap, true, false, List, [], ◌∷◌, ◌++◌, Option, none, some, leb,
  length, take, arith, le→leb, inl, inr, Bool-cases,
}
use casycom.Base.Chain.{◌>>=◌}
use casycom.Msg.{Msg, Proxy}
use casycom.Externs.Reading.Pieces.{take_whole}
use casycom.Protocol.Sockets.{via}
use casycom.Iids
use casycom.Sockets.{
  Address, Kernel, Process, Called, unix, sun_path_size, failed, enametoolong, connect, bind,
  connect_name, bind_name,
}
use casycom.Sockets.Settled.{
  Settles, IsSettled, as_client, as_server, connect-Settles, bind-Settles,
}

-- `chmod` of the name after the call, whatever that has returned.
abbrev pub with_mode : {U : Type 0} → List ℕ → ℕ → Called U → Called U
with_mode text mode r =
    r >>= λ (fd, q). some (fd, record q { modes = q.modes ++ ((text, mode) ∷ []) })

with_mode-IsSettled :
    {U : Type 0} (msg : ℕ → Option Msg) (modes : List (List ℕ × ℕ)) (p q : Process U)
    (fd : Option ℕ)
    → IsSettled msg p fd q
    → IsSettled msg p fd (record q { modes = modes })
with_mode-IsSettled msg modes p q none s = s
with_mode-IsSettled msg modes p q (some fd) s = s

with_mode-Settles :
    {U : Type 0} (msg : ℕ → Option Msg) (text : List ℕ) (mode : ℕ) (p : Process U) (r : Called U)
    → Settles msg p r
    → Settles msg p (with_mode text mode r)
with_mode-Settles msg text mode p r s = record {
  value = s.value;
  after = record s.after { modes = s.after.modes ++ ((text, mode) ∷ []) };
  returned = ap (with_mode text mode) (s.returned);
  settled =
      with_mode-IsSettled msg (s.after.modes ++ ((text, mode) ∷ [])) p s.after s.value s.settled;
}

module _ {U : Type 0} (k : Kernel) (pp : Proxy) (text : List ℕ) (mode ifaces : ℕ)
    (p : Process U) where
  -- A name that with its terminator does not fit in `sun_path` is refused with ENAMETOOLONG and nothing else
  -- happens; any other is the address of the socket just as it is.
  pub name-fits :
      (length text < sun_path_size
        → (connect_name k pp text ifaces p ≡ connect k pp (unix text) ifaces p)
          × (bind_name k pp text mode ifaces p
              ≡ with_mode text mode (bind k pp (unix text) ifaces p)))
      × (sun_path_size ≤ length text
          → (connect_name k pp text ifaces p ≡ failed enametoolong p)
            × (bind_name k pp text mode ifaces p ≡ failed enametoolong p))
  unfolding connect_name bind_name
  name-fits = (
    (λ h.
        let t : leb sun_path_size (length text) ≡ false = ground (arith, h) in
        let whole : take (sun_path_size - 1) text ≡ text =
          take_whole (sun_path_size - 1) text (omega (arith, h)) in
        rw (t, whole) (refl, refl)),
    λ h. let t : leb sun_path_size (length text) ≡ true = le→leb _ _ h in rw t (refl, refl),
  )

too_long-Settles :
    {U : Type 0} (msg : ℕ → Option Msg) (p : Process U) → Settles msg p (failed enametoolong p)
too_long-Settles msg p = record { value = none; after = _; returned = refl; settled = (refl, refl) }

module _ {U : Type 0} (k : Kernel) (src dest : ℕ) (text : List ℕ) (mode ifaces : ℕ)
    (p : Process U) where
  connect_name-Settles :
      Settles
        (as_client src dest ifaces)
        p
        (connect_name k (via Iids.extern src dest) text ifaces p)
  unfolding connect_name
  connect_name-Settles = elim (Bool-cases (leb sun_path_size (length text))) [
    | inl t ↦ rw t (too_long-Settles (as_client src dest ifaces) p)
    | inr t ↦ rw t (connect-Settles k src dest (unix (take (sun_path_size - 1) text)) ifaces p)
  ]

  bind_name-Settles :
      Settles
        (as_server src dest ifaces)
        p
        (bind_name k (via Iids.extern_server src dest) text mode ifaces p)
  unfolding bind_name
  bind_name-Settles = elim (Bool-cases (leb sun_path_size (length text))) [
    | inl t ↦ rw t (too_long-Settles (as_server src dest ifaces) p)
    | inr t ↦ rw t (
        with_mode-Settles (as_server src dest ifaces) (take (sun_path_size - 1) text) mode p
          (bind k (via Iids.extern_server src dest) (unix (take (sun_path_size - 1) text)) ifaces p)
          (bind-Settles k src dest (unix (take (sun_path_size - 1) text)) ifaces p))
  ]

  -- Whatever the system calls answer, a call that connects or binds a socket by its address or by its name
  -- either fails, and leaves no descriptor open and no message sent, or returns a descriptor, which is the
  -- only one more that is open, and sends just the message that hands it to the object.
  pub calls-Settle :
      (addr : Address)
      → Settles (as_client src dest ifaces) p (connect k (via Iids.extern src dest) addr ifaces p)
        × Settles
            (as_server src dest ifaces)
            p
            (bind k (via Iids.extern_server src dest) addr ifaces p)
        × Settles
            (as_client src dest ifaces)
            p
            (connect_name k (via Iids.extern src dest) text ifaces p)
        × Settles
            (as_server src dest ifaces)
            p
            (bind_name k (via Iids.extern_server src dest) text mode ifaces p)
  calls-Settle addr = (
    connect-Settles k src dest addr ifaces p,
    bind-Settles k src dest addr ifaces p,
    connect_name-Settles,
    bind_name-Settles,
  )
