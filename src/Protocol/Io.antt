-- ===== src/Protocol/Io.antt =====
-- The IO, IOR and FdIO interfaces of io.h and io.c. A `CharVector*` is its address.
use casycom.Base.{ℕ, ◌^◌, ◌<◌, refl, ap, Bool, true, [], ◌∷◌, Option, some, ◌==◌, if◌then◌else◌}
use casycom.Base.Chain.{◌>>=◌, ◌>>◌}
use casycom.Iids
use casycom.Msg.{Interface, Proxy, Msg, begin, stream, written, default_dispatch}
use casycom.Msg.Signature.{validate_signature, validate_sigelement}
use casycom.Stm.{write_pod, read_pod}
use casycom.Protocol.Fields.{Delivers, value4, value8}

abbrev pub method_io_read : ℕ
method_io_read = 0

abbrev pub method_io_write : ℕ
method_io_write = 1

abbrev pub method_io_r_read : ℕ
method_io_r_read = 0

abbrev pub method_io_r_written : ℕ
method_io_r_written = 1

abbrev pub method_attach : ℕ
method_attach = 0

unfoldable pub io_read : Proxy → ℕ → Option Msg
unfolding begin stream written
io_read pp d = do
  let msg = record (begin pp method_io_read 8) { h = record pp { interface = Iids.io } }
  os1 ← write_pod 8 (stream msg) d
  some (written msg os1)

unfoldable pub io_write : Proxy → ℕ → Option Msg
unfolding begin stream written
io_write pp d = do
  let msg = record (begin pp method_io_write 8) { h = record pp { interface = Iids.io } }
  os1 ← write_pod 8 (stream msg) d
  some (written msg os1)

pub data IoCall : Type 0 where
  read : (d : ℕ) → IoCall
  write : (d : ℕ) → IoCall
  nothing : IoCall

-- The one pointer that a message of IO or IOR carries.
pointer : Msg → Option ℕ
unfolding stream
pointer msg = do (d, is1) ← read_pod 8 (stream msg); some d

unfoldable pub io_dispatch : Msg → Option IoCall
unfolding pointer
io_dispatch msg =
    if msg.imethod == method_io_read
    then (pointer msg >>= λ d. some (read d))
    else if msg.imethod == method_io_write
    then (pointer msg >>= λ d. some (write d))
    else do default_dispatch msg; some nothing

abbrev pub i_io : Interface
i_io = record {
  name = b'I' ∷ b'O' ∷ [];
  method =
      (b'r' ∷ b'e' ∷ b'a' ∷ b'd' ∷ [], b'x' ∷ [])
      ∷ (b'w' ∷ b'r' ∷ b'i' ∷ b't' ∷ b'e' ∷ [], b'x' ∷ [])
      ∷ [];
}

unfoldable pub io_r_read : Proxy → ℕ → Option Msg
unfolding begin stream written
io_r_read pp d = do
  let msg = begin pp method_io_r_read 8
  os1 ← write_pod 8 (stream msg) d
  some (written msg os1)

unfoldable pub io_r_written : Proxy → ℕ → Option Msg
unfolding begin stream written
io_r_written pp d = do
  let msg = begin pp method_io_r_written 8
  os1 ← write_pod 8 (stream msg) d
  some (written msg os1)

-- `Dior`: which handlers the table has.
pub record Dior : Type 0 where
  pub has_read : Bool
  pub has_written : Bool

pub data IoRCall : Type 0 where
  was_read : (d : ℕ) → IoRCall
  was_written : (d : ℕ) → IoRCall
  unheard : IoRCall

unfoldable pub io_r_dispatch : Dior → Msg → Option IoRCall
unfolding pointer
io_r_dispatch dtable msg =
    if msg.imethod == method_io_r_read
    then (pointer msg >>= λ d. some (if dtable.has_read then was_read d else unheard))
    else if msg.imethod == method_io_r_written
    then (pointer msg >>= λ d. some (if dtable.has_written then was_written d else unheard))
    else do default_dispatch msg; some unheard

abbrev pub i_io_r : Interface
i_io_r = record {
  name = b'I' ∷ b'O' ∷ b'R' ∷ [];
  method =
      (b'r' ∷ b'e' ∷ b'a' ∷ b'd' ∷ [], b'x' ∷ [])
      ∷ (b'w' ∷ b'r' ∷ b'i' ∷ b't' ∷ b't' ∷ b'e' ∷ b'n' ∷ [], b'x' ∷ [])
      ∷ [];
}

unfoldable pub attach : Proxy → ℕ → Option Msg
unfolding begin stream written
attach pp fd = do
  let msg = begin pp method_attach 4
  os1 ← write_pod 4 (stream msg) fd
  some (written msg os1)

pub data FdIoCall : Type 0 where
  attached : (fd : ℕ) → FdIoCall
  ignored : FdIoCall

dispatch_attach : Msg → Option FdIoCall
unfolding stream
dispatch_attach msg = do (fd, is1) ← read_pod 4 (stream msg); some (attached fd)

unfoldable pub fd_io_dispatch : Msg → Option FdIoCall
unfolding dispatch_attach
fd_io_dispatch msg =
    if msg.imethod == method_attach
    then dispatch_attach msg
    else do default_dispatch msg; some ignored

abbrev pub i_fd_io : Interface
i_fd_io = record {
  name = b'F' ∷ b'd' ∷ b'I' ∷ b'O' ∷ [];
  method = (b'a' ∷ b't' ∷ b't' ∷ b'a' ∷ b'c' ∷ b'h' ∷ [], b'i' ∷ []) ∷ [];
}

abbrev pub both : Dior
both = record { has_read = true; has_written = true }

-- A call of `PIO_read` with a 64-bit pointer goes out as a message of IO, whatever the interface of
-- the proxy, passes the check of its signature and reaches the handler with the pointer.
pub io_read-Delivers :
    (pp : Proxy) (d : ℕ)
    → d < 2 ^ 64
    → Delivers (record pp { interface = Iids.io }) (b'x' ∷ []) io_dispatch (read d) (io_read pp d)
unfolding io_read io_dispatch validate_signature validate_sigelement write_pod read_pod
io_read-Delivers pp d h = record {
  message = _;
  sent = refl;
  header = refl;
  plain = refl;
  checked = refl;
  called = ap (λ a. some (read a)) (value8 d h);
}

-- A call of `PIO_write` with a 64-bit pointer goes out as a message of IO, whatever the interface
-- of the proxy, passes the check of its signature and reaches the handler with the pointer.
pub io_write-Delivers :
    (pp : Proxy) (d : ℕ)
    → d < 2 ^ 64
    → Delivers (record pp { interface = Iids.io }) (b'x' ∷ []) io_dispatch (write d) (io_write pp d)
unfolding io_write io_dispatch validate_signature validate_sigelement write_pod read_pod
io_write-Delivers pp d h = record {
  message = _;
  sent = refl;
  header = refl;
  plain = refl;
  checked = refl;
  called = ap (λ a. some (write a)) (value8 d h);
}

-- A call of `PIOR_read` with a 64-bit pointer passes the check of its signature and reaches a table
-- with both handlers with the pointer.
pub io_r_read-Delivers :
    (pp : Proxy) (d : ℕ)
    → d < 2 ^ 64
    → Delivers pp (b'x' ∷ []) (io_r_dispatch both) (was_read d) (io_r_read pp d)
unfolding io_r_read io_r_dispatch validate_signature validate_sigelement write_pod read_pod
io_r_read-Delivers pp d h = record {
  message = _;
  sent = refl;
  header = refl;
  plain = refl;
  checked = refl;
  called = ap (λ a. some (was_read a)) (value8 d h);
}

-- A call of `PIOR_written` with a 64-bit pointer passes the check of its signature and reaches a
-- table with both handlers with the pointer.
pub io_r_written-Delivers :
    (pp : Proxy) (d : ℕ)
    → d < 2 ^ 64
    → Delivers pp (b'x' ∷ []) (io_r_dispatch both) (was_written d) (io_r_written pp d)
unfolding io_r_written io_r_dispatch validate_signature validate_sigelement write_pod read_pod
io_r_written-Delivers pp d h = record {
  message = _;
  sent = refl;
  header = refl;
  plain = refl;
  checked = refl;
  called = ap (λ a. some (was_written a)) (value8 d h);
}

-- A call of `PFdIO_attach` with a 32-bit descriptor passes the check of its signature and reaches
-- the handler with it.
pub attach-Delivers :
    (pp : Proxy) (fd : ℕ)
    → fd < 2 ^ 32
    → Delivers pp (b'i' ∷ []) fd_io_dispatch (attached fd) (attach pp fd)
unfolding attach fd_io_dispatch validate_signature validate_sigelement write_pod read_pod
attach-Delivers pp fd h = record {
  message = _;
  sent = refl;
  header = refl;
  plain = refl;
  checked = refl;
  called = ap (λ a. some (attached a)) (value4 fd h);
}

-- Calls of `PIO_read` and `PIO_write`, which go out as messages of IO whatever the interface of the
-- proxy, of `PIOR_read` and `PIOR_written`, and of `PFdIO_attach`, with a 64-bit pointer or a
-- 32-bit descriptor, pass the checks of their signatures and reach the handlers with it.
pub io_calls-Delivers :
    (pp : Proxy) (d fd : ℕ)
    → d < 2 ^ 64
    → fd < 2 ^ 32
    → Delivers (record pp { interface = Iids.io }) (b'x' ∷ []) io_dispatch (read d) (io_read pp d)
      × Delivers
          (record pp { interface = Iids.io })
          (b'x' ∷ [])
          io_dispatch
          (write d)
          (io_write pp d)
      × Delivers pp (b'x' ∷ []) (io_r_dispatch both) (was_read d) (io_r_read pp d)
      × Delivers pp (b'x' ∷ []) (io_r_dispatch both) (was_written d) (io_r_written pp d)
      × Delivers pp (b'i' ∷ []) fd_io_dispatch (attached fd) (attach pp fd)
io_calls-Delivers pp d fd h k = (
  io_read-Delivers pp d h,
  io_write-Delivers pp d h,
  io_r_read-Delivers pp d h,
  io_r_written-Delivers pp d h,
  attach-Delivers pp fd k,
)
