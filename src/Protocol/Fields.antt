-- ===== src/Protocol/Fields.antt =====
-- What the stubs of all interfaces share: the values of the fields as they stand in the body, and what
-- it means that a call is delivered.
use casycom.Base.{ℕ, ◌^◌, ◌<◌, ◌≡◌, List, Option, some}
use casycom.Stm.{le_bytes, le_value}
use casycom.Stm.Values.{le_value-le_bytes}
use casycom.Msg.{Msg, Proxy, no_fd_in_message}
use casycom.Msg.Signature.{validate_signature}

pub value1 : (v : ℕ) → v < 2 ^ 8 → le_value (le_bytes 1 v) ≡ v
value1 v h = le_value-le_bytes 1 v h

pub value4 : (v : ℕ) → v < 2 ^ 32 → le_value (le_bytes 4 v) ≡ v
value4 v h = le_value-le_bytes 4 v h

pub value8 : (v : ℕ) → v < 2 ^ 64 → le_value (le_bytes 8 v) ≡ v
value8 v h = le_value-le_bytes 8 v h

-- A stub's message goes out under the proxy `h`, passes the check of its signature with just its
-- size, carries no file descriptor, and makes the dispatcher call `call`.
pub record Delivers {C : Type 0} (h : Proxy) (sig : List ℕ) (dispatch : Msg → Option C) (call : C)
    (stub : Option Msg) : Type 0 where
  pub message : Msg
  pub sent : stub ≡ some message
  pub header : message.h ≡ h
  pub plain : message.fdoffset ≡ no_fd_in_message
  pub checked : validate_signature sig message ≡ some message.size
  pub called : dispatch message ≡ some call
