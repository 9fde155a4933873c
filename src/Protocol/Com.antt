-- ===== src/Protocol/Com.antt =====
-- The COM interface of xcom.c, which Externs and relays speak with one another.
pub mod Texts
use casycom.Base.{ℕ, Bool, List, [], ◌∷◌, Option, some, ◌==◌, if◌then◌else◌, not}
use casycom.Base.Chain.{◌>>=◌, ◌>>◌, assert}
use casycom.Iids
use casycom.Msg.{
  Interface, Proxy, Msg, begin, stream, written, default_dispatch, method_create_object,
}
use casycom.Msg.Signature.{validate_signature}
use casycom.Stm.{size_string, write_string, read_string}

abbrev pub method_error : ℕ
method_error = 0

abbrev pub method_export : ℕ
method_export = 1

abbrev pub method_delete : ℕ
method_delete = 2

-- `assert (msg->size == casymsg_validate_signature (msg))`.
unfoldable pub checked : List ℕ → Msg → Option Msg
unfolding validate_signature
checked sig msg = do size ← validate_signature sig msg; assert (msg.size == size); some msg

unfoldable pub text_message : Proxy → ℕ → List ℕ → Option Msg
unfolding begin stream written checked
text_message pp imethod text = do
  let msg = begin pp imethod (size_string text)
  os ← write_string (stream msg) text
  checked (b's' ∷ []) (written msg os)

unfoldable pub error_message : Proxy → List ℕ → Option Msg
unfolding text_message
error_message pp error = text_message pp method_error error

unfoldable pub export_message : Proxy → List ℕ → Option Msg
unfolding text_message
export_message pp elist = text_message pp method_export elist

unfoldable pub delete_message : Proxy → Option Msg
unfolding begin checked
delete_message pp = checked [] (begin pp method_delete 0)

unfoldable pub create_object_message : Proxy → Msg
unfolding begin
create_object_message pp = begin pp method_create_object 0

-- The handler that is called; a message of another interface goes to `COMRelay_COM_message`.
pub data ComCall : Type 0 where
  relay : ComCall
  error : List ℕ → ComCall
  export : List ℕ → ComCall
  delete : ComCall
  nothing : ComCall

-- `has_export` tells whether the table has the handler.
unfoldable pub com_dispatch : Bool → Msg → Option ComCall
unfolding stream
com_dispatch has_export msg =
    if not (msg.h.interface == Iids.com_iid)
    then some relay
    else if msg.imethod == method_error
    then (read_string (stream msg) >>= λ r. some (error r.0))
    else if msg.imethod == method_export
    then (read_string (stream msg) >>= λ r. some (if has_export then export r.0 else nothing))
    else if msg.imethod == method_delete
    then some delete
    else (default_dispatch msg >> some nothing)

abbrev pub i_com : Interface
i_com = record {
  name = b'C' ∷ b'O' ∷ b'M' ∷ [];
  method =
      (b'e' ∷ b'r' ∷ b'r' ∷ b'o' ∷ b'r' ∷ [], b's' ∷ [])
      ∷ (b'e' ∷ b'x' ∷ b'p' ∷ b'o' ∷ b'r' ∷ b't' ∷ [], b's' ∷ [])
      ∷ (b'd' ∷ b'e' ∷ b'l' ∷ b'e' ∷ b't' ∷ b'e' ∷ [], [])
      ∷ [];
}
