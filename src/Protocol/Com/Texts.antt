-- ===== src/Protocol/Com/Texts.antt =====
-- The calls of the COM interface, from the stub to the handler.
use casycom.Base.{
  ℕ, ◌+◌, ◌^◌, ◌<◌, ◌≡◌, refl, ap, sym, ◌∙◌, Bool, true, false, List, [], ◌∷◌, some, arith, ◌==◌,
  length, replicate, length-replicate, ceilg,
}
use casycom.Iids
use casycom.Stm.{Stm, size_string, read_string}
use casycom.Stm.Texts.{HasTextRoom, IsText, vlen_of, size_string-vlen}
use casycom.Stm.Strings.{Writes, write_string-Writes}
use casycom.Msg.{Proxy, Msg, begin, stream, written, no_fd_in_message}
use casycom.Msg.Signature.{validate_signature}
use casycom.Msg.Texts.{HasText, validate_signature-text}
use casycom.Protocol.Fields.{Delivers}
use casycom.Protocol.Sockets.{via}
use casycom.Protocol.Com.{
  method_error, method_export, method_delete, error, export, delete, checked, text_message,
  error_message, export_message, delete_message, com_dispatch,
}

-- A message with one text in its body.
pub record HasBody (pp : Proxy) (imethod : ℕ) (text : List ℕ) (msg : Msg) : Type 0 where
  pub same_proxy : msg.h ≡ pp
  pub same_method : msg.imethod ≡ imethod
  pub plain : msg.fdoffset ≡ no_fd_in_message
  pub valid : validate_signature (b's' ∷ []) msg ≡ some msg.size
  pub read : (rest : Stm) × (read_string (stream msg) ≡ some (text, rest))

module _ (pp : Proxy) (imethod : ℕ) (text : List ℕ) (t : IsText text)
    (small : length text + 1 < 2 ^ 32) where
  some_size : (size_string text == 0) ≡ false
  some_size = ground (arith, size_string-vlen text)

  -- The body before the text is written.
  abbrev blank : Stm
  blank = record { d = replicate (ceilg (size_string text) 8) 0; p = 0; end = size_string text }

  blank-room : HasTextRoom blank text
  unfolding ceilg
  blank-room = record {
    aligned = refl;
    inside = omega arith;
    block = omega (arith, length-replicate {A = ℕ} (ceilg (size_string text) 8) 0);
  }

  -- The message with the body of `s'`.
  abbrev sent : Stm → Msg
  sent s' = record {
    h = pp;
    imethod = imethod;
    size = size_string text;
    extid = 0;
    fdoffset = no_fd_in_message;
    body = s'.d;
  }

  stream-sent : (s' : Stm) → Writes blank text s' → stream (sent s') ≡ record s' { p = 0 }
  unfolding stream
  stream-sent s' w = ap (λ (e : ℕ). record s' { p = 0; end = e }) (sym w.same_end)

  HasText-sent : (s' : Stm) → Writes blank text s' → HasText (stream (sent s')) (vlen_of text)
  HasText-sent s' w = rw (stream-sent s' w) record {
    at_start = refl;
    count = w.count;
    last = w.last;
    ends = sym (w.same_end ∙ (size_string-vlen text).1);
    block = omega (arith, w.same_end, w.same_block, blank-room.block);
  }

  HasBody-sent : (s' : Stm) → Writes blank text s' → HasBody pp imethod text (sent s')
  HasBody-sent s' w = record {
    same_proxy = refl;
    same_method = refl;
    plain = refl;
    valid = validate_signature-text (sent s') (vlen_of text) (HasText-sent s' w);
    read = (s', rw (stream-sent s' w) w.text);
  }

  text_message-HasBody :
      (msg : Msg) × (text_message pp imethod text ≡ some msg) × HasBody pp imethod text msg
  unfolding text_message begin stream written checked
  text_message-HasBody =
      let (s', e, w) = write_string-Writes blank text blank-room t small in
      let body = HasBody-sent s' w in
      let own : (size_string text == size_string text) ≡ true = ground arith in
      (sent s', rw (some_size, e, body.valid, own) refl, body)

module _ (has_export : Bool) (src dest : ℕ) (text : List ℕ) (t : IsText text)
    (small : length text + 1 < 2 ^ 32) where
  error-Delivers :
      Delivers
        (via Iids.com_iid src dest)
        (b's' ∷ [])
        (com_dispatch has_export)
        (error text)
        (error_message (via Iids.com_iid src dest) text)
  unfolding error_message com_dispatch
  error-Delivers =
      let (msg, e, b) =
        text_message-HasBody (via Iids.com_iid src dest) method_error text t small in
      record {
        message = msg;
        sent = e;
        header = b.same_proxy;
        plain = b.plain;
        checked = b.valid;
        called = rw (b.same_proxy, b.same_method, b.read.1) refl;
      }

  export-Delivers :
      Delivers
        (via Iids.com_iid src dest)
        (b's' ∷ [])
        (com_dispatch true)
        (export text)
        (export_message (via Iids.com_iid src dest) text)
  unfolding export_message com_dispatch
  export-Delivers =
      let (msg, e, b) =
        text_message-HasBody (via Iids.com_iid src dest) method_export text t small in
      record {
        message = msg;
        sent = e;
        header = b.same_proxy;
        plain = b.plain;
        checked = b.valid;
        called = rw (b.same_proxy, b.same_method, b.read.1) refl;
      }

  delete-Delivers :
      Delivers
        (via Iids.com_iid src dest)
        []
        (com_dispatch has_export)
        delete
        (delete_message (via Iids.com_iid src dest))
  unfolding delete_message com_dispatch checked begin validate_signature
  delete-Delivers = record {
    message = begin (via Iids.com_iid src dest) method_delete 0;
    sent = refl;
    header = refl;
    plain = refl;
    checked = refl;
    called = refl;
  }

-- A text without zero bytes that a 32-bit length can count is delivered by the stubs of COM's error
-- and export to the handlers of a table that has them, and a call of delete to its handler; the
-- messages pass the checks of their signatures and go out under the COM proxy of the call.
pub com_calls-Delivers :
    (has_export : Bool) (src dest : ℕ) (text : List ℕ)
    → IsText text
    → length text + 1 < 2 ^ 32
    → Delivers
        (via Iids.com_iid src dest)
        (b's' ∷ [])
        (com_dispatch has_export)
        (error text)
        (error_message (via Iids.com_iid src dest) text)
      × Delivers
          (via Iids.com_iid src dest)
          (b's' ∷ [])
          (com_dispatch true)
          (export text)
          (export_message (via Iids.com_iid src dest) text)
      × Delivers
          (via Iids.com_iid src dest)
          []
          (com_dispatch has_export)
          delete
          (delete_message (via Iids.com_iid src dest))
com_calls-Delivers has_export src dest text t small = (
  error-Delivers has_export src dest text t small,
  export-Delivers has_export src dest text t small,
  delete-Delivers has_export src dest text t small,
)
