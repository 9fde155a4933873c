-- ===== src/Externs/Incoming/Recognised.antt =====
-- A message that the other side's `Extern_writing` has sent, in the header's buffer.
use casycom.Base.{
  ℕ, ◌≡◌, ◌≢◌, refl, ap, sym, ◌∙◌, true, false, List, ◌++◌, some, ◌==◌, arith, length, ceilg,
  Option-cases, inl, inr, get_elem?,
}
use mathlib.Core.Option.{some-injective}
use casycom.Msg.{Interface, Msg, signature_of, method_invalid}
use casycom.Msg.Signature.{validate_signature}
use casycom.Registry.{interface_by_name}
use casycom.Registry.Names.{Known, FindsName, interface_by_name-FindsName}
use casycom.Wire.{marshal, name_in_header, lookup_in_msg_method}
use casycom.Wire.RoundTrip.{IsWritable, ReadsBack, marshal-ReadsBack}
use casycom.Externs.{Extern, Net}
use casycom.Externs.Incoming.{Program, lookup_in_msg_interface, check_body, recognise}

-- The interface is known here under a name of its own.
pub record IsImported (p : Program) {U : Type 0} (n : Net U) (iid : ℕ) : Type 0 where
  pub known : Known p.dtable (λ i. (p.interfaces i).name) n.sys.registry iid
  pub unique : (i : ℕ) → (p.interfaces i).name ≡ (p.interfaces iid).name → i ≡ iid

interface_by_name-found :
    {U : Type 0} (p : Program) (n : Net U) (iid : ℕ)
    → IsImported p n iid
    → interface_by_name p.dtable (λ i. (p.interfaces i).name) n.sys.registry (p.interfaces iid).name
      ≡ some iid
interface_by_name-found p n iid k =
    let f =
      interface_by_name-FindsName p.dtable (λ i. (p.interfaces i).name) n.sys.registry
        (p.interfaces iid).name in
    elim (Option-cases (
      interface_by_name p.dtable (λ i. (p.interfaces i).name) n.sys.registry
        (p.interfaces iid).name)) [
          | inl e ↦ absurd (FindsName.complete f iid k.known refl e)
          | inr (i, e) ↦ e ∙ ap some (k.unique i ((FindsName.sound f i e).1))
        ]

-- The message with what its header and its body tell.
abbrev pub as_sent : Msg → ℕ → ℕ → ℕ → Msg
as_sent msg iid imethod size = record msg {
  h = record msg.h { interface = iid };
  imethod = imethod;
  size = size;
}

module _ {U : Type 0} (p : Program) (n : Net U) (o : Extern) (iid : ℕ) (sent : Msg) (hdr : List ℕ)
    (interfaces : ℕ → Interface) (m : List ℕ × List ℕ) (imported : IsImported p n iid)
    (same : p.interfaces iid ≡ interfaces sent.h.interface)
    (found : get_elem? (interfaces sent.h.interface).method sent.imethod ≡ some m)
    (back : ReadsBack interfaces sent hdr) (rest : List ℕ) (buffer : o.h_buf ≡ hdr ++ rest)
    (read : o.h_read ≡ length hdr) where
  interface_read : lookup_in_msg_interface p o n ≡ some (some iid)
  unfolding lookup_in_msg_interface
  interface_read =
      let name : name_in_header o.h_buf o.h_read ≡ some (some (p.interfaces iid).name) =
        rw (buffer, read, same) (back.interface rest) in
      rw name (ap some (interface_by_name-found p n iid imported))

  method_read : lookup_in_msg_method o.h_buf (p.interfaces iid) ≡ sent.imethod
  method_read = rw (buffer, same) (back.method rest)

  signature_read : signature_of (p.interfaces iid) sent.imethod ≡ some m.1
  unfolding signature_of
  signature_read = rw (same, signature_of) (rw (found, signature_of) refl)

  recognise-eq :
      (msg : Msg) (size : ℕ)
      → sent.imethod ≢ method_invalid
      → validate_signature m.1 (as_sent msg iid sent.imethod msg.size) ≡ some size
      → msg.size ≡ ceilg size 8
      → recognise p o msg n ≡ some (some (as_sent msg iid sent.imethod size))
  unfolding recognise check_body
  recognise-eq msg size valid body aligned =
      let t : (sent.imethod == method_invalid) ≡ false = ground (arith, valid) in
      let u : (ceilg size 8 == msg.size) ≡ true = ground (arith, aligned) in
      rw (interface_read, method_read, t, signature_read, body, u) refl

-- What the reading side knows of a message that was sent: its interface under its own address, the
-- header's block at the front of its buffer, and a body that passes the check of the signature.
pub record Arrives {U : Type 0} (p : Program) (n : Net U) (o : Extern) (msg : Msg)
    (interfaces : ℕ → Interface) (sent : Msg) (m : List ℕ × List ℕ) (hdr : List ℕ) (iid : ℕ)
    : Type 0 where
  pub imported : IsImported p n iid
  pub same : p.interfaces iid ≡ interfaces sent.h.interface
  pub rest : List ℕ
  pub buffer : o.h_buf ≡ hdr ++ rest
  pub read : o.h_read ≡ length hdr
  pub a_method : sent.imethod ≢ method_invalid
  pub body : validate_signature m.1 (as_sent msg iid sent.imethod msg.size) ≡ some sent.size
  pub size : msg.size ≡ ceilg sent.size 8

-- A message that `Extern_writing` marshals is recognised by `Extern_validate_message` on the other
-- side, when the header's block is what was read, the interface is known there under a unique name,
-- and the body passes the check of the method's signature with the size sent: it gets the address
-- of the same interface, the index of the same method, and the size that it had.
pub recognise-marshal :
    {U : Type 0} (p : Program) (n : Net U) (o : Extern) (msg : Msg) (interfaces : ℕ → Interface)
    (sent : Msg) (m : List ℕ × List ℕ) (hdr : List ℕ) (iid : ℕ)
    → IsWritable interfaces sent m
    → marshal interfaces sent ≡ some hdr
    → Arrives p n o msg interfaces sent m hdr iid
    → recognise p o msg n ≡ some (some (as_sent msg iid sent.imethod sent.size))
recognise-marshal p n o msg interfaces sent m hdr iid w e a =
    let (hdr', e', back) = marshal-ReadsBack interfaces sent m w in
    let h : hdr' ≡ hdr = some-injective hdr' hdr (sym e' ∙ e) in
    recognise-eq p n o iid sent hdr interfaces m a.imported a.same w.found (rw h at back) a.rest
      a.buffer a.read msg sent.size a.a_method a.body a.size
