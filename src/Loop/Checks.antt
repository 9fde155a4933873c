-- ===== src/Loop/Checks.antt =====
-- The checks of `casycom_queue_message`, and what a message that passes them meets when it is delivered.
use casycom.Base.{
  ℕ, ◌+◌, ◌≡◌, refl, ap, ◌∙◌, Bool, true, false, not, ◌&&◌, ◌||◌, List, [], ◌∷◌, Option, some, ◌==◌,
  leb, ltb, if◌then◌else◌, length, ceilg, arith, inl, inr, ◌⊎◌, Bool-cases,
}
use casycom.Base.Chain.{◌>>=◌, ◌>>◌, assert, >>=-eq-some}
use casycom.Iids
use casycom.Msg.{
  Interface, Msg, count_methods, signature_of, method_create_object, no_fd_in_message,
}
use casycom.Msg.Signature.{validate_signature}
use casycom.Links.{MsgLink, link_for_proxy}
use casycom.Registry.{Dtable, find_factory, find_dtable}
use casycom.Loop.{Sys, link_to, queue_message}

abbrev is_null : List ℕ → Bool
is_null [] = true
is_null (b ∷ bs) = false

-- `strchr (sig, c)`.
unfoldable has_char : List ℕ → ℕ → Bool
has_char [] c = false
has_char (x ∷ sig) c = x == c || has_char sig c

-- The offset of a descriptor in the body.
unfoldable is_fd_in_body : Msg → Bool
unfolding ceilg
is_fd_in_body msg =
    msg.fdoffset == no_fd_in_message
    || (leb (msg.fdoffset + 4) msg.size && (ceilg msg.fdoffset 4 == msg.fdoffset))

-- What is checked of a call of a method, with the signature of the method.
unfoldable check_body : List ℕ → Msg → ℕ → Option (Unit {0})
unfolding has_char is_fd_in_body
check_body sig msg vmsgsize = do
  assert (msg.size == vmsgsize)
  assert (not (has_char sig b'h') || not (msg.fdoffset == no_fd_in_message))
  assert (is_fd_in_body msg)

unfoldable check_signature : Msg → List ℕ → Option (Unit {0})
unfolding validate_signature check_body
check_signature msg sig = validate_signature sig msg >>= check_body sig msg

unfoldable pub check_call : Interface → Msg → Option (Unit {0})
unfolding count_methods signature_of check_signature
check_call iid msg = do
  assert (ltb msg.imethod (count_methods iid))
  signature_of iid msg.imethod >>= check_signature msg

unfoldable pub check_method : Interface → Msg → Option (Unit {0})
unfolding check_call
check_method iid msg =
    if not (msg.imethod == method_create_object)
    then check_call iid msg
    else assert (msg.size == 0 && (msg.fdoffset == no_fd_in_message))

module _ {U : Type 0} (dtable : ℕ → List Dtable) where
  -- The class of the destination has the interface, and the message came through a link.
  unfoldable pub check_destination : Msg → Sys U → Option (Unit {0})
  unfolding link_for_proxy
  check_destination msg s = do
    destl ← link_to s.omap msg.h.dest
    table ← find_dtable dtable s.registry destl.factory msg.h.interface
    assert (ltb (link_for_proxy s.omap msg.h) (length s.omap))

module _ {U : Type 0} (interfaces : ℕ → Interface) (dtable : ℕ → List Dtable) where
  -- `casycom_queue_message` where its checks are compiled in; `none` is one that fails.
  unfoldable pub queue_message_checked : Msg → Sys U → Option (Sys U)
  unfolding check_destination check_method queue_message
  queue_message_checked msg s = do
    assert (not (msg.h.interface == Iids.null) && (msg.size == 0 || not (is_null msg.body)))
    assert (not (find_factory dtable s.registry msg.h.interface == Iids.null))
    check_destination dtable msg s
    check_method (interfaces msg.h.interface) msg
    some (queue_message msg s)

-- The body is what the signature of the message's method says, or the message asks for an object to be made.
pub record HasMethod (iid : Interface) (msg : Msg) : Type 0 where
  pub sig : List ℕ
  pub method : signature_of iid msg.imethod ≡ some sig
  pub size : validate_signature sig msg ≡ some msg.size

abbrev pub IsCall : Interface → Msg → Type 0
IsCall iid msg = (msg.imethod ≡ method_create_object) ⊎ HasMethod iid msg

module _ {U : Type 0} (dtable : ℕ → List Dtable) where
  -- There is a link to the destination, and its class has a table for the interface.
  pub record IsTyped (msg : Msg) (s : Sys U) : Type 0 where
    pub link : MsgLink
    pub table : Dtable
    pub linked : link_to s.omap msg.h.dest ≡ some link
    pub supported : find_dtable dtable s.registry link.factory msg.h.interface ≡ some table

pub assert-then :
    {B : Type 0} (b : Bool) (m : Option B) {r : B}
    → (assert b >> m) ≡ some r
    → (b ≡ true) × (m ≡ some r)
assert-then true m h = (refl, h)
assert-then false m h = cc

check_signature-size :
    (msg : Msg) (sig : List ℕ) {u : Unit {0}}
    → check_signature msg sig ≡ some u
    → validate_signature sig msg ≡ some msg.size
unfolding check_signature check_body
check_signature-size msg sig h =
    let (size, valid, h1) = >>=-eq-some (validate_signature sig msg) (check_body sig msg) h in
    let (t, h2) = assert-then (msg.size == size) _ h1 in
    let same : size ≡ msg.size = ground (arith, t) in valid ∙ ap (λ n. some n) same

pub check_method-IsCall :
    (iid : Interface) (msg : Msg) {u : Unit {0}} → check_method iid msg ≡ some u → IsCall iid msg
unfolding check_method check_call
check_method-IsCall iid msg h = elim (Bool-cases (msg.imethod == method_create_object)) [
  | inl new ↦ inl (ground (arith, new))
  | inr call ↦
      let (t, h1) =
        assert-then (ltb msg.imethod (count_methods iid))
          (signature_of iid msg.imethod >>= check_signature msg) (rw call at h) in
      let (sig, of, h2) = >>=-eq-some (signature_of iid msg.imethod) (check_signature msg) h1 in
      inr (record { sig = sig; method = of; size = check_signature-size msg sig h2 })
]
