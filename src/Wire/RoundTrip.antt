-- ===== src/Wire/RoundTrip.antt =====
-- The header that the writing side makes, and what the reading side finds in it.
use mathlib.Core.List.{append_assoc}
use casycom.Base.{
  ℕ, zero, suc, ◌+◌, ◌-◌, ◌%◌, ◌^◌, ◌≤◌, ◌<◌, ◌≡◌, refl, ap, ◌∙◌, true, List, [], ◌∷◌, ◌++◌, length,
  drop, arith, ltb, leb, ◌==◌, get_elem?, get_or, some, length-append, length-replicate, replicate,
  le→leb, lt→ltb, ceilg,
}
use casycom.Stm.{le_bytes}
use casycom.Stm.Texts.{IsText}
use casycom.Stm.Values.{le_value-le_bytes}
use casycom.Msg.{Interface, Msg}
use casycom.Wire.{
  ExtMsgHeader, header_at, header_bytes, header_size, max_msg_header_size, name_bytes, method_bytes,
  marshal, lookup_in_msg_method, name_in_header, strlen,
}
use casycom.Wire.Strings.{take-length, strlen-text}
use casycom.Wire.Names.{
  strings, FirstSpelled, name_bytes-append, length-method_bytes, lookup_in_msg_method-finds,
}

-- Every field is in its range.
pub record IsInRange (h : ExtMsgHeader) : Type 0 where
  pub sz : h.sz < 256 ^ 4
  pub extid : h.extid < 256 ^ 2
  pub fdoffset : h.fdoffset < 256 ^ 1
  pub hsz : h.hsz < 256 ^ 1

pub header_at-header_bytes :
    (h : ExtMsgHeader) (rest : List ℕ) → IsInRange h → header_at (header_bytes h ++ rest) ≡ h
unfolding header_at header_bytes le_bytes
header_at-header_bytes h rest r = λ i. record {
  sz = le_value-le_bytes 4 h.sz r.sz i;
  extid = le_value-le_bytes 2 h.extid r.extid i;
  fdoffset = le_value-le_bytes 1 h.fdoffset r.fdoffset i;
  hsz = le_value-le_bytes 1 h.hsz r.hsz i;
}

pub length-header_bytes : (h : ExtMsgHeader) → length (header_bytes h) ≡ header_size
unfolding header_bytes le_bytes
length-header_bytes h = refl

pub drop-header_bytes :
    (h : ExtMsgHeader) (rest : List ℕ) → drop header_size (header_bytes h ++ rest) ≡ rest
unfolding header_bytes le_bytes
drop-header_bytes h rest = refl

pub ceilg_8 : (n : ℕ) → (n ≤ ceilg n 8) × (ceilg n 8 < n + 8) × (ceilg n 8 % 8 ≡ 0)
unfolding ceilg
ceilg_8 n = (omega arith, omega arith, omega arith)

get_or-append : (v r : List ℕ) (i : ℕ) → get_or (v ++ r) (length v + i) 0 ≡ get_or r i 0
get_or-append [] r i = ap (λ k. get_or r k 0) (omega arith)
get_or-append (x ∷ v) r i =
    let e : suc (length v) + i ≡ suc (length v + i) = omega arith in rw e (get_or-append v r i)

last_zero : (k : ℕ) (rest : List ℕ) → get_or (0 ∷ (replicate k 0 ++ rest)) k 0 ≡ 0
last_zero zero rest = refl
last_zero (suc k) rest = last_zero k rest

last-strings :
    (iid : Interface) (m : List ℕ × List ℕ) (k : ℕ) (rest : List ℕ)
    → get_or
        (strings iid m (replicate k 0 ++ rest))
        (length iid.name + suc (length m.0 + suc (length m.1 + k)))
        0
      ≡ 0
last-strings iid m k rest =
    get_or-append iid.name _ _
    ∙ (get_or-append m.0 _ _ ∙ (get_or-append m.1 _ _ ∙ last_zero k rest))

get_or-drop : (n : ℕ) (d : List ℕ) (i : ℕ) → get_or d (n + i) 0 ≡ get_or (drop n d) i 0
get_or-drop zero d i = ap (λ k. get_or d k 0) (omega arith)
get_or-drop (suc n) [] i = refl
get_or-drop (suc n) (x ∷ d) i =
    let e : suc n + i ≡ suc (n + i) = omega arith in rw e (get_or-drop n d i)

-- A message that can be sent: its method `m` is spelled by texts, and the header leaves room for the
-- bytes that the reading side wants behind it.
pub record IsWritable (interfaces : ℕ → Interface) (msg : Msg) (m : List ℕ × List ℕ) : Type 0 where
  pub found : get_elem? (interfaces msg.h.interface).method msg.imethod ≡ some m
  pub first : FirstSpelled (interfaces msg.h.interface).method msg.imethod m
  pub name : IsText (interfaces msg.h.interface).name
  pub method : IsText m.0
  pub signature : IsText m.1
  pub room : header_size + length (name_bytes (interfaces msg.h.interface) m) ≤ 240
  pub size : ceilg msg.size 8 < 256 ^ 4
  pub extid : msg.extid < 256 ^ 2
  pub fdoffset : msg.fdoffset < 256 ^ 1

-- What a reader of the block `hdr` finds, whatever bytes follow it.
pub record ReadsBack (interfaces : ℕ → Interface) (msg : Msg) (hdr : List ℕ) : Type 0 where
  pub short : length hdr < max_msg_header_size
  pub aligned : length hdr % 8 ≡ 0
  pub header :
      (rest : List ℕ)
      → header_at (hdr ++ rest) ≡ record {
        sz = ceilg msg.size 8;
        extid = msg.extid;
        fdoffset = msg.fdoffset;
        hsz = length hdr;
      }
  pub interface :
      (rest : List ℕ)
      → name_in_header (hdr ++ rest) (length hdr) ≡ some (some (interfaces msg.h.interface).name)
  pub method :
      (rest : List ℕ)
      → lookup_in_msg_method (hdr ++ rest) (interfaces msg.h.interface) ≡ msg.imethod

module _ (interfaces : ℕ → Interface) (msg : Msg) (m : List ℕ × List ℕ)
    (w : IsWritable interfaces msg m) where
  abbrev iid : Interface
  iid = interfaces msg.h.interface

  abbrev pub padded : ℕ
  padded = ceilg (length (name_bytes iid m)) 8

  abbrev pub pad : List ℕ
  pad = replicate (padded - length (name_bytes iid m)) 0

  abbrev pub fields : ExtMsgHeader
  fields = record {
    sz = ceilg msg.size 8;
    extid = msg.extid;
    fdoffset = msg.fdoffset;
    hsz = header_size + padded;
  }

  abbrev pub header : List ℕ
  header = header_bytes fields ++ (name_bytes iid m ++ pad)

  pub marshal-eq : marshal interfaces msg ≡ some header
  unfolding marshal
  marshal-eq =
      let t : leb (header_size + length (name_bytes iid m)) max_msg_header_size ≡ true =
        le→leb _ _ (omega (arith, w.room)) in
      rw (w.found, t) refl

  pub padded_bounds :
      (length (name_bytes iid m) ≤ padded) × (header_size + padded ≤ 240) × (padded % 8 ≡ 0)
  padded_bounds =
      let b = ceilg_8 (length (name_bytes iid m)) in (b.0, omega (arith, b.1, b.2, w.room), b.2)

  pub fields-IsInRange : IsInRange fields
  fields-IsInRange = record {
    sz = w.size;
    extid = w.extid;
    fdoffset = w.fdoffset;
    hsz = omega (arith, padded_bounds);
  }

  length-header : length header ≡ header_size + padded
  length-header = omega (
    arith,
    padded_bounds,
    length-header_bytes fields,
    length-append (header_bytes fields) (name_bytes iid m ++ pad),
    length-append (name_bytes iid m) pad,
    length-replicate {A = ℕ} (padded - length (name_bytes iid m)) 0,
  )

  after_fields : (rest : List ℕ) → drop header_size (header ++ rest) ≡ strings iid m (pad ++ rest)
  unfolding header_bytes le_bytes
  after_fields rest =
      append_assoc (name_bytes iid m) pad rest ∙ name_bytes-append iid m (pad ++ rest)

  read_fields : (rest : List ℕ) → header_at (header ++ rest) ≡ fields
  read_fields rest =
      ap header_at (append_assoc (header_bytes fields) (name_bytes iid m ++ pad) rest)
      ∙ header_at-header_bytes fields _ fields-IsInRange

  read_method : (rest : List ℕ) → lookup_in_msg_method (header ++ rest) iid ≡ msg.imethod
  read_method rest =
      lookup_in_msg_method-finds (header ++ rest) iid m (pad ++ rest) (after_fields rest)
        msg.imethod w.name w.method w.signature w.found w.first
        (omega (arith, padded_bounds, ap (λ (h : ExtMsgHeader). h.hsz) (read_fields rest)))

  last-header : (rest : List ℕ) → get_or (header ++ rest) (length header - 1) 0 ≡ 0
  last-header rest =
      let k : ℕ = padded - length (name_bytes iid m) in
      let at : ℕ = length iid.name + suc (length m.0 + suc (length m.1 + k)) in
      let len = length-append iid.name (0 ∷ method_bytes m) in
      let e : length header - 1 ≡ header_size + at =
        omega (arith, length-header, padded_bounds, len, length-method_bytes m) in
      rw e (
        get_or-drop header_size (header ++ rest) at
        ∙ (ap (λ (t : List ℕ). get_or t at 0) (after_fields rest) ∙ last-strings iid m k rest))

  read_name :
      (rest : List ℕ) → name_in_header (header ++ rest) (length header) ≡ some (some iid.name)
  unfolding name_in_header
  read_name rest =
      let len = length-append iid.name (0 ∷ method_bytes m) in
      let t1 : ltb (length header) max_msg_header_size ≡ true =
        lt→ltb _ _ (omega (arith, length-header, padded_bounds)) in
      let t2 : leb (header_size + 5) (length header) ≡ true =
        le→leb _ _ (omega (arith, length-header, padded_bounds, len, length-method_bytes m)) in
      let stop : (get_or (header ++ rest) (length header - 1) 0 == 0) ≡ true =
        rw (last-header rest) refl in
      let len : strlen (strings iid m (pad ++ rest)) ≡ length iid.name =
        strlen-text iid.name _ w.name in
      rw
        (
          t1,
          t2,
          stop,
          after_fields rest,
          len,
          take-length iid.name (0 ∷ (m.0 ++ (0 ∷ (m.1 ++ (0 ∷ (pad ++ rest)))))),
        )
        refl

-- For a message whose method exists, is the first one spelled with its name and signature, and has
-- texts that fit, the writing side makes a header that is shorter than the header buffer and whose
-- length is a multiple of 8; whatever bytes follow it, the reading side finds in it the aligned
-- size, the extid, the descriptor's offset and the length that were written, the name of the
-- interface, and the same method.
pub marshal-ReadsBack :
    (interfaces : ℕ → Interface) (msg : Msg) (m : List ℕ × List ℕ)
    → IsWritable interfaces msg m
    → (hdr : List ℕ) × (marshal interfaces msg ≡ some hdr) × ReadsBack interfaces msg hdr
marshal-ReadsBack interfaces msg m w =
    let len = length-header interfaces msg m w in
    let b = padded_bounds interfaces msg m w in
    (
      header interfaces msg m w,
      marshal-eq interfaces msg m w,
      record {
        short = omega (arith, len, b);
        aligned = omega (arith, len, b);
        header = λ rest. rw len (read_fields interfaces msg m w rest);
        interface = read_name interfaces msg m w;
        method = read_method interfaces msg m w;
      },
    )
