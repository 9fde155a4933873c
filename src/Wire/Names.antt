-- ===== src/Wire/Names.antt =====
-- The method of a message, looked up by the names in its header.
use mathlib.Core.List.{append_assoc}
use casycom.Base.{
  ℕ, zero, suc, ◌+◌, ◌-◌, ◌≤◌, ◌<◌, ◌≡◌, ◌≢◌, refl, ap, ◌∙◌, sym, false, List, [], ◌∷◌, ◌++◌,
  length, take, drop, arith, ltb, leb, get_elem?, some, inl, inr, length-append, Bool-cases,
}
use casycom.Stm.Texts.{IsText}
use casycom.Msg.{Interface}
use casycom.Registry.{same_name}
use casycom.Registry.Names.{same_name-eq, same_name_refl}
use casycom.Wire.{
  header_at, header_size, method_bytes, name_bytes, strnext, method_from, lookup_in_msg_method,
}
use casycom.Wire.Strings.{strnext-text, drop-text, take-length}

-- The texts in the header, with the bytes after them.
abbrev pub strings : Interface → List ℕ × List ℕ → List ℕ → List ℕ
strings iid m rest = iid.name ++ (0 ∷ (m.0 ++ (0 ∷ (m.1 ++ (0 ∷ rest)))))

pub method_bytes-append :
    (m : List ℕ × List ℕ) (rest : List ℕ)
    → method_bytes m ++ rest ≡ m.0 ++ (0 ∷ (m.1 ++ (0 ∷ rest)))
method_bytes-append m rest =
    append_assoc m.0 (0 ∷ (m.1 ++ (0 ∷ []))) rest
    ∙ ap (λ (t : List ℕ). m.0 ++ (0 ∷ t)) (append_assoc m.1 (0 ∷ []) rest)

pub name_bytes-append :
    (iid : Interface) (m : List ℕ × List ℕ) (rest : List ℕ)
    → name_bytes iid m ++ rest ≡ strings iid m rest
name_bytes-append iid m rest =
    append_assoc iid.name (0 ∷ method_bytes m) rest
    ∙ ap (λ (t : List ℕ). iid.name ++ (0 ∷ t)) (method_bytes-append m rest)

pub length-method_bytes :
    (m : List ℕ × List ℕ) → length (method_bytes m) ≡ length m.0 + 1 + (length m.1 + 1)
length-method_bytes m =
    omega (arith, length-append m.0 (0 ∷ (m.1 ++ (0 ∷ []))), length-append m.1 (0 ∷ []))

-- No method before `i` is spelled as `m`.
abbrev pub FirstSpelled : List (List ℕ × List ℕ) → ℕ → List ℕ × List ℕ → Type 0
FirstSpelled ms i m =
    (j : ℕ) (m' : List ℕ × List ℕ)
    → j < i
    → get_elem? ms j ≡ some m'
    → method_bytes m' ≢ method_bytes m

method_from-finds :
    (ms : List (List ℕ × List ℕ)) (mi i : ℕ) (m : List ℕ × List ℕ)
    → get_elem? ms i ≡ some m
    → FirstSpelled ms i m
    → method_from ms mi (method_bytes m) ≡ mi + i
unfolding method_from
method_from-finds [] mi i m h first = cc
method_from-finds (x ∷ ms) mi zero m h first =
    let e : x ≡ m = ground (arith, h) in rw (e, same_name_refl (method_bytes m)) (omega arith)
method_from-finds (x ∷ ms) mi (suc i) m h first =
    elim (Bool-cases (same_name (method_bytes x) (method_bytes m))) [
      | inl e ↦
          absurd (first 0 x (omega arith) refl (same_name-eq (method_bytes x) (method_bytes m) e))
      | inr e ↦
          let rest =
            method_from-finds ms (mi + 1) i m h (λ j m' lt. first (suc j) m' (omega arith)) in
          rw (e, rest) (omega arith)
    ]

module _ (d : List ℕ) (iid : Interface) (m : List ℕ × List ℕ) (rest : List ℕ)
    (here : drop header_size d ≡ strings iid m rest) where
  pub lookup_in_msg_method-finds :
      (i : ℕ)
      → IsText iid.name
      → IsText m.0
      → IsText m.1
      → get_elem? iid.method i ≡ some m
      → FirstSpelled iid.method i m
      → header_size + length (name_bytes iid m) ≤ (header_at d).hsz
      → lookup_in_msg_method d iid ≡ i
  unfolding lookup_in_msg_method
  lookup_in_msg_method-finds i tn tm ts at first inside =
      let mname : ℕ = header_size + length iid.name + 1 in
      let msig : ℕ = mname + length m.0 + 1 in
      let mend : ℕ = msig + length m.1 + 1 in
      let at_method = drop-text d header_size iid.name _ here in
      let at_sig = drop-text d mname m.0 _ at_method in
      let e1 : strnext d header_size ≡ mname = strnext-text d header_size iid.name _ here tn in
      let e2 : strnext d mname ≡ msig = strnext-text d mname m.0 _ at_method tm in
      let e3 : strnext d msig ≡ mend = strnext-text d msig m.1 _ at_sig ts in
      let len = length-method_bytes m in
      let whole = length-append iid.name (0 ∷ method_bytes m) in
      let t1 : leb (header_at d).hsz mname ≡ false = ground (arith, len, whole, inside) in
      let t2 : leb (header_at d).hsz msig ≡ false = ground (arith, len, whole, inside) in
      let t3 : ltb (header_at d).hsz mend ≡ false = ground (arith, len, whole, inside) in
      let count : mend - mname ≡ length (method_bytes m) = omega (arith, len) in
      let name : take (mend - mname) (drop mname d) ≡ method_bytes m =
        rw (count, at_method, sym (method_bytes-append m rest))
          (take-length (method_bytes m) rest) in
      rw (e1, e2, e3, t1, t2, t3, name) (method_from-finds iid.method 0 i m at first ∙ omega arith)
