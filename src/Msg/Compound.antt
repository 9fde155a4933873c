-- ===== src/Msg/Compound.antt =====
-- What the validation makes of structs and of arrays of eight-byte numbers.
use casycom.Base.{
  ℕ, zero, suc, ◌+◌, ◌*◌, ◌<◌, ◌≡◌, ◌≢◌, ◌⊎◌, inl, inr, refl, sym, ◌∙◌, true, false, List, [], ◌∷◌,
  ◌++◌, Option, none, some, arith, ◌==◌, leb, le→leb, ◌||◌, if◌then◌else◌, length, take, ceilg,
  Bool-cases,
}
use casycom.Base.Chain.{◌>>=◌, >>=-eq-some}
use casycom.Stm.{Stm, read_pod, le_value}
use casycom.Msg.{Msg, stream}
use casycom.Msg.Scalars.{IsScalars, fits_here, past, validate-scalar, not_zero}
use casycom.Msg.Signature.{
  tail, sigelement_size, validate_sigelement, validate_all, validate_members, validate_signature,
  skip_one_sigelement, validate_items, validate_struct, validate_array, validate_read_align,
  Validator, alignment,
}

scalar-not_end : (c : ℕ) → sigelement_size c ≢ 0 → (c == 0 || c == b')') ≡ false
unfolding sigelement_size
scalar-not_end c h = ground (arith, h)

members-scalar :
    (f fuel c : ℕ) (sig : List ℕ) (buf : Stm) (sz : ℕ)
    → sigelement_size c ≢ 0
    → validate_members (validate_sigelement (suc f)) (suc fuel) (c ∷ sig) buf sz ≡ (
        if fits_here c buf
        then validate_members
            (validate_sigelement (suc f))
            fuel
            sig
            (past c buf)
            (sz + sigelement_size c)
        else some (0, sig, buf))
unfolding validate_members
members-scalar f fuel c sig buf sz h = elim (Bool-cases (fits_here c buf)) [
  | inl e ↦
      rw (
        scalar-not_end c h,
        validate_members,
        validate-scalar c sig buf h f,
        e,
        not_zero c sig buf h,
      )
  | inr e ↦ rw (scalar-not_end c h, validate_members, validate-scalar c sig buf h f, e)
]

-- The members of a struct end at its parenthesis, which stays in front.
AtEnd : List ℕ → ℕ × List ℕ × Stm → Type 0
AtEnd rest r = (r.0 ≡ 0) ⊎ (r.1 ≡ b')' ∷ rest)

members-AtEnd :
    (f fuel : ℕ) (cs rest : List ℕ) (buf : Stm) (sz : ℕ) (r : ℕ × List ℕ × Stm)
    → IsScalars cs
    → validate_members (validate_sigelement (suc f)) fuel (cs ++ (b')' ∷ rest)) buf sz ≡ some r
    → AtEnd rest r
unfolding AtEnd
members-AtEnd f zero cs rest buf sz r h e = unfold validate_members in cc
members-AtEnd f (suc fuel) [] rest buf sz r h e = unfold validate_members in inr (ground (arith, e))
members-AtEnd f (suc fuel) (c ∷ cs) rest buf sz r h e = elim (Bool-cases (fits_here c buf)) [
  | inl t ↦
      members-AtEnd f fuel cs rest (past c buf) (sz + sigelement_size c) r h.1
        (rw (members-scalar f fuel c (cs ++ (b')' ∷ rest)) buf sz h.0, t) at e)
  | inr t ↦
      let e' = rw (members-scalar f fuel c (cs ++ (b')' ∷ rest)) buf sz h.0, t) at e in
      inl (ground (arith, e'))
]

-- The end of a struct, after the members.
abbrev struct_end : ℕ → ℕ × List ℕ × Stm → Option (ℕ × List ℕ × Stm)
struct_end sal (sz, sig', buf2) =
    let (pad, buf3) = validate_read_align buf2 sz sal in
    if sz == 0 then some (0, sig', buf2) else some (sz + pad, sig', buf3)

ended :
    (rest : List ℕ) (sal : ℕ) (m r : ℕ × List ℕ × Stm)
    → AtEnd rest m
    → struct_end sal m ≡ some r
    → AtEnd rest r
unfolding AtEnd
ended rest sal (sz, sig, buf) r h e = ground (arith, h, e)

struct_members : Validator → List ℕ → Stm → ℕ → Option (ℕ × List ℕ × Stm)
struct_members v sig buf sal =
    let (lead, buf1) = validate_read_align buf 0 sal in
    validate_members v (length sig) (tail sig) buf1 lead

struct-eq :
    (v : Validator) (sig : List ℕ) (buf : Stm)
    → validate_struct v sig buf
      ≡ (alignment sig >>= λ sal. struct_members v sig buf sal >>= struct_end sal)
unfolding validate_struct struct_members
struct-eq v sig buf = refl

struct-AtEnd :
    (f : ℕ) (cs rest : List ℕ) (buf : Stm) (r : ℕ × List ℕ × Stm)
    → IsScalars cs
    → validate_struct (validate_sigelement (suc f)) (b'(' ∷ (cs ++ (b')' ∷ rest))) buf ≡ some r
    → AtEnd rest r
unfolding struct_members tail
struct-AtEnd f cs rest buf r h e =
    let v = validate_sigelement (suc f) in
    let sig : List ℕ = b'(' ∷ (cs ++ (b')' ∷ rest)) in
    let (sal, _, e1) =
      >>=-eq-some (alignment sig) (λ sal. struct_members v sig buf sal >>= struct_end sal)
        (sym (struct-eq v sig buf) ∙ e) in
    let (m, e2, e3) = >>=-eq-some (struct_members v sig buf sal) (struct_end sal) e1 in
    ended rest sal m r (members-AtEnd f (length sig) cs rest _ _ m h e2) e3

sigelement-struct :
    (f : ℕ) (sig : List ℕ) (buf : Stm)
    → validate_sigelement (suc f) (b'(' ∷ sig) buf
      ≡ validate_struct (validate_sigelement f) (b'(' ∷ sig) buf
unfolding validate_sigelement
sigelement-struct f sig buf = refl

sigelement-end :
    (f : ℕ) (sig : List ℕ) (buf : Stm) → validate_sigelement (suc f) (b')' ∷ sig) buf ≡ none
unfolding validate_sigelement
sigelement-end f sig buf = refl

-- One round of the loop over the signature.
abbrev next : ℕ → ℕ → ℕ × List ℕ × Stm → Option ℕ
next fuel sz (elsz, sig, is) = if elsz == 0 then some 0 else validate_all fuel sig is (sz + elsz)

all-next :
    (fuel sz c : ℕ) (sig : List ℕ) (is : Stm)
    → validate_all (suc fuel) (c ∷ sig) is sz
      ≡ (validate_sigelement (suc (length sig)) (c ∷ sig) is >>= next fuel sz)
unfolding validate_all
all-next fuel sz c sig is = refl

next-AtEnd :
    (fuel sz n : ℕ) (rest : List ℕ) (r : ℕ × List ℕ × Stm)
    → AtEnd rest r
    → next fuel sz r ≢ some (suc n)
unfolding AtEnd
next-AtEnd fuel sz n rest (elsz, sig, is) (inl e) h = ground (arith, e, h)
next-AtEnd zero sz n rest (elsz, sig, is) (inr e) h = unfold validate_all in ground (arith, e, h)
next-AtEnd (suc fuel) sz n rest (elsz, sig, is) (inr e) h =
    unfold validate_all in ground (arith, e, h, sigelement-end (length rest) rest is)

-- `casymsg_validate_signature` gives a size other than 0 for no body, when the signature begins
-- with a struct of at least one number.
pub validate_signature-struct :
    (cs rest : List ℕ) (msg : Msg) (n : ℕ)
    → IsScalars cs
    → cs ≢ []
    → validate_signature (b'(' ∷ (cs ++ (b')' ∷ rest))) msg ≢ some (suc n)
unfolding validate_signature
validate_signature-struct [] rest msg n h some_member e = some_member refl
validate_signature-struct (c ∷ cs) rest msg n h some_member e =
    let sig : List ℕ = c ∷ cs ++ (b')' ∷ rest) in
    let fuel : length (b'(' ∷ sig) + 1 ≡ suc (length (b'(' ∷ sig)) = omega arith in
    let e' = rw fuel at e in
    let (r, e1, e2) =
      >>=-eq-some (validate_sigelement (suc (length sig)) (b'(' ∷ sig) (stream msg))
        (next (length (b'(' ∷ sig)) 0)
        (sym (all-next (length (b'(' ∷ sig)) 0 b'(' sig (stream msg)) ∙ e') in
    next-AtEnd (length (b'(' ∷ sig)) 0 n rest r
      (struct-AtEnd (length (cs ++ (b')' ∷ rest))) (c ∷ cs) rest (stream msg) r h
        (sym (sigelement-struct (length sig) sig (stream msg)) ∙ e1))
      e2

-- The count of an array, and its elements at the documented offset 8, fill the body.
pub record IsArrayBody (nel : ℕ) (msg : Msg) : Type 0 where
  pub count : le_value (take 4 msg.body) ≡ nel
  pub full : msg.size ≡ 8 + 8 * nel

abbrev after_array : ℕ → Msg → ℕ × List ℕ × Stm
after_array nel msg = (4 + 8 * nel, [], record (stream msg) { p = 8 + 8 * nel })

module _ (c nel : ℕ) (msg : Msg) (wide : sigelement_size c ≡ 8) (b : IsArrayBody nel msg) where
  alignment-wide : alignment (c ∷ []) ≡ some 8
  unfolding alignment
  alignment-wide = ground (arith, wide)

  skip-wide : skip_one_sigelement (c ∷ []) ≡ []
  unfolding skip_one_sigelement
  skip-wide = ground arith

  count_read : read_pod 4 (stream msg) ≡ some (nel, record (stream msg) { p = 4 })
  unfolding read_pod stream
  count_read = ground (arith, b.count, b.full)

  items-wide :
      validate_items (validate_sigelement 1) nel 8 8 (c ∷ []) (record (stream msg) { p = 4 })
      ≡ some (4 + 8 * nel, record (stream msg) { p = 8 + 8 * nel })
  unfolding validate_items stream ceilg
  items-wide = ground (arith, b.full)

  no_pad :
      validate_read_align (record (stream msg) { p = 8 + 8 * nel }) (4 + 8 * nel) 8
      ≡ (0, record (stream msg) { p = 8 + 8 * nel })
  unfolding validate_read_align stream ceilg
  no_pad = ground (arith, b.full)

  array-wide :
      validate_array (validate_sigelement 1) (b'a' ∷ c ∷ []) (stream msg)
      ≡ some (after_array nel msg)
  unfolding validate_array stream
  array-wide =
      let t : leb 4 msg.size ≡ true = le→leb _ _ (omega (arith, b.full)) in
      rw (t, count_read, alignment-wide, wide, items-wide, no_pad, skip-wide) (ground arith)

-- For the body of an array of eight-byte numbers that begins with the number of elements and holds
-- them from its eighth byte on, `casymsg_validate_signature` gives four more than the bytes of the
-- elements, which is less than the size of the body.
pub validate_signature-wide_array :
    (c nel : ℕ) (msg : Msg)
    → sigelement_size c ≡ 8
    → IsArrayBody nel msg
    → (validate_signature (b'a' ∷ c ∷ []) msg ≡ some (4 + 8 * nel)) × (4 + 8 * nel < msg.size)
unfolding validate_signature validate_sigelement
validate_signature-wide_array c nel msg wide b = (
  rw (all-next 2 0 b'a' (c ∷ []) (stream msg))
      (rw (array-wide c nel msg wide b) (unfold validate_all in (ground arith))),
  omega (arith, b.full),
)
