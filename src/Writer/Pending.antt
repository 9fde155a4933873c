-- ===== src/Writer/Pending.antt =====
-- The bytes that a writer still has to send: what is left of the first message's block and body, and the
-- blocks and bodies of the others.
use mathlib.Core.List.{append_assoc}
use casycom.Base.{
  ℕ, zero, suc, ◌+◌, ◌-◌, ◌≤◌, ◌<◌, ◌≡◌, refl, ap, ◌∙◌, sym, List, [], ◌∷◌, ◌++◌, none, some, arith,
  length, take, drop, length-append, length-drop, length-take, take-append-drop, Bool-cases, inl,
  inr, ltb,
}
use casycom.Msg.{Interface, Msg, no_fd_in_message}
use casycom.Wire.{marshal}
use casycom.Writer.{Sender, body_size, body_bytes, given}

pub drop-append : (n : ℕ) (xs ys : List ℕ) → n ≤ length xs → drop n (xs ++ ys) ≡ drop n xs ++ ys
drop-append zero xs ys h = refl
drop-append (suc n) [] ys h = absurd (omega arith)
drop-append (suc n) (x ∷ xs) ys h = drop-append n xs ys (omega arith)

pub drop_past : (xs ys : List ℕ) (n : ℕ) → drop (length xs + n) (xs ++ ys) ≡ drop n ys
drop_past [] ys n = ap (λ k. drop k ys) (omega arith)
drop_past (x ∷ xs) ys n =
    let e : suc (length xs) + n ≡ suc (length xs + n) = omega arith in rw e (drop_past xs ys n)

pub drop_all : (n : ℕ) (xs : List ℕ) → length xs ≤ n → drop n xs ≡ []
drop_all zero [] h = refl
drop_all zero (x ∷ xs) h = absurd (omega arith)
drop_all (suc n) [] h = refl
drop_all (suc n) (x ∷ xs) h = drop_all n xs (omega arith)

-- A prefix is taken, and the rest left.
pub take-drop_prefix :
    (n : ℕ) (xs ys : List ℕ) → n ≤ length xs → xs ++ ys ≡ take n xs ++ drop n (xs ++ ys)
take-drop_prefix n xs ys h = sym (
    ap (λ (t : List ℕ). take n xs ++ t) (drop-append n xs ys h)
    ∙ (sym (append_assoc (take n xs) (drop n xs) ys)
        ∙ ap (λ (t : List ℕ). t ++ ys) (take-append-drop n xs)))

-- The two parts left are what stands from one place on, when the second begins after the first.
pub drop_parts :
    (xs ys : List ℕ) (h b : ℕ)
    → h ≤ length xs
    → (h < length xs → b ≡ 0)
    → drop (h + b) (xs ++ ys) ≡ drop h xs ++ drop b ys
drop_parts xs ys h b within first = elim (Bool-cases (ltb h (length xs))) [
  | inl part ↦
      let none : b ≡ 0 = first (ground (arith, part)) in
      let e : h + b ≡ h = omega (arith, none) in rw (e, none) (drop-append h xs ys within)
  | inr whole ↦
      let e : h ≡ length xs = ground (arith, whole, within) in
      rw (e, drop_all (length xs) xs (omega arith)) (drop_past xs ys b)
]

-- The header that a message gets.
unfoldable pub header_of : (ℕ → Interface) → Msg → List ℕ
header_of interfaces msg = elim (marshal interfaces msg) [ none ↦ [] | some hdr ↦ hdr ]

unfoldable pub frame : (ℕ → Interface) → Msg → List ℕ
unfolding header_of
frame interfaces msg = header_of interfaces msg ++ body_bytes msg

unfoldable pub frames : (ℕ → Interface) → List Msg → List ℕ
unfolding frame
frames interfaces [] = []
frames interfaces (msg ∷ rest) = frame interfaces msg ++ frames interfaces rest

-- The abstract view of a writer: a queue of bytes.
unfoldable pub pending : (ℕ → Interface) → Sender → List ℕ
unfolding frames
pending interfaces s = drop (s.h_written + s.b_written) (frames interfaces s.outgoing)

-- A message without a descriptor, whose names fit in the header and whose block holds its body.
pub record IsPlain (interfaces : ℕ → Interface) (msg : Msg) : Type 0 where
  pub no_fd : msg.fdoffset ≡ no_fd_in_message
  pub named : marshal interfaces msg ≡ some (header_of interfaces msg)
  pub block : body_size msg ≤ length msg.body

abbrev pub AllPlain : (ℕ → Interface) → List Msg → Type 0
AllPlain interfaces [] = Unit
AllPlain interfaces (msg ∷ rest) = IsPlain interfaces msg × AllPlain interfaces rest

-- The counts are inside the first message, and the body is begun after the header.
pub record IsInside (hsz sz h b : ℕ) : Type 0 where
  pub header : h ≤ hsz
  pub body : b ≤ sz
  pub in_order : h < hsz → b ≡ 0

abbrev pub IsInsideFirst : (ℕ → Interface) → List Msg → ℕ → ℕ → Type 0
IsInsideFirst interfaces [] h b = (h ≡ 0) × (b ≡ 0)
IsInsideFirst interfaces (msg ∷ rest) h b =
    IsInside (length (header_of interfaces msg)) (body_size msg) h b

pub record IsValid (interfaces : ℕ → Interface) (s : Sender) : Type 0 where
  pub plain : AllPlain interfaces s.outgoing
  pub inside : IsInsideFirst interfaces s.outgoing s.h_written s.b_written

module _ (interfaces : ℕ → Interface) (msg : Msg) (plain : IsPlain interfaces msg) where
  pub length-body_bytes : length (body_bytes msg) ≡ body_size msg
  unfolding body_bytes
  length-body_bytes = omega (arith, length-take (body_size msg) msg.body, plain.block)

  module _ (s : Sender)
      (i : IsInside
        (length (header_of interfaces msg))
        (body_size msg)
        s.h_written
        s.b_written) where
    pub length-given :
        length (given (header_of interfaces msg) msg s)
        ≡ (length (header_of interfaces msg) - s.h_written) + (body_size msg - s.b_written)
    unfolding given
    length-given = omega (
      arith,
      length-append (drop s.h_written (header_of interfaces msg))
          (drop s.b_written (body_bytes msg)),
      length-drop s.h_written (header_of interfaces msg),
      length-drop s.b_written (body_bytes msg),
      length-body_bytes,
    )

    -- What `sendmsg` is given stands at the front of what is pending.
    pub pending-given :
        (rest : List Msg)
        → drop (s.h_written + s.b_written) (frames interfaces (msg ∷ rest))
          ≡ given (header_of interfaces msg) msg s ++ frames interfaces rest
    unfolding given frames frame
    pending-given rest =
        let len = length-append (header_of interfaces msg) (body_bytes msg) in
        drop-append (s.h_written + s.b_written) (frame interfaces msg) (frames interfaces rest)
          (omega (arith, len, length-body_bytes, i.header, i.body))
        ∙ ap (λ (t : List ℕ). t ++ frames interfaces rest)
            (drop_parts (header_of interfaces msg) (body_bytes msg) s.h_written s.b_written i.header
              i.in_order)
