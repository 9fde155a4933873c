-- ===== src/Tests/Bodies.antt =====
-- Streams and message bodies.
use casycom.Base.{ℕ, ◌+◌, ◌≡◌, ◌≢◌, ◌⊎◌, refl, List, [], ◌∷◌, ◌++◌, some, arith}
use casycom.Stm.{Stm, write_string, read_string, size_string, le_value}
use casycom.Stm.Strings.{read_string-write_string}
use casycom.Vector.{CharVector}
use casycom.Msg.{Msg, Proxy}
use casycom.Msg.Signature.{validate_signature, sigelement_size}
use casycom.Msg.Scalars.{IsScalars, IsPacked, total_size, validate_signature-scalars}
use casycom.Msg.Compound.{validate_signature-struct}

abbrev blank : Stm
blank = record { d = 1 ∷ 1 ∷ 1 ∷ 1 ∷ 1 ∷ 1 ∷ 1 ∷ 1 ∷ 1 ∷ 1 ∷ 1 ∷ 1 ∷ []; p = 4; end = 12 }

abbrev hi : List ℕ
hi = b'h' ∷ b'i' ∷ []

size_hi : size_string hi ≡ 8
unfolding size_string
size_hi = refl

read_string-write_string_example :
    (s : Stm) × (write_string blank hi ≡ some s)
    × (read_string (record s { p = 4 }) ≡ some (hi, s))
    × (s.p ≡ 4 + size_string hi)
read_string-write_string_example =
    read_string-write_string blank hi
      (record { aligned = refl; inside = omega (arith, size_hi); block = omega arith })
      (omega arith, (omega arith, tt)) (omega arith)

abbrev to_app : Proxy
to_app = record { interface = 1; src = 0; dest = 1 }

abbrev numbers : Msg
numbers = record {
  h = to_app;
  imethod = 0;
  size = 8;
  extid = 0;
  fdoffset = 255;
  body = 1 ∷ 0 ∷ 0 ∷ 0 ∷ 2 ∷ 0 ∷ 0 ∷ 0 ∷ [];
}

abbrev two_words : List ℕ
two_words = b'u' ∷ b'i' ∷ []

two_words-IsScalars : IsScalars two_words
unfolding sigelement_size
two_words-IsScalars = (omega arith, (omega arith, tt))

validate_signature-scalars_example :
    (IsPacked two_words 0 8 × (validate_signature two_words numbers ≡ some (total_size two_words)))
    ⊎ ((¬ IsPacked two_words 0 8) × (validate_signature two_words numbers ≡ some 0))
validate_signature-scalars_example =
    validate_signature-scalars two_words numbers two_words-IsScalars

validate_signature-struct_example :
    validate_signature (b'(' ∷ (two_words ++ (b')' ∷ []))) numbers ≢ some 8
validate_signature-struct_example =
    validate_signature-struct two_words [] numbers 7 two_words-IsScalars (λ e. cc)

abbrev one_wide : Msg
one_wide = record numbers {
  size = 16;
  body = 1 ∷ 0 ∷ 0 ∷ 0 ∷ 0 ∷ 0 ∷ 0 ∷ 0 ∷ 7 ∷ 0 ∷ 0 ∷ 0 ∷ 0 ∷ 0 ∷ 0 ∷ 0 ∷ [];
}

wide : sigelement_size b'x' ≡ 8
unfolding sigelement_size
wide = refl

one_count : le_value (1 ∷ 0 ∷ 0 ∷ 0 ∷ []) ≡ 1
unfolding le_value
one_count = refl

abbrev five_bytes : CharVector
five_bytes = record { d = 1 ∷ 2 ∷ 3 ∷ 4 ∷ 5 ∷ []; size = 5; allocated = 5; elsize = 1 }
