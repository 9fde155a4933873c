-- ===== src/Util/Dumps.antt =====
-- A dump is read back.
use casycom.Base.{
  ℕ, zero, suc, ◌+◌, ◌-◌, ◌*◌, ◌/◌, ◌%◌, ◌≤◌, ◌<◌, ◌≡◌, refl, ap₂, ◌∙◌, false, List, [], ◌∷◌, ◌++◌,
  arith, ◌==◌, leb, if◌then◌else◌, length, take, drop, length-append, length-take, length-drop,
  take-append-drop,
}
use casycom.Util.{num_to_digit, hex_of, hex_columns, text_columns, dump_line, dump_lines, hexdump}

abbrev pub AreBytes : List ℕ → Type 0
AreBytes [] = Unit {0}
AreBytes (b ∷ bs) = (b < 256) × AreBytes bs

-- What a digit of a dump stands for.
abbrev pub digit_value : ℕ → ℕ
digit_value c = if leb c b'9' then c - b'0' else c + 10 - b'A'

-- The bytes of a line of at most `n`: two digits and a space for each, up to a space in place of a digit.
abbrev pub read_line : ℕ → List ℕ → List ℕ
read_line zero line = []
read_line (suc n) [] = []
read_line (suc n) (a ∷ []) = []
read_line (suc n) (a ∷ b ∷ []) = []
read_line (suc n) (a ∷ b ∷ c ∷ line) =
    let rest = read_line n line in
    if a == b' ' then [] else (digit_value a * 16 + digit_value b) ∷ rest

abbrev pub read_dump : List (List ℕ) → List ℕ
read_dump [] = []
read_dump (line ∷ lines) = read_line 16 line ++ read_dump lines

num_to_digit-value : (d : ℕ) → digit_value (num_to_digit d) ≡ d % 16
unfolding num_to_digit
num_to_digit-value d = ground arith

num_to_digit-space : (d : ℕ) → (num_to_digit d == b' ') ≡ false
unfolding num_to_digit
num_to_digit-space d = ground arith

read_line-hex_columns :
    (n : ℕ) (bs rest : List ℕ)
    → length bs ≤ n
    → AreBytes bs
    → read_line n (hex_columns n bs ++ rest) ≡ bs
unfolding hex_columns hex_of
read_line-hex_columns zero [] rest h a = refl
read_line-hex_columns zero (b ∷ bs) rest h a = absurd (omega arith)
read_line-hex_columns (suc n) [] rest h a = refl
read_line-hex_columns (suc n) (b ∷ bs) rest h (small, a) =
    let value : b / 16 % 16 * 16 + b % 16 ≡ b = omega arith in
    rw
      (
        num_to_digit-space (b / 16),
        num_to_digit-value (b / 16),
        num_to_digit-value b,
        read_line-hex_columns n bs rest (omega arith) a,
        value,
      )
      refl

length-hex_columns : (n : ℕ) (bs : List ℕ) → length (hex_columns n bs) ≡ 3 * n
unfolding hex_columns hex_of
length-hex_columns zero bs = omega arith
length-hex_columns (suc n) [] = omega (arith, length-hex_columns n [])
length-hex_columns (suc n) (b ∷ bs) = omega (arith, length-hex_columns n bs)

length-text_columns : (n : ℕ) (bs : List ℕ) → length (text_columns n bs) ≡ n
unfolding text_columns
length-text_columns zero bs = refl
length-text_columns (suc n) [] = omega (arith, length-text_columns n [])
length-text_columns (suc n) (b ∷ bs) = omega (arith, length-text_columns n bs)

AreBytes-take : (n : ℕ) (bs : List ℕ) → AreBytes bs → AreBytes (take n bs)
AreBytes-take zero bs a = tt
AreBytes-take (suc n) [] a = tt
AreBytes-take (suc n) (b ∷ bs) (small, a) = (small, AreBytes-take n bs a)

AreBytes-drop : (n : ℕ) (bs : List ℕ) → AreBytes bs → AreBytes (drop n bs)
AreBytes-drop zero bs a = a
AreBytes-drop (suc n) [] a = tt
AreBytes-drop (suc n) (b ∷ bs) (small, a) = AreBytes-drop n bs a

abbrev pub AreLines : List (List ℕ) → Type 0
AreLines [] = Unit {0}
AreLines (line ∷ lines) = (length line ≡ 64) × AreLines lines

dump_lines-AreLines : (fuel : ℕ) (bs : List ℕ) → AreLines (dump_lines fuel bs)
unfolding dump_lines dump_line
dump_lines-AreLines zero bs = tt
dump_lines-AreLines (suc fuel) [] = tt
dump_lines-AreLines (suc fuel) (b ∷ bs) =
    let now = take 16 (b ∷ bs) in
    (
      omega (
        arith,
        length-append (hex_columns 16 now) (text_columns 16 now),
        length-hex_columns 16 now,
        length-text_columns 16 now,
      ),
      dump_lines-AreLines fuel (drop 16 (b ∷ bs)),
    )

read_dump-dump_lines :
    (fuel : ℕ) (bs : List ℕ) → length bs ≤ fuel → AreBytes bs → read_dump (dump_lines fuel bs) ≡ bs
unfolding dump_lines dump_line
read_dump-dump_lines zero [] h a = refl
read_dump-dump_lines zero (b ∷ bs) h a = absurd (omega arith)
read_dump-dump_lines (suc fuel) [] h a = refl
read_dump-dump_lines (suc fuel) (b ∷ bs) h a =
    let now = take 16 (b ∷ bs) in
    let later = drop 16 (b ∷ bs) in
    let l1 = length-take 16 (b ∷ bs) in
    let l2 = length-drop 16 (b ∷ bs) in
    ap₂ (λ (x y : List ℕ). x ++ y)
      (read_line-hex_columns 16 now (text_columns 16 now) (omega (arith, l1))
        (AreBytes-take 16 (b ∷ bs) a))
      (read_dump-dump_lines fuel later (omega (arith, l2, h)) (AreBytes-drop 16 (b ∷ bs) a))
    ∙ take-append-drop 16 (b ∷ bs)

-- The lines that `hexdump` prints of any block have 64 characters each, and the bytes of the block can be
-- read back from them.
pub read_dump-hexdump :
    (bs : List ℕ) → AreBytes bs → (read_dump (hexdump bs) ≡ bs) × AreLines (hexdump bs)
unfolding hexdump
read_dump-hexdump bs a =
    (read_dump-dump_lines (length bs) bs (omega arith) a, dump_lines-AreLines (length bs) bs)
