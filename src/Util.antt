-- ===== src/Util.antt =====
-- util.c: the dump of a block in hexadecimal, the descriptors that systemd passes, and the search for a
-- program in PATH. What the C library answers is a parameter.
pub mod Dumps
pub mod Paths
use casycom.Base.{
  ℕ, zero, suc, ◌+◌, ◌-◌, ◌*◌, ◌/◌, ◌%◌, ◌^◌, Bool, true, false, not, ◌&&◌, ◌||◌, List, [], ◌∷◌,
  ◌++◌, Option, none, some, ◌==◌, leb, ltb, if◌then◌else◌, length, take, drop, replicate, map,
}
use casycom.Base.Chain.{◌>>=◌}

-- `_num_to_digit`.
unfoldable pub num_to_digit : ℕ → ℕ
num_to_digit b = let d = b % 16 + b'0' in if leb d b'9' then d else d + (b'A' - b'0' - 10)

-- `_printable`, for a byte as a signed character.
unfoldable pub printable : ℕ → Bool
printable c = leb 32 c && ltb c 127

unfoldable pub hex_of : ℕ → List ℕ
unfolding num_to_digit
hex_of b = num_to_digit (b / 16) ∷ num_to_digit b ∷ b' ' ∷ []

unfoldable pub text_of : ℕ → ℕ
unfolding printable
text_of b = if printable b then b else b'.'

-- The columns of digits and those of characters: `line` is full of spaces before.
unfoldable pub hex_columns : ℕ → List ℕ → List ℕ
unfolding hex_of
hex_columns zero bs = []
hex_columns (suc n) [] = b' ' ∷ b' ' ∷ b' ' ∷ hex_columns n []
hex_columns (suc n) (b ∷ bs) = hex_of b ++ hex_columns n bs

unfoldable pub text_columns : ℕ → List ℕ → List ℕ
unfolding text_of
text_columns zero bs = []
text_columns (suc n) [] = b' ' ∷ text_columns n []
text_columns (suc n) (b ∷ bs) = text_of b ∷ text_columns n bs

-- A line of `hexdump`, of at most 16 bytes.
unfoldable pub dump_line : List ℕ → List ℕ
unfolding hex_columns text_columns
dump_line bs = hex_columns 16 bs ++ text_columns 16 bs

-- The lines of `hexdump`; each round takes at least a byte, so the number of bytes is fuel enough.
unfoldable pub dump_lines : ℕ → List ℕ → List (List ℕ)
unfolding dump_line
dump_lines zero bs = []
dump_lines (suc fuel) [] = []
dump_lines (suc fuel) (b ∷ bs) = dump_line (take 16 (b ∷ bs)) ∷ dump_lines fuel (drop 16 (b ∷ bs))

unfoldable pub hexdump : List ℕ → List (List ℕ)
unfolding dump_lines
hexdump bs = dump_lines (length bs) bs

abbrev pub path_max : ℕ
path_max = 4096

-- `strtoul (e, NULL, 10)`, `getenv` of LISTEN_PID and LISTEN_FDS, and `getpid`.
unfoldable sd_listen_fds : (List ℕ → ℕ) → Option (List ℕ) → Option (List ℕ) → ℕ → ℕ
sd_listen_fds strtoul none listen_fds pid = 0
sd_listen_fds strtoul (some listen_pid) none pid = 0
sd_listen_fds strtoul (some listen_pid) (some listen_fds) pid =
    if not (pid == strtoul listen_pid % 2 ^ 32) then 0 else strtoul listen_fds % 2 ^ 32

-- What the call knows of the files and of PATH, and what stands in `path` before it is written.
pub record Host : Type 0 where
  pub access : List ℕ → Bool
  pub path : Option (List ℕ)
  pub stack : List ℕ

-- "/bin:/usr/bin:.".
abbrev pub default_path : List ℕ
default_path =
    b'/' ∷ b'b' ∷ b'i' ∷ b'n' ∷ b':' ∷ b'/' ∷ b'u' ∷ b's' ∷ b'r' ∷ b'/' ∷ b'b' ∷ b'i' ∷ b'n' ∷ b':'
    ∷ b'.' ∷ []

-- `snprintf` into an array of `size` bytes that holds `before`.
unfoldable pub printed : ℕ → List ℕ → List ℕ → List ℕ
printed size text before =
    take (size - 1) text ++ (0 ∷ drop (length (take (size - 1) text) + 1) before)

-- `while (*pl && *pl != ':') ++pl`: what is passed, and what is left behind `*pl++`. `none` is a
-- read behind the array.
unfoldable pub next_directory : List ℕ → Option (List ℕ × List ℕ)
next_directory [] = none
next_directory (c ∷ path) =
    let rest = next_directory path in
    if c == 0 || c == b':' then some ([], path) else (rest >>= λ (dir, left). some (c ∷ dir, left))

abbrev pub in_directory : List ℕ → List ℕ → ℕ → List ℕ
in_directory dir efn exesz = take (exesz - 1) (dir ++ (b'/' ∷ efn))

-- The loop over the directories; each one takes a byte, so the size of the array is fuel enough.
unfoldable pub search : (List ℕ → Bool) → List ℕ → ℕ → ℕ → List ℕ → Option (Option (List ℕ))
unfolding next_directory
search access efn exesz zero path = none
search access efn exesz (suc fuel) [] = none
search access efn exesz (suc fuel) (c ∷ path) = elim (c == 0) [
  | true ↦ some none
  | false ↦ next_directory (c ∷ path) >>= λ (dir, left).
      let exe = in_directory dir efn exesz in
      let rest = search access efn exesz fuel left in if access exe then some (some exe) else rest
]

abbrev or_default : Option (List ℕ) → List ℕ
or_default none = default_path
or_default (some penv) = penv

-- Whether the name is one of a file, and not one to search.
unfoldable pub is_path : List ℕ → Bool
is_path [] = false
is_path (c ∷ []) = c == b'/'
is_path (c ∷ d ∷ efn) = c == b'/' || (c == b'.' && (d == b'/' || d == b'.'))

unfoldable pub executable_in_path : Host → List ℕ → ℕ → Option (Option (List ℕ))
unfolding is_path printed search
executable_in_path h efn exesz =
    if is_path efn
    then some (if h.access efn then some efn else none)
    else search h.access efn exesz path_max (printed path_max (or_default h.path) h.stack)
