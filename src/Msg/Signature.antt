-- ===== src/Msg/Signature.antt =====
-- The validation of a body by its signature, msg.c from `casymsg_sigelement_size` on. A signature is
-- the characters that are left of it. `none` is a failed assertion; the size 0 is the code's error.
use casycom.Base.{
  ℕ, zero, suc, ◌+◌, ◌*◌, ◌-◌, ◌%◌, ◌^◌, true, false, List, [], ◌∷◌, Option, none, some, ◌==◌, ltb,
  not, ◌||◌, if◌then◌else◌, length, ceilg,
}
use casycom.Base.Chain.{◌>>=◌}
use casycom.Stm.{Stm, can_read, is_aligned, read_pod, read_align, unread}
use casycom.Msg.{Msg, stream}

-- `*sig`: the terminator stands behind the last character.
unfoldable pub head : List ℕ → ℕ
head [] = 0
head (c ∷ sig) = c

unfoldable pub tail : List ℕ → List ℕ
tail [] = []
tail (c ∷ sig) = sig

unfoldable pub sigelement_size : ℕ → ℕ
sigelement_size c =
    if c == b'y'
    then 1
    else if c == b'b'
    then 1
    else if c == b'n'
    then 2
    else if c == b'q'
    then 2
    else if c == b'i'
    then 4
    else if c == b'u'
    then 4
    else if c == b'h'
    then 4
    else if c == b'x'
    then 8
    else if c == b't'
    then 8
    else 0

-- `parens` is unsigned, so one parenthesis too many wraps it.
unfoldable pub skip_parens : ℕ → List ℕ → List ℕ
skip_parens parens [] = []
skip_parens parens (c ∷ sig) =
    let parens' : ℕ =
      if c == b'('
      then parens + 1
      else if c == b')'
      then (parens + 2 ^ 32 - 1) % 2 ^ 32
      else parens in
    let rest = skip_parens parens' sig in if parens' == 0 then sig else rest

unfoldable pub skip_one_sigelement : List ℕ → List ℕ
unfolding skip_parens
skip_one_sigelement sig = skip_parens 0 sig

-- The loop over the members of a struct, up to the parenthesis before which `left` characters are
-- left, and `casymsg_sig_alignment`, by fuel.
unfoldable mutual
  unfolding sigelement_size skip_one_sigelement head tail

  pub members_alignment : ℕ → ℕ → List ℕ → ℕ → Option ℕ
  members_alignment zero left sig sz = none
  members_alignment (suc fuel) left sig sz = elim (ltb left (length sig)) [
    | false ↦ some sz
    | true ↦ sig_alignment fuel sig >>= λ elal.
        members_alignment fuel left (skip_one_sigelement sig) (if ltb sz elal then elal else sz)
  ]

  pub sig_alignment : ℕ → List ℕ → Option ℕ
  sig_alignment zero sig = none
  sig_alignment (suc fuel) sig =
      let sz = sigelement_size (head sig) in
      let members = members_alignment fuel (length (skip_one_sigelement sig) + 1) (tail sig) 0 in
      if not (sz == 0)
      then some sz
      else if head sig == b'a' || head sig == b's'
      then some 4
      else if head sig == b'('
      then members
      else none

unfoldable pub alignment : List ℕ → Option ℕ
unfolding sig_alignment
alignment sig = sig_alignment (2 * length sig + 2) sig

unfoldable pub validate_read_align : Stm → ℕ → ℕ → ℕ × Stm
unfolding can_read ceilg
validate_read_align buf sz grain =
    let alignsz = ceilg sz grain - sz in
    if can_read buf alignsz then (alignsz, record buf { p = buf.p + alignsz }) else (0, buf)

-- What is returned through the arguments: the rest of the signature, and the stream.
abbrev pub Validated : Type 0
Validated = Option (ℕ × List ℕ × Stm)

abbrev pub Validator : Type 0
Validator = List ℕ → Stm → Validated

unfoldable pub validate_scalar : Validator
unfolding sigelement_size can_read is_aligned head tail
validate_scalar sig buf =
    let sz = sigelement_size (head sig) in
    if not (can_read buf sz) || not (is_aligned buf sz)
    then some (0, tail sig, buf)
    else some (sz, tail sig, record buf { p = buf.p + sz })

-- `for (size_t ssz; **sig && **sig != ')'; sz += ssz)`, with `v` for an element. Each round takes a
-- character, so the length of the signature is fuel enough.
unfoldable pub validate_members : Validator → ℕ → List ℕ → Stm → ℕ → Validated
unfolding head
validate_members v zero sig buf sz = none
validate_members v (suc fuel) sig buf sz = elim (head sig == 0 || head sig == b')') [
  | true ↦ some (sz, sig, buf)
  | false ↦ v sig buf >>= λ (ssz, sig', buf').
      if ssz == 0 then some (0, sig', buf') else validate_members v fuel sig' buf' (sz + ssz)
]

unfoldable pub validate_struct : Validator → Validator
unfolding validate_members validate_read_align tail
validate_struct v sig buf = do
  sal ← alignment sig
  let (lead, buf1) = validate_read_align buf 0 sal
  (sz, sig', buf2) ← validate_members v (length sig) (tail sig) buf1 lead
  let (pad, buf3) = validate_read_align buf2 sz sal
  if sz == 0 then some (0, sig', buf2) else some (sz + pad, sig', buf3)

-- `for (uint32_t i = 0; i < nel; ++i, sz += elsz)`.
unfoldable pub validate_elements : Validator → ℕ → List ℕ → Stm → ℕ → Option (ℕ × Stm)
validate_elements v zero sig buf sz = some (sz, buf)
validate_elements v (suc nel) sig buf sz = v sig buf >>= λ (elsz, sig', buf').
    if elsz == 0 then some (0, buf') else validate_elements v nel sig buf' (sz + elsz)

-- The elements of an array or the bytes of a string behind the count: the size so far, and the stream.
unfoldable pub validate_items : Validator → ℕ → ℕ → ℕ → List ℕ → Stm → Option (ℕ × Stm)
unfolding can_read read_align validate_elements
validate_items v nel elsz elal sig buf =
    if elsz == 0
    then validate_elements v nel sig buf 4
    else let buf' = read_align buf elal in
      if can_read buf' (elsz * nel)
      then some (4 + elsz * nel, record buf' { p = buf'.p + elsz * nel })
      else some (0, buf')

-- A failure of `validate_items` is the size 0; every other size counts the count's four bytes.
unfoldable pub validate_array : Validator → Validator
unfolding can_read head tail
validate_array v sig buf = if not (can_read buf 4) then some (0, sig, buf) else do
  (nel, buf1) ← read_pod 4 buf
  elal ← alignment (tail sig)
  (sz, buf2) ←
      validate_items v nel (sigelement_size (head (tail sig))) (if ltb elal 4 then 4 else elal)
        (tail sig) buf1
  let (pad, buf3) = validate_read_align buf2 sz (if ltb elal 4 then 4 else elal)
  if sz == 0
      then some (0, tail sig, buf2)
      else some (sz + pad, skip_one_sigelement (tail sig), buf3)

-- The last byte of a string must be its terminator; of an empty one it is a byte of the count.
unfoldable pub validate_end : ℕ → Validator
unfolding unread validate_read_align
validate_end sz sig buf = do
  (last, buf1) ← read_pod 1 (unread buf 1)
  let (pad, buf2) = validate_read_align buf1 sz 4
  if last == 0 then some (sz + pad, sig, buf2) else some (0, sig, buf1)

unfoldable pub validate_string : Validator
unfolding can_read tail validate_items validate_end
validate_string sig buf = if not (can_read buf 4) then some (0, sig, buf) else do
  (nel, buf1) ← read_pod 4 buf
  (sz, buf2) ← validate_items (λ sig' buf'. none) nel 1 4 (tail sig) buf1
  if sz == 0 then some (0, tail sig, buf2) else validate_end sz (tail sig) buf2

-- By fuel for the nesting of elements, which the length of the signature bounds.
unfoldable pub validate_sigelement : ℕ → Validator
unfolding head sigelement_size validate_scalar validate_struct validate_array validate_string
validate_sigelement zero sig buf = none
validate_sigelement (suc fuel) sig buf =
    let c = head sig in
    if not (sigelement_size c == 0)
    then validate_scalar sig buf
    else if c == b'('
    then validate_struct (validate_sigelement fuel) sig buf
    else if c == b'a'
    then validate_array (validate_sigelement fuel) sig buf
    else if c == b's'
    then validate_string sig buf
    else none

-- The loop of `casymsg_validate_signature`; each round takes a character.
unfoldable pub validate_all : ℕ → List ℕ → Stm → ℕ → Option ℕ
validate_all zero sig is sz = none
validate_all (suc fuel) [] is sz = some sz
validate_all (suc fuel) (c ∷ sig) is sz =
    validate_sigelement (length (c ∷ sig)) (c ∷ sig) is >>= λ (elsz, sig', is').
    if elsz == 0 then some 0 else validate_all fuel sig' is' (sz + elsz)

unfoldable pub validate_signature : List ℕ → Msg → Option ℕ
unfolding validate_all stream
validate_signature sig msg = validate_all (length sig + 1) sig (stream msg) 0
