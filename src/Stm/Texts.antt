-- ===== src/Stm/Texts.antt =====
-- A stream after `casystm_write_string`: where the length, the text, its terminator and the padding are.
use casycom.Base.{
  ℕ, zero, suc, ◌+◌, ◌-◌, ◌%◌, ◌≤◌, ◌<◌, ◌≡◌, ◌≢◌, ap, sym, ◌∙◌, true, inl, inr, List, [], ◌∷◌,
  ◌++◌, some, arith, length, take, drop, get_elem?, ◌==◌, leb, le→leb, ltb, if◌then◌else◌, ceilg,
  Bool-cases, length-append, length-take,
}
use casycom.Base.Bytes.{
  memcpy, get_elem?-memcpy, get_elem?-take, get_elem?-drop, get_elem?-append, list_ext,
  length-memcpy, get_elem?-ge,
}
use casycom.Stm.{
  Stm, le_bytes, can_read, write_skip, write_data, write_align, size_string, strnlen, write_string,
}
use casycom.Stm.Values.{HasRoom, length-le_bytes, write_pod-eq}

-- The bytes that follow the count.
abbrev tail : List ℕ → ℕ → List ℕ
tail v vlen = take vlen (v ++ (0 ∷ []))

abbrev pub vlen_of : List ℕ → ℕ
vlen_of v = if length v == 0 then 0 else length v + 1

length-tail : (v : List ℕ) → length (tail v (vlen_of v)) ≡ vlen_of v
length-tail v = ground (arith, length-take (vlen_of v) (v ++ (0 ∷ [])), length-append v (0 ∷ []))

-- The stream after the count and the text, before the padding.
unfoldable pub texted : Stm → List ℕ → Stm
texted s v = record s {
  d = memcpy (memcpy s.d s.p (le_bytes 4 (vlen_of v))) (s.p + 4) (tail v (vlen_of v));
  p = s.p + 4 + vlen_of v;
}

-- The place of a text: aligned, and inside the stream and its block.
pub record HasTextRoom (s : Stm) (v : List ℕ) : Type 0 where
  pub aligned : s.p % 4 ≡ 0
  pub inside : s.p + size_string v ≤ s.end
  pub block : s.end ≤ length s.d

pub size_string-vlen :
    (v : List ℕ) → (4 + vlen_of v ≤ size_string v) × (size_string v ≡ ceilg (4 + vlen_of v) 4)
unfolding size_string ceilg
size_string-vlen v = ground arith

pub write_string-texted :
    (s : Stm) (v : List ℕ) → HasTextRoom s v → write_string s v ≡ write_align 4 (texted s v) 4
unfolding write_string write_data write_skip can_read texted
write_string-texted s v r =
    let room : HasRoom s 4 = record {
      aligned = r.aligned;
      inside = omega (arith, size_string-vlen v, r.inside);
      block = r.block;
    } in
    let t : leb (s.p + 4 + vlen_of v) s.end ≡ true =
      le→leb _ _ (omega (arith, size_string-vlen v, r.inside)) in
    rw (write_pod-eq s 4 (vlen_of v) room, t)

-- No byte of a text is its terminator.
abbrev pub IsText : List ℕ → Type 0
IsText [] = Unit
IsText (b ∷ v) = (0 < b) × IsText v

strnlen_text :
    (v d : List ℕ) (n : ℕ)
    → IsText v
    → length v < n
    → ((i : ℕ) → i < length v → get_elem? d i ≡ get_elem? v i)
    → get_elem? d (length v) ≡ some 0
    → strnlen d n ≡ v
unfolding strnlen
strnlen_text v d zero t h same stop = absurd (omega arith)
strnlen_text v [] (suc n) t h same stop = cc
strnlen_text [] (b ∷ d) (suc n) t h same stop = ground (arith, stop)
strnlen_text (a ∷ v) (b ∷ d) (suc n) t h same stop =
    let rest = strnlen_text v d n t.1 (omega arith) (λ i lt. same (suc i) (omega arith)) stop in
    ground (arith, same 0 (omega arith), rest)

module _ (s : Stm) (v : List ℕ) (r : HasTextRoom s v) where
  pub fits : s.p + 4 + vlen_of v ≤ length s.d
  fits = omega (arith, size_string-vlen v, r.inside, r.block)

  pub length-texted : length (texted s v).d ≡ length s.d
  unfolding texted
  length-texted =
      let len =
        length-memcpy s.d s.p (le_bytes 4 (vlen_of v))
          (omega (arith, length-le_bytes 4 (vlen_of v), fits)) in
      length-memcpy (memcpy s.d s.p (le_bytes 4 (vlen_of v))) (s.p + 4) (tail v (vlen_of v))
        (omega (arith, length-tail v, len, fits))
      ∙ len

  texted_at :
      (i : ℕ)
      → i < 4 + vlen_of v
      → get_elem? (texted s v).d (s.p + i) ≡ (
          if ltb i 4
          then get_elem? (le_bytes 4 (vlen_of v)) i
          else get_elem? (tail v (vlen_of v)) (i - 4))
  unfolding texted
  texted_at i h = ground (
    arith,
    length-tail v,
    length-le_bytes 4 (vlen_of v),
    fits,
    length-memcpy s.d s.p (le_bytes 4 (vlen_of v)),
    get_elem?-memcpy (memcpy s.d s.p (le_bytes 4 (vlen_of v))) (s.p + 4) (tail v (vlen_of v))
        (s.p + i),
    get_elem?-memcpy s.d s.p (le_bytes 4 (vlen_of v)) (s.p + i),
    places,
  )
    where
      places : (s.p + i - (s.p + 4) ≡ i - 4) × (s.p + i - s.p ≡ i)
      places = omega arith

  tail_at : (i : ℕ) → i < length v → get_elem? (tail v (vlen_of v)) i ≡ get_elem? v i
  tail_at i h =
      ground (arith, h, get_elem?-take (vlen_of v) (v ++ (0 ∷ [])) i, get_elem?-append v (0 ∷ []) i)

  tail_stop : length v ≢ 0 → get_elem? (tail v (vlen_of v)) (length v) ≡ some 0
  tail_stop h =
      let e : length v - length v ≡ 0 = omega arith in
      ground (
        arith,
        h,
        e,
        get_elem?-take (vlen_of v) (v ++ (0 ∷ [])) (length v),
        get_elem?-append v (0 ∷ []) (length v),
      )

  -- A stream whose block has these bytes from `s.p` on.
  module _ (d : List ℕ)
      (same : (i : ℕ) → i < s.p + 4 + vlen_of v → get_elem? d i ≡ get_elem? (texted s v).d i) where
    pub count_back : take 4 (drop s.p d) ≡ le_bytes 4 (vlen_of v)
    count_back = list_ext _ _ λ i. ground (
      arith,
      get_elem?-take 4 (drop s.p d) i,
      get_elem?-drop s.p d i,
      same (s.p + i),
      texted_at i,
      get_elem?-ge (le_bytes 4 (vlen_of v)) i,
      length-le_bytes 4 (vlen_of v),
    )

    text_back : (i : ℕ) → i < length v → get_elem? (drop (s.p + 4) d) i ≡ get_elem? v i
    text_back i h =
        let e : s.p + 4 + i ≡ s.p + (4 + i) = omega arith in
        let e' : 4 + i - 4 ≡ i = omega arith in
        ground (
          arith,
          h,
          e,
          e',
          get_elem?-drop (s.p + 4) d i,
          same (s.p + (4 + i)),
          texted_at (4 + i),
          tail_at i,
        )

    stop_back : length v ≢ 0 → get_elem? (drop (s.p + 4) d) (length v) ≡ some 0
    stop_back h =
        let e : s.p + 4 + length v ≡ s.p + (4 + length v) = omega arith in
        let e' : 4 + length v - 4 ≡ length v = omega arith in
        ground (
          arith,
          h,
          e,
          e',
          get_elem?-drop (s.p + 4) d (length v),
          same (s.p + (4 + length v)),
          texted_at (4 + length v),
          tail_stop h,
        )

    empty_back : length v ≡ 0 → get_elem? (drop (s.p + 3) d) 0 ≡ some 0
    unfolding le_bytes
    empty_back h = ground (arith, h, get_elem?-drop (s.p + 3) d 0, same (s.p + 3), texted_at 3)

    -- Where the text starts for the reader, and what it finds there.
    abbrev start : ℕ
    start = if vlen_of v == 0 then s.p + 4 - 1 else s.p + 4

    pub read_back : IsText v → strnlen (drop start d) (s.p + size_string v - start) ≡ v
    read_back t = elim (Bool-cases (length v == 0)) [
      | inl e ↦
          let zero_length : length v ≡ 0 = ground (arith, e) in
          let at : start ≡ s.p + 3 = ground (arith, e) in
          rw at (
            strnlen_text v (drop (s.p + 3) d) _ t (omega (arith, zero_length, size_string-vlen v))
              (λ i lt. absurd (omega (arith, zero_length)))
              (ap (get_elem? (drop (s.p + 3) d)) zero_length ∙ empty_back zero_length))
      | inr e ↦
          let some_length : length v ≢ 0 = ground (arith, e) in
          let at : start ≡ s.p + 4 = ground (arith, e) in
          let count : vlen_of v ≡ length v + 1 = ground (arith, e) in
          rw at (
            strnlen_text v (drop (s.p + 4) d) _ t (omega (arith, count, size_string-vlen v))
              text_back (stop_back some_length))
    ]

    -- The byte before the padding: the terminator, or the last one of the count.
    pub last_back : get_elem? d (s.p + 3 + vlen_of v) ≡ some 0
    last_back = elim (Bool-cases (length v == 0)) [
      | inl e ↦
          let none_left : length v ≡ 0 = ground (arith, e) in
          let at : s.p + 3 + vlen_of v ≡ s.p + 3 + 0 = ground (arith, e) in
          ap (get_elem? d) at ∙ (sym (get_elem?-drop (s.p + 3) d 0) ∙ empty_back none_left)
      | inr e ↦
          let some_left : length v ≢ 0 = ground (arith, e) in
          let at : s.p + 3 + vlen_of v ≡ s.p + 4 + length v = ground (arith, e) in
          ap (get_elem? d) at ∙ (sym (get_elem?-drop (s.p + 4) d (length v)) ∙ stop_back some_left)
    ]
