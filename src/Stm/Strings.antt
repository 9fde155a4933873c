-- ===== src/Stm/Strings.antt =====
-- stm.c: a text written by `casystm_write_string` is the text that `casystm_read_string` reads.
use casycom.Base.{
  ℕ, ◌+◌, ◌-◌, ◌^◌, ◌≤◌, ◌<◌, ◌≡◌, ap, sym, ◌∙◌, true, List, some, arith, length, drop, get_elem?,
  ◌==◌, leb, le→leb, ==_iff, if◌then◌else◌, ceilg,
}
use casycom.Stm.{
  Stm, le_value, can_read, read_pod, read_skip, read_align, size_string, strnlen, write_string,
  read_string,
}
use casycom.Stm.Values.{HasRoom, le_value-le_bytes, read_pod-eq}
use casycom.Stm.Padding.{Pads, write_align-Pads}
use casycom.Stm.Texts.{
  count_back, read_back, vlen_of, texted, HasTextRoom, size_string-vlen, write_string-texted,
  IsText, fits, length-texted, last_back,
}

-- Where the text of a count starts for the reader.
abbrev start_of : ℕ → ℕ → ℕ
start_of p vlen = if vlen == 0 then p + 4 - 1 else p + 4

read_string-eq :
    (s : Stm) (v : List ℕ) (vlen stop : ℕ)
    → read_pod 4 s ≡ some (vlen, record s { p = s.p + 4 })
    → s.p + 4 + vlen ≤ s.end
    → ceilg (s.p + 4 + vlen) 4 ≡ stop
    → strnlen (drop (start_of s.p vlen) s.d) (stop - start_of s.p vlen) ≡ v
    → length v ≡ (if vlen == 0 then 0 else vlen - 1)
    → read_string s ≡ some (v, record s { p = stop })
unfolding read_string read_skip can_read read_align ceilg
read_string-eq s v vlen stop e fits e' text len =
    let t : leb (s.p + 4 + vlen) s.end ≡ true = le→leb _ _ fits in
    let t' : (length v == (if vlen == 0 then 0 else vlen - 1)) ≡ true = (==_iff _ _).1 len in
    rw (e, t, e', text, t')

module _ (s : Stm) (v : List ℕ) (r : HasTextRoom s v) where
  after : ceilg (texted s v).p 4 ≡ s.p + size_string v
  unfolding texted ceilg size_string
  after = ground (arith, r.aligned)

  pad_lt : s.p + size_string v < (texted s v).p + 4
  unfolding texted ceilg size_string
  pad_lt = ground (arith, r.aligned)

  end_ok : s.p + size_string v ≤ (texted s v).end
  unfolding texted
  end_ok = r.inside

  block_ok : (texted s v).end ≤ length (texted s v).d
  unfolding texted
  block_ok = omega (arith, r.block, length-texted s v r)

  module _ (s' : Stm) (pads : Pads (texted s v) (s.p + size_string v) s') where
    kept : (i : ℕ) → i < s.p + 4 + vlen_of v → get_elem? s'.d i ≡ get_elem? (texted s v).d i
    unfolding texted
    kept = pads.same_before

    kept_end : s'.end ≡ s.end
    unfolding texted
    kept_end = pads.same_end

    back_room : HasRoom (record s' { p = s.p }) 4
    back_room = record {
      aligned = r.aligned;
      inside = omega (arith, kept_end, r.inside, size_string-vlen v);
      block = omega (arith, kept_end, r.block, pads.same_block, length-texted s v r);
    }

    count_read :
        length v + 1 < 2 ^ 32
        → read_pod 4 (record s' { p = s.p }) ≡ some (vlen_of v, record s' { p = s.p + 4 })
    count_read small =
        read_pod-eq (record s' { p = s.p }) 4 (vlen_of v) back_room
          (ap le_value (count_back s v r s'.d kept)
            ∙ le_value-le_bytes 4 (vlen_of v) (ground (arith, small)))

    text_read :
        IsText v
        → length v + 1 < 2 ^ 32
        → read_string (record s' { p = s.p }) ≡ some (v, record s' { p = s.p + size_string v })
    text_read t small =
        read_string-eq (record s' { p = s.p }) v (vlen_of v) (s.p + size_string v)
          (count_read small) (omega (arith, kept_end, r.inside, size_string-vlen v))
          (unfold texted in after) (read_back s v r s'.d kept t) (ground arith)

-- What a stream `s'` after the text `v` was written to `s` holds.
pub record Writes (s : Stm) (v : List ℕ) (s' : Stm) : Type 0 where
  pub moved : s'.p ≡ s.p + size_string v
  pub same_end : s'.end ≡ s.end
  pub same_block : length s'.d ≡ length s.d
  pub count : read_pod 4 (record s' { p = s.p }) ≡ some (vlen_of v, record s' { p = s.p + 4 })
  pub last : get_elem? s'.d (s.p + 3 + vlen_of v) ≡ some 0
  pub text : read_string (record s' { p = s.p }) ≡ some (v, s')

pub write_string-Writes :
    (s : Stm) (v : List ℕ)
    → HasTextRoom s v
    → IsText v
    → length v + 1 < 2 ^ 32
    → (s' : Stm) × (write_string s v ≡ some s') × Writes s v s'
write_string-Writes s v r t small =
    let aligned : ceilg (texted s v).p 4 ≡ s.p + size_string v = after s v r in
    let (s', e, k) =
      write_align-Pads 4 (texted s v) (s.p + size_string v) aligned (pad_lt s v r) (end_ok s v r)
        (block_ok s v r) in
    (
      s',
      write_string-texted s v r ∙ e,
      record {
        moved = k.moved;
        same_end = kept_end s v r s' k;
        same_block = k.same_block ∙ length-texted s v r;
        count = count_read s v r s' k small;
        last = last_back s v r s'.d (kept s v r s' k);
        text = text_read s v r s' k t small ∙ ap (λ p. some (v, record s' { p = p })) (sym k.moved);
      },
    )

-- A text without zero bytes that a 32-bit length can count, written at an aligned place with room
-- for it, is read back from there, and both streams pass `casystm_size_string` bytes.
pub read_string-write_string :
    (s : Stm) (v : List ℕ)
    → HasTextRoom s v
    → IsText v
    → length v + 1 < 2 ^ 32
    → (s' : Stm) × (write_string s v ≡ some s')
      × (read_string (record s' { p = s.p }) ≡ some (v, s'))
      × (s'.p ≡ s.p + size_string v)
read_string-write_string s v r t small =
    let (s', e, w) = write_string-Writes s v r t small in (s', e, w.text, w.moved)
