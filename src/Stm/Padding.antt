-- ===== src/Stm/Padding.antt =====
-- The zero bytes with which `casystm_write_string` pads a text.
use casycom.Base.{
  ℕ, zero, suc, ◌+◌, ◌%◌, ◌≤◌, ◌<◌, ◌≡◌, refl, ◌∙◌, true, false, inl, inr, [], ◌∷◌, some, arith,
  length, get_elem?, ◌==◌, ceilg, Bool-cases,
}
use casycom.Base.Bytes.{memcpy, get_elem?-memcpy, length-memcpy}
use casycom.Stm.{Stm, le_bytes, is_aligned, write_align}
use casycom.Stm.Values.{HasRoom, length-le_bytes, write_pod-eq}

-- Only padding was written: the bytes before it and the size of the block are as they were.
pub record Pads (s : Stm) (stop : ℕ) (s' : Stm) : Type 0 where
  pub moved : s'.p ≡ stop
  pub same_end : s'.end ≡ s.end
  pub same_block : length s'.d ≡ length s.d
  pub same_before : (i : ℕ) → i < s.p → get_elem? s'.d i ≡ get_elem? s.d i

Pads-refl : (s : Stm) → Pads s s.p s
Pads-refl s = record { moved = refl; same_end = refl; same_block = refl; same_before = λ i h. refl }

one_byte : (s : Stm) → s.p < s.end → s.end ≤ length s.d → HasRoom s 1
one_byte s h k = record { aligned = omega arith; inside = omega arith; block = k }

padded : Stm → Stm
padded s = record s { d = memcpy s.d s.p (le_bytes 1 0); p = s.p + 1 }

padded-Pads : (s s' : Stm) (stop : ℕ) → s.p < length s.d → Pads (padded s) stop s' → Pads s stop s'
unfolding padded le_bytes
padded-Pads s s' stop h k = record {
  moved = k.moved;
  same_end = k.same_end;
  same_block = k.same_block ∙ length-memcpy s.d s.p (0 ∷ []) (omega arith);
  same_before = λ i lt.
      k.same_before i (omega arith)
      ∙ (get_elem?-memcpy s.d s.p (0 ∷ []) i (omega arith) ∙ ground arith);
}

write_align_stop :
    (fuel : ℕ) (s : Stm) → (s.p % 4 == 0) ≡ true → write_align (suc fuel) s 4 ≡ some s
unfolding write_align is_aligned
write_align_stop fuel s e = ground (arith, e)

write_align_more :
    (fuel : ℕ) (s : Stm)
    → (s.p % 4 == 0) ≡ false
    → HasRoom s 1
    → write_align (suc fuel) s 4 ≡ write_align fuel (padded s) 4
unfolding write_align is_aligned padded
write_align_more fuel s e room = ground (arith, e, write_pod-eq s 1 0 room)

pub write_align-Pads :
    (fuel : ℕ) (s : Stm) (stop : ℕ)
    → ceilg s.p 4 ≡ stop
    → stop < s.p + fuel
    → stop ≤ s.end
    → s.end ≤ length s.d
    → (s' : Stm) × (write_align fuel s 4 ≡ some s') × Pads s stop s'
unfolding ceilg
write_align-Pads zero s stop eq h inside block = absurd (omega arith)
write_align-Pads (suc fuel) s stop eq h inside block = elim (Bool-cases (s.p % 4 == 0)) [
  | inl e ↦
      let at : s.p ≡ stop = ground arith in (s, write_align_stop fuel s e, rw (← at) (Pads-refl s))
  | inr e ↦
      let more : s.p < stop = ground arith in
      let len = length-memcpy s.d s.p (le_bytes 1 0) (omega (arith, length-le_bytes 1 0)) in
      let (s', e', k) =
        write_align-Pads fuel (padded s) stop (unfold padded in (ground arith))
          (unfold padded in (omega arith)) (unfold padded in (omega arith))
          (unfold padded in (omega (arith, len))) in
      (
        s',
        write_align_more fuel s e (one_byte s (omega arith) block) ∙ e',
        padded-Pads s s' stop (omega arith) k,
      )
]
