-- ===== src/FdIo/Writing.antt =====
-- What `write` is given, and what is left for the next turn.
use mathlib.Core.List.{append_assoc}
use casycom.Base.{
  ℕ, zero, suc, ◌+◌, ◌-◌, ◌*◌, ◌≤◌, ◌≡◌, refl, ap, sym, ◌∙◌, true, inl, inr, List, [], ◌∷◌, ◌++◌,
  some, arith, ◌==◌, take, drop, take-append-drop, Bool-cases,
}
use casycom.Vector.{CharVector}
use casycom.Vector.Contents.{IsValid, content}
use casycom.Vector.Edits.{Erased, erase_n-Erased}
use casycom.FdIo.{
  Answer, Ending, done, closed, again, interrupted, failed, complete, Written, write_loop,
  after_write, wrote_nothing,
}

-- Answers that `write` may give when there are `n` bytes to write, up to the end of the loop: no more
-- than it was given, and a reason to stop before the last byte.
abbrev pub Answers : List (Answer ℕ) → ℕ → Type 0
Answers [] n = n ≡ 0
Answers (done r ∷ calls) n = (r ≤ n) × Answers calls (n - r)
Answers (closed ∷ calls) n = Unit
Answers (again ∷ calls) n = Unit
Answers (interrupted ∷ calls) n = Answers calls n
Answers (failed e ∷ calls) n = Unit

-- The bytes written and those left are the ones of the vector.
pub record Sends (v : CharVector) (w : Written) : Type 0 where
  pub valid : IsValid w.left
  pub bytewise : w.left.elsize ≡ 1
  pub in_order : content v ≡ w.bytes ++ content w.left
  pub all_if_complete : w.ending ≡ complete → w.left.size ≡ 0

take-take : (r n : ℕ) (d : List ℕ) → r ≤ n → take r (take n d) ≡ take r d
take-take zero n d h = refl
take-take (suc r) zero d h = absurd (omega arith)
take-take (suc r) (suc n) [] h = refl
take-take (suc r) (suc n) (x ∷ d) h = ap (x ∷◌) (take-take r n d (omega arith))

Erased-part :
    (v v' : CharVector) (r : ℕ)
    → v.elsize ≡ 1
    → r ≤ v.size
    → Erased v 0 r v'
    → content v ≡ take r v.d ++ content v'
Erased-part v v' r one h e =
    let none_before : 0 * v.elsize ≡ 0 = omega arith in
    let skipped : (0 + r) * v.elsize ≡ r = rw one (omega arith) in
    let all : v.size * v.elsize ≡ v.size = rw one (omega arith) in
    let left : content v' ≡ drop r (content v) = e.joined ∙ rw (none_before, skipped) refl in
    let front : take r v.d ≡ take r (content v) = sym (take-take r _ v.d (omega arith)) in
    sym (
      ap (λ (t : List ℕ). t ++ content v') front
      ∙ ap (λ (t : List ℕ). take r (content v) ++ t) left
      ∙ take-append-drop r (content v))

nothing-Sends :
    (v : CharVector) (ending : Ending)
    → IsValid v
    → v.elsize ≡ 1
    → (ending ≡ complete → v.size ≡ 0)
    → Sends v (wrote_nothing v ending)
nothing-Sends v ending valid one h = record {
  valid = valid;
  bytewise = one;
  in_order = refl;
  all_if_complete = elim (Bool-cases (v.size == 0)) [
    | inl e ↦ λ q. ground (arith, e)
    | inr e ↦ rw e h
  ];
}

after-Sends :
    (v v' : CharVector) (r : ℕ) (w : Written)
    → content v ≡ take r v.d ++ content v'
    → Sends v' w
    → Sends v (after_write (take r v.d) w)
after-Sends v v' r w e sends = record {
  valid = sends.valid;
  bytewise = sends.bytewise;
  in_order =
      e
      ∙ (ap (λ (t : List ℕ). take r v.d ++ t) sends.in_order
          ∙ sym (append_assoc (take r v.d) w.bytes (content w.left)));
  all_if_complete = sends.all_if_complete;
}

-- On a well-formed vector of bytes and with answers that `write` may give, the write loop of the
-- FdIO object ends; the bytes written, in the order of the calls, and those left in the vector are
-- the bytes that the vector had, and none is left when no call asked to stop.
pub write_loop-Sends :
    (calls : List (Answer ℕ)) (v : CharVector)
    → IsValid v
    → v.elsize ≡ 1
    → Answers calls v.size
    → (w : Written) × (write_loop calls v ≡ some w) × Sends v w
unfolding write_loop
write_loop-Sends [] v valid one a =
    let e : (v.size == 0) ≡ true = ground (arith, a) in
    (wrote_nothing v complete, rw e refl, nothing-Sends v complete valid one (λ q. a))
write_loop-Sends (done r ∷ calls) v valid one a = elim (Bool-cases (v.size == 0)) [
  | inl e ↦ (
    wrote_nothing v complete,
    rw (e, wrote_nothing) refl,
    nothing-Sends v complete valid one (λ q. ground (arith, e)),
  )
  | inr e ↦
      let (v', erased, part) = erase_n-Erased v 0 r valid (omega (arith, a.0)) in
      let size : v'.size ≡ v.size - r = omega (arith, part.fewer) in
      let (w, rest, sends) =
        write_loop-Sends calls v' part.valid (part.same_elsize ∙ one) (rw size a.1) in
      (
        after_write (take r v.d) w,
        rw (e, erased, rest) refl,
        after-Sends v v' r w (Erased-part v v' r one a.0 part) sends,
      )
]
write_loop-Sends (closed ∷ calls) v valid one a =
    (wrote_nothing v _, refl, nothing-Sends v _ valid one (λ q. cc))
write_loop-Sends (again ∷ calls) v valid one a =
    (wrote_nothing v _, refl, nothing-Sends v _ valid one (λ q. cc))
write_loop-Sends (interrupted ∷ calls) v valid one a = elim (Bool-cases (v.size == 0)) [
  | inl e ↦ (
    wrote_nothing v complete,
    rw e refl,
    nothing-Sends v complete valid one (λ q. ground (arith, e)),
  )
  | inr e ↦ rw e (write_loop-Sends calls v valid one a)
]
write_loop-Sends (failed e ∷ calls) v valid one a =
    (wrote_nothing v _, refl, nothing-Sends v _ valid one (λ q. cc))
