-- ===== src/FdIo/Reading.antt =====
-- What `read` gives, and what the vector then holds.
use mathlib.Core.List.{append-nil, append_assoc}
use casycom.Base.{
  ℕ, ◌+◌, ◌-◌, ◌*◌, ◌<◌, ◌≤◌, ◌≡◌, refl, ap, sym, ◌∙◌, true, inl, inr, List, [], ◌∷◌, ◌++◌, some,
  arith, ◌==◌, take, length, Bool-cases, length-take,
}
use casycom.Base.Bytes.{
  memcpy, length-memcpy, list_ext, get_elem?-memcpy, get_elem?-take, get_elem?-append, get_elem?-ge,
}
use casycom.Vector.{CharVector}
use casycom.Vector.Contents.{IsValid, content}
use casycom.FdIo.{
  Answer, Ending, done, closed, again, interrupted, failed, complete, received, read_loop,
}

-- Answers that `read` may give when there is room for `n` bytes, up to the end of the loop.
abbrev pub Answers : List (Answer (List ℕ)) → ℕ → Type 0
Answers [] n = n ≡ 0
Answers (done bytes ∷ calls) n =
    (0 < length bytes) × (length bytes ≤ n) × Answers calls (n - length bytes)
Answers (closed ∷ calls) n = Unit
Answers (again ∷ calls) n = Unit
Answers (interrupted ∷ calls) n = Answers calls n
Answers (failed e ∷ calls) n = Unit

-- The bytes of the calls up to the first that stops the loop.
unfoldable pub arrived : List (Answer (List ℕ)) → List ℕ
arrived [] = []
arrived (done bytes ∷ calls) = bytes ++ arrived calls
arrived (closed ∷ calls) = []
arrived (again ∷ calls) = []
arrived (interrupted ∷ calls) = arrived calls
arrived (failed e ∷ calls) = []

-- The vector with the bytes that arrived behind its own.
pub record Receives (v : CharVector) (bytes : List ℕ) (v' : CharVector) : Type 0 where
  pub valid : IsValid v'
  pub bytewise : v'.elsize ≡ 1
  pub same_block : v'.allocated ≡ v.allocated
  pub appended : content v' ≡ content v ++ bytes

pub take-memcpy :
    (d bytes : List ℕ) (n : ℕ)
    → n + length bytes ≤ length d
    → take (n + length bytes) (memcpy d n bytes) ≡ take n d ++ bytes
take-memcpy d bytes n h = list_ext _ _ λ i. ground (
  arith,
  h,
  get_elem?-take (n + length bytes) (memcpy d n bytes) i,
  get_elem?-memcpy d n bytes i,
  get_elem?-append (take n d) bytes i,
  get_elem?-take n d i,
  get_elem?-ge bytes (i - n),
  length-take n d,
)

received-Receives :
    (v : CharVector) (bytes : List ℕ)
    → IsValid v
    → v.elsize ≡ 1
    → v.size + length bytes ≤ v.allocated
    → Receives v bytes (received v bytes)
unfolding received
received-Receives v bytes valid one fits =
    let block : length v.d ≡ v.allocated = valid.block ∙ rw one (omega arith) in
    let before : v.size * v.elsize ≡ v.size = rw one (omega arith) in
    let after : (v.size + length bytes) * v.elsize ≡ v.size + length bytes = rw one (omega arith) in
    record {
      valid = record {
        elements = valid.elements;
        within = fits;
        block = length-memcpy v.d v.size bytes (omega arith) ∙ valid.block;
      };
      bytewise = one;
      same_block = refl;
      appended = rw (after, before) (take-memcpy v.d bytes v.size (omega arith));
    }

nothing-Receives : (v : CharVector) → IsValid v → v.elsize ≡ 1 → Receives v [] v
nothing-Receives v valid one = record {
  valid = valid;
  bytewise = one;
  same_block = refl;
  appended = sym (append-nil (content v));
}

both-Receives :
    (v v' v'' : CharVector) (first rest : List ℕ)
    → Receives v first v'
    → Receives v' rest v''
    → Receives v (first ++ rest) v''
both-Receives v v' v'' first rest a b = record {
  valid = b.valid;
  bytewise = b.bytewise;
  same_block = b.same_block ∙ a.same_block;
  appended =
      b.appended
      ∙ (ap (λ (t : List ℕ). t ++ rest) a.appended ∙ append_assoc (content v) first rest);
}

-- Nothing more arrives when there is no room.
full-arrived :
    (calls : List (Answer (List ℕ))) (n : ℕ) → n ≡ 0 → Answers calls n → arrived calls ≡ []
unfolding arrived
full-arrived [] n h a = refl
full-arrived (done bytes ∷ calls) n h a = absurd (omega (arith, h, a.0, a.1))
full-arrived (closed ∷ calls) n h a = refl
full-arrived (again ∷ calls) n h a = refl
full-arrived (interrupted ∷ calls) n h a = full-arrived calls n h a
full-arrived (failed e ∷ calls) n h a = refl

-- On a well-formed vector of bytes and with answers that `read` may give, the read loop of the FdIO
-- object ends with a well-formed vector of the same capacity, in which the bytes that arrived stand
-- behind those it had, in the order of the calls.
pub read_loop-Receives :
    (calls : List (Answer (List ℕ))) (v : CharVector)
    → IsValid v
    → v.elsize ≡ 1
    → Answers calls (v.allocated - v.size)
    → (v' : CharVector) × (ending : Ending) × (read_loop calls v ≡ some (v', ending))
      × Receives v (arrived calls) v'
unfolding read_loop arrived
read_loop-Receives [] v valid one a =
    let e : (v.allocated - v.size == 0) ≡ true = ground (arith, a) in
    (v, complete, rw e refl, nothing-Receives v valid one)
read_loop-Receives (done bytes ∷ calls) v valid one a =
    elim (Bool-cases (v.allocated - v.size == 0)) [
      | inl e ↦ absurd (ground (arith, e, a.0, a.1))
      | inr e ↦
          let fits : v.size + length bytes ≤ v.allocated = omega (arith, valid.within, a.1) in
          let first = received-Receives v bytes valid one fits in
          let room : v.allocated - (v.size + length bytes) ≡ v.allocated - v.size - length bytes =
            omega arith in
          let (v', ending, rest, more) =
            read_loop-Receives calls (received v bytes) first.valid one
              (unfold received in rw room a.2) in
          (
            v',
            ending,
            rw (e, rest) refl,
            both-Receives v (received v bytes) v' bytes (arrived calls) first more,
          )
    ]
read_loop-Receives (closed ∷ calls) v valid one a = (v, _, refl, nothing-Receives v valid one)
read_loop-Receives (again ∷ calls) v valid one a = (v, _, refl, nothing-Receives v valid one)
read_loop-Receives (interrupted ∷ calls) v valid one a =
    elim (Bool-cases (v.allocated - v.size == 0)) [
      | inl e ↦
          let none_more = full-arrived calls _ (ground (arith, e)) a in
          (v, complete, rw e refl, rw none_more (nothing-Receives v valid one))
      | inr e ↦ rw e (read_loop-Receives calls v valid one a)
    ]
read_loop-Receives (failed e ∷ calls) v valid one a = (v, _, refl, nothing-Receives v valid one)
