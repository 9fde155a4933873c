-- ===== src/Externs/Exports.antt =====
-- The list of the interfaces that one side exports, read by the other side.
use mathlib.Core.List.{append-nil, append_assoc}
use mathlib.Core.Option.{some-injective}
use casycom.Base.{
  ℕ, suc, ◌+◌, ◌-◌, ◌≡◌, ◌≢◌, ◌<◌, ◌⊎◌, refl, ap, sym, ◌∙◌, Bool, true, false, List, [], ◌∷◌, ◌++◌,
  some, ◌==◌, ltb, arith, length, take, length-append, Bool-cases, inl, inr,
}
use casycom.Base.Chain.{◌>>◌, assert}
use casycom.Msg.{Interface}
use casycom.Links.Order.{All}
use casycom.Externs.{comma_names, export_text, starts_with, matching, import_from}

-- A text without a comma.
abbrev pub HasNoComma : List ℕ → Type 0
HasNoComma v = All (λ (c : ℕ). c ≢ b',') v

-- No name begins with a comma.
abbrev pub BeginsPlain : List ℕ → Type 0
BeginsPlain [] = Unit
BeginsPlain (c ∷ v) = c ≢ b','

module _ (interfaces : ℕ → Interface) (imported : List ℕ)
    (plain : All (λ i. BeginsPlain (interfaces i).name) imported) where
  no_comma_first : (name text : List ℕ) → BeginsPlain name → starts_with name (b',' ∷ text) ≡ false
  unfolding starts_with
  no_comma_first [] text h = refl
  no_comma_first (c ∷ name) text h = let e : (c == b',') ≡ false = ground (arith, h) in rw e refl

  matching-comma :
      (is : List ℕ) (text : List ℕ)
      → All (λ i. BeginsPlain (interfaces i).name) is
      → matching interfaces is (b',' ∷ text) ≡ []
  unfolding matching
  matching-comma [] text a = refl
  matching-comma (i ∷ is) text a =
      rw (no_comma_first (interfaces i).name text a.0) (matching-comma is text a.1)

  -- Behind the first comma nothing is found.
  import_from-comma : (text rest : List ℕ) → import_from interfaces imported (b',' ∷ text) rest ≡ []
  unfolding import_from
  import_from-comma text [] = matching-comma imported text plain
  import_from-comma text (c ∷ rest) = elim (Bool-cases (c == b',')) [
    | inl e ↦
        let here : c ≡ b',' = ground (arith, e) in
        rw (e, matching-comma imported text plain, here) (import_from-comma [] rest)
    | inr e ↦ rw e (import_from-comma (text ++ (c ∷ [])) rest)
  ]

  import_from-name :
      (text name rest : List ℕ)
      → HasNoComma name
      → import_from interfaces imported text (name ++ (b',' ∷ rest))
        ≡ matching interfaces imported (text ++ name)
  unfolding import_from
  import_from-name text [] rest h = rw (import_from-comma [] rest, append-nil text) (append-nil _)
  import_from-name text (c ∷ name) rest h =
      let e : (c == b',') ≡ false = ground (arith, h.0) in
      rw e (
        import_from-name (text ++ (c ∷ [])) name rest h.1
        ∙ ap (matching interfaces imported) (append_assoc text (c ∷ []) name))

  import_from-last :
      (c : ℕ) (text name : List ℕ)
      → HasNoComma name
      → import_from interfaces imported (c ∷ text) name
        ≡ matching interfaces imported ((c ∷ text) ++ name)
  unfolding import_from
  import_from-last c text [] h = ap (matching interfaces imported) (sym (append-nil (c ∷ text)))
  import_from-last c text (d ∷ name) h =
      let e : (d == b',') ≡ false = ground (arith, h.0) in
      rw e (
        import_from-last c (text ++ (d ∷ [])) name h.1
        ∙ ap (matching interfaces imported) (append_assoc (c ∷ text) (d ∷ []) name))

  import_from-alone :
      (name : List ℕ)
      → HasNoComma name
      → name ≢ []
      → import_from interfaces imported [] name ≡ matching interfaces imported name
  unfolding import_from
  import_from-alone [] h named = absurd (named refl)
  import_from-alone (c ∷ name) h named =
      let e : (c == b',') ≡ false = ground (arith, h.0) in rw e (import_from-last c [] name h.1)

take-past :
    (name rest : List ℕ) (k : ℕ)
    → take (length name + 1 + k) (name ++ (b',' ∷ rest)) ≡ name ++ (b',' ∷ take k rest)
take-past [] rest k = let e : 0 + 1 + k ≡ suc k = omega arith in rw e refl
take-past (c ∷ name) rest k =
    let e : suc (length name) + 1 + k ≡ suc (length name + 1 + k) = omega arith in
    rw e (ap (c ∷◌) (take-past name rest k))

take-name : (name : List ℕ) → take (length name) (name ++ (b',' ∷ [])) ≡ name
take-name [] = refl
take-name (c ∷ name) = ap (c ∷◌) (take-name name)

asserted :
    (a b : Bool) (t text : List ℕ) → (assert a >> (assert b >> some t)) ≡ some text → t ≡ text
asserted true true t text h = some-injective t text h
asserted true false t text h = cc
asserted false b t text h = cc

-- The text is one name, or begins with the first name and its comma.
export_text-first :
    (interfaces : ℕ → Interface) (ei : ℕ) (eis : List ℕ) (text : List ℕ)
    → export_text interfaces (ei ∷ eis) ≡ some text
    → (text ≡ (interfaces ei).name)
      ⊎ ((rest : List ℕ) × (text ≡ (interfaces ei).name ++ (b',' ∷ rest)))
unfolding export_text comma_names
export_text-first interfaces ei eis text h =
    let list = comma_names interfaces (ei ∷ eis) in
    let e =
      asserted (ltb (length list) 256) (ltb 0 (length list)) (take (length list - 1) list) text h in
    part eis e
  where
    part :
        (es : List ℕ)
        → take
            (length ((interfaces ei).name ++ (b',' ∷ comma_names interfaces es)) - 1)
            ((interfaces ei).name ++ (b',' ∷ comma_names interfaces es))
          ≡ text
        → (text ≡ (interfaces ei).name)
          ⊎ ((rest : List ℕ) × (text ≡ (interfaces ei).name ++ (b',' ∷ rest)))
    part [] e =
        let name = (interfaces ei).name in
        let len : length (name ++ (b',' ∷ [])) - 1 ≡ length name =
          omega (arith, length-append name (b',' ∷ [])) in
        inl (sym (rw len at e) ∙ take-name name)
    part (x ∷ es) e =
        let name = (interfaces ei).name in
        let rest = comma_names interfaces (x ∷ es) in
        let some_rest : 0 < length rest =
          omega (arith, length-append (interfaces x).name (b',' ∷ comma_names interfaces es)) in
        let len : length (name ++ (b',' ∷ rest)) - 1 ≡ length name + 1 + (length rest - 1) =
          omega (arith, length-append name (b',' ∷ rest), some_rest) in
        inr (take (length rest - 1) rest, sym (rw len at e) ∙ take-past name rest (length rest - 1))

-- Of the interfaces that one side exports, the other side imports only those whose names begin with
-- the name of the first one, however many names stand in the list: this is what `Extern_COM_export`
-- makes of the text that `Extern_Extern_open` sends, when the first name is not empty and has no
-- comma, and no name looked for begins with a comma.
pub import_from-export_text :
    (interfaces : ℕ → Interface) (imported : List ℕ) (ei : ℕ) (eis : List ℕ) (text : List ℕ)
    → All (λ i. BeginsPlain (interfaces i).name) imported
    → HasNoComma (interfaces ei).name
    → (interfaces ei).name ≢ []
    → export_text interfaces (ei ∷ eis) ≡ some text
    → import_from interfaces imported [] text ≡ matching interfaces imported (interfaces ei).name
import_from-export_text interfaces imported ei eis text plain clean named sent =
    elim (export_text-first interfaces ei eis text sent) [
      | inl e ↦ rw e (import_from-alone interfaces imported plain (interfaces ei).name clean named)
      | inr (rest, e) ↦
          rw e (import_from-name interfaces imported plain [] (interfaces ei).name rest clean)
    ]
