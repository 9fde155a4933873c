-- ===== src/Registry/Names.antt =====
-- `casycom_interface_by_name` finds an interface by its name.
use casycom.Base.{
  ℕ, ◌≡◌, ◌≢◌, refl, ap, ap₂, sym, ◌∙◌, true, false, ◌⊎◌, inl, inr, List, [], ◌∷◌, Option, none,
  some, arith, ◌==◌, if◌then◌else◌, Bool-cases, Option-cases, ==_iff,
}
use casycom.Registry.{
  Dtable, Registry, same_name, interface_in, interface_in_table, interface_by_name, first_of,
  or_else, default_named,
}

pub same_name-eq : (xs ys : List ℕ) → same_name xs ys ≡ true → xs ≡ ys
unfolding same_name
same_name-eq [] [] h = refl
same_name-eq [] (y ∷ ys) h = cc
same_name-eq (x ∷ xs) [] h = cc
same_name-eq (x ∷ xs) (y ∷ ys) h = elim (Bool-cases (x == y)) [
  | inl e ↦ ap₂ (λ z zs. z ∷ zs) ((==_iff x y).0 e) (same_name-eq xs ys (ground (arith, e, h)))
  | inr e ↦ ground (arith, e, h)
]

pub same_name_refl : (xs : List ℕ) → same_name xs xs ≡ true
unfolding same_name
same_name_refl [] = refl
same_name_refl (x ∷ xs) = let e : (x == x) ≡ true = ground arith in rw (e, same_name_refl xs) refl

module _ (dtable : ℕ → List Dtable) (name : ℕ → List ℕ) where
  abbrev pub Has : ℕ → List Dtable → Type 0
  Has iid [] = true ≡ false
  Has iid (d ∷ ds) = (d.interface ≡ iid) ⊎ Has iid ds

  abbrev pub HasClass : ℕ → List ℕ → Type 0
  HasClass iid [] = true ≡ false
  HasClass iid (f ∷ fs) = Has iid (dtable f) ⊎ HasClass iid fs

  -- The classes registered implement the interface, or the default class begins with it.
  abbrev pub Known : Registry → ℕ → Type 0
  Known r iid =
      HasClass iid r.object_table
      ⊎ ((r.default_object ≢ 0)
          × ((d : Dtable) × (first_of (dtable r.default_object) ≡ some d) × (d.interface ≡ iid)))

  interface_in-Has :
      (ds : List Dtable) (iname : List ℕ) (iid : ℕ)
      → interface_in name ds iname ≡ some iid
      → Has iid ds × (name iid ≡ iname)
  unfolding interface_in
  interface_in-Has [] iname iid h = cc
  interface_in-Has (d ∷ ds) iname iid h = elim (Bool-cases (same_name (name d.interface) iname)) [
    | inl e ↦
        let here : d.interface ≡ iid = ground (arith, e, h) in
        (inl here, ap name (sym here) ∙ same_name-eq _ iname e)
    | inr e ↦ let r = interface_in-Has ds iname iid (ground (arith, e, h)) in (inr r.0, r.1)
  ]

  interface_in-finds :
      (ds : List Dtable) (iid : ℕ) → Has iid ds → interface_in name ds (name iid) ≢ none
  unfolding interface_in
  interface_in-finds [] iid h = cc
  interface_in-finds (d ∷ ds) iid h = elim (Bool-cases (same_name (name d.interface) (name iid))) [
    | inl e ↦ rw e (λ q. cc)
    | inr e ↦ rw e (λ q. elim h [
      | inl here ↦ ground (arith, e, ap name here, same_name_refl (name iid))
      | inr there ↦ interface_in-finds ds iid there q
    ])
  ]

  interface_in_table-HasClass :
      (fs : List ℕ) (iname : List ℕ) (iid : ℕ)
      → interface_in_table dtable name fs iname ≡ some iid
      → HasClass iid fs × (name iid ≡ iname)
  unfolding interface_in_table or_else
  interface_in_table-HasClass [] iname iid h = cc
  interface_in_table-HasClass (f ∷ fs) iname iid h =
      elim (Option-cases (interface_in name (dtable f) iname)) [
        | inl e ↦ let r = interface_in_table-HasClass fs iname iid (rw e at h) in (inr r.0, r.1)
        | inr (i, e) ↦
            let r = interface_in-Has (dtable f) iname iid (e ∙ (rw e at h)) in (inl r.0, r.1)
      ]

  interface_in_table-finds :
      (fs : List ℕ) (iid : ℕ)
      → HasClass iid fs
      → interface_in_table dtable name fs (name iid) ≢ none
  unfolding interface_in_table or_else
  interface_in_table-finds [] iid h = cc
  interface_in_table-finds (f ∷ fs) iid h =
      elim (Option-cases (interface_in name (dtable f) (name iid))) [
        | inl e ↦ rw e (λ q. elim h [
          | inl here ↦ interface_in-finds (dtable f) iid here e
          | inr there ↦ interface_in_table-finds fs iid there q
        ])
        | inr (i, e) ↦ rw e (λ q. cc)
      ]

  -- What `found` is to be for the name `iname`.
  pub record FindsName (r : Registry) (iname : List ℕ) (found : Option ℕ) : Type 0 where
    pub sound : (iid : ℕ) → found ≡ some iid → Known r iid × (name iid ≡ iname)
    pub complete : (iid : ℕ) → Known r iid → name iid ≡ iname → found ≢ none

  default_interface : Registry → List ℕ → Option ℕ
  default_interface r iname =
      if r.default_object == 0
      then none
      else default_named name (first_of (dtable r.default_object)) iname

  by_name_eq :
      (r : Registry) (iname : List ℕ)
      → interface_by_name dtable name r iname
        ≡ or_else (interface_in_table dtable name r.object_table iname) (default_interface r iname)
  unfolding interface_by_name default_interface
  by_name_eq r iname = refl

  named-Known :
      (r : Registry) (iname : List ℕ) (found : Option Dtable) (iid : ℕ)
      → first_of (dtable r.default_object) ≡ found
      → r.default_object ≢ 0
      → default_named name found iname ≡ some iid
      → Known r iid × (name iid ≡ iname)
  unfolding default_named
  named-Known r iname none iid e n h = cc
  named-Known r iname (some d) iid e n h = elim (Bool-cases (same_name (name d.interface) iname)) [
    | inl same ↦
        let here : d.interface ≡ iid = ground (arith, same, h) in
        (inr (n, (d, e, here)), ap name (sym here) ∙ same_name-eq _ iname same)
    | inr other ↦ ground (arith, other, h)
  ]

  default-Known :
      (r : Registry) (iname : List ℕ) (iid : ℕ)
      → default_interface r iname ≡ some iid
      → Known r iid × (name iid ≡ iname)
  unfolding default_interface
  default-Known r iname iid h = elim (Bool-cases (r.default_object == 0)) [
    | inl e ↦ absurd (ground (arith, e, h))
    | inr e ↦ named-Known r iname _ iid refl (ground (arith, e)) (rw e at h)
  ]

  default-finds :
      (r : Registry) (d : Dtable)
      → r.default_object ≢ 0
      → first_of (dtable r.default_object) ≡ some d
      → default_interface r (name d.interface) ≢ none
  unfolding default_interface default_named
  default-finds r d n e q =
      let set : (r.default_object == 0) ≡ false = ground (arith, n) in
      let h = rw (set, e, same_name_refl (name d.interface)) at q in cc

  or_else-none : (a b : Option ℕ) → or_else a b ≡ none → (a ≡ none) × (b ≡ none)
  unfolding or_else
  or_else-none none b h = (refl, h)
  or_else-none (some i) b h = cc

  or_else-some : (a b : Option ℕ) (i : ℕ) → or_else a b ≡ some i → (a ≡ some i) ⊎ (b ≡ some i)
  unfolding or_else
  or_else-some none b i h = inr h
  or_else-some (some j) b i h = inl h

-- What `casycom_interface_by_name` finds has the name asked for, and is an interface of a
-- registered class or the first one of the default class. Where there is such an interface, one is
-- found.
pub interface_by_name-FindsName :
    (dtable : ℕ → List Dtable) (name : ℕ → List ℕ) (r : Registry) (iname : List ℕ)
    → FindsName dtable name r iname (interface_by_name dtable name r iname)
interface_by_name-FindsName dtable name r iname = rw (by_name_eq dtable name r iname) record {
  sound = λ iid h. elim (or_else-some dtable name _ _ iid h) [
    | inl e ↦
        let k = interface_in_table-HasClass dtable name r.object_table iname iid e in (inl k.0, k.1)
    | inr e ↦ default-Known dtable name r iname iid e
  ];
  complete = λ iid known same none_found.
      let e = or_else-none dtable name _ _ none_found in
      elim known [
        | inl class ↦ interface_in_table-finds dtable name r.object_table iid class (rw same e.0)
        | inr (n, (d, first, here)) ↦ default-finds dtable name r d n first (rw (here, same) e.1)
      ];
}
