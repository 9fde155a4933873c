-- ===== src/Links/Order.antt =====
-- The order of the table, and the list functions that describe it without indices.
use casycom.Base.{ℕ, ◌+◌, ◌≤◌, List, [], ◌∷◌, ltb, leb, ◌==◌, if◌then◌else◌}
use casycom.Links.{MsgLink, OMap}

abbrev pub All {ℓ κ} : {A : Type ℓ} → (A → Type κ) → List A → Type κ
All P [] = Unit
All P (x ∷ xs) = P x × All P xs

-- "The map is sorted by object id."
abbrev pub IsSorted : OMap → Type 0
IsSorted [] = Unit
IsSorted (l ∷ ls) = All (λ k. l.h.dest ≤ k.h.dest) ls × IsSorted ls

-- The links to `dest`, in their order.
unfoldable pub links_to : ℕ → OMap → OMap
links_to dest [] = []
links_to dest (l ∷ ls) = if l.h.dest == dest then l ∷ links_to dest ls else links_to dest ls

-- The links to `oid` and to what is behind it.
unfoldable pub at_least : ℕ → OMap → OMap
at_least oid [] = []
at_least oid (l ∷ ls) = if ltb l.h.dest oid then at_least oid ls else l ∷ at_least oid ls

-- How many links stand before those to `oid`.
unfoldable pub rank : OMap → ℕ → ℕ
rank [] oid = 0
rank (l ∷ ls) oid = if ltb l.h.dest oid then rank ls oid + 1 else 0

-- A link entered behind all links to its destination.
unfoldable pub enter : MsgLink → OMap → OMap
enter e [] = e ∷ []
enter e (l ∷ ls) = if leb l.h.dest e.h.dest then l ∷ enter e ls else e ∷ l ∷ ls
