-- ===== src/Table.antt =====
-- A database table as the list of its rows in insertion order, with one column as a key. Only what
-- the code's queries and the unique constraints of app/models.py need.
pub mod Laws
use ticket_triage.Base.{
  ℕ, ◌≡◌, Bool, ◌==◌, Eq, Option, none, List, [], ◌∷◌, find_first, exists, leb, if◌then◌else◌, map,
}

module _ {A K : Type 0} ⦃e : Eq K⦄ (key : A → K) where
  -- `SELECT ... WHERE key = k`, first row.
  unfoldable pub lookup : K → List A → Option A
  lookup k [] = none
  lookup k (x ∷ xs) = if key x == k then Option.some x else lookup k xs

  unfoldable pub contains : K → List A → Bool
  contains k rows = exists (λ x. key x == k) rows

  -- `UPDATE ... WHERE key = key x`: the row with this key gets the new columns.
  unfoldable pub replace : A → List A → List A
  replace x [] = []
  replace x (y ∷ ys) = if key y == key x then x ∷ replace x ys else y ∷ replace x ys

  -- The unique constraint.
  abbrev pub Distinct : List A → Type 0
  Distinct [] = Unit
  Distinct (x ∷ xs) = (lookup (key x) xs ≡ none) × Distinct xs

module _ {A : Type 0} (key : A → ℕ) where
  -- Insertion into an ordered list, before the rows with the same key.
  unfoldable pub insert_by : A → List A → List A
  insert_by x [] = x ∷ []
  insert_by x (y ∷ ys) = if leb (key x) (key y) then x ∷ y ∷ ys else y ∷ insert_by x ys

  -- `ORDER BY key`, and `list.sort`: stable, so rows with the same key keep their order.
  unfoldable pub order_by : List A → List A
  order_by [] = []
  order_by (x ∷ xs) = insert_by x (order_by xs)
