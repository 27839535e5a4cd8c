-- ===== src/Table/Defs.antt =====
-- A table: rows under their primary key. `find` is a select by key, `modify` an update of the row
-- that `find` returns, `append` an insert.
use a2a_settlement.Base.{ℕ, Bool, Option, none, some, List, [], ◌∷◌, ◌==◌, if◌then◌else◌, ◌+◌}
use a2a_settlement.Int.{ℤ, pos, ◌+ℤ◌}

abbrev pub Table {ℓ} : Type ℓ → Type ℓ
Table V = List (ℕ × V)

module _ {ℓ} {V : Type ℓ} where
  unfoldable pub find : ℕ → Table V → Option V
  find k [] = none
  find k ((j, v) ∷ t) = if j == k then some v else find k t

  unfoldable pub modify : ℕ → (V → V) → Table V → Table V
  modify k f [] = []
  modify k f ((j, v) ∷ t) = if j == k then (j, f v) ∷ t else (j, v) ∷ modify k f t

  unfoldable pub append : ℕ → V → Table V → Table V
  append k v [] = (k, v) ∷ []
  append k v (r ∷ t) = r ∷ append k v t

  -- The keys of the rows that satisfy a condition, in the order of the table.
  unfoldable pub select : (V → Bool) → Table V → List ℕ
  select p [] = []
  select p ((j, v) ∷ t) = if p v then j ∷ select p t else select p t

  -- The sum of an integer over all rows, and of a natural number.
  unfoldable pub total : (V → ℤ) → Table V → ℤ
  total f [] = pos 0
  total f ((_, v) ∷ t) = f v +ℤ total f t

  unfoldable pub count : (V → ℕ) → Table V → ℕ
  count f [] = 0
  count f ((_, v) ∷ t) = f v + count f t
