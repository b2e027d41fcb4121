-- ===== src/Sql.antt =====
-- What the program's SQL statements do to a table: a list of rows, oldest first. A `WHERE` clause
-- is a Boolean function of a row.
pub mod Laws
pub mod Rows
pub mod All
pub mod Counts
use weasyl.Prelude.{
  ℕ, suc, Bool, true, false, Option, none, some, List, [], ◌∷◌, ◌++◌, if◌then◌else◌, ◌==◌, ◌||◌,
  any, map,
}

module _ {ℓ} {R : Type ℓ} where
  -- `SELECT EXISTS (SELECT FROM rows WHERE p)`
  abbrev pub exists : (R → Bool) → List R → Bool
  exists = any

  -- `SELECT … WHERE p`
  abbrev pub select : (R → Bool) → List R → List R
  select p [] = []
  select p (r ∷ rows) = if p r then r ∷ select p rows else select p rows

  -- `.first()`, and `engine.scalar`, which read the first row.
  abbrev pub first : (R → Bool) → List R → Option R
  first p [] = none
  first p (r ∷ rows) = if p r then some r else first p rows

  -- `SELECT count(*) … WHERE p`, and the row count of an `UPDATE` or `DELETE` with that clause.
  abbrev pub count : (R → Bool) → List R → ℕ
  count p [] = 0
  count p (r ∷ rows) = let rest = count p rows in if p r then suc rest else rest

  -- `DELETE … WHERE p`
  abbrev pub delete : (R → Bool) → List R → List R
  delete p [] = []
  delete p (r ∷ rows) = if p r then delete p rows else r ∷ delete p rows

  -- `UPDATE … SET … WHERE p`
  abbrev pub update : (R → Bool) → (R → R) → List R → List R
  update p f [] = []
  update p f (r ∷ rows) = (if p r then f r else r) ∷ update p f rows

  -- `INSERT … VALUES …`
  abbrev pub insert : R → List R → List R
  insert r rows = rows ++ r ∷ []

  -- `INSERT … ON CONFLICT DO NOTHING`, with the test for a row in conflict.
  abbrev pub insert_new : (R → Bool) → R → List R → List R
  insert_new conflict r rows = if exists conflict rows then rows else insert r rows

-- `x = ANY (xs)`, `x IN (xs)`
abbrev pub elem : ℕ → List ℕ → Bool
elem x xs = any (λ y. x == y) xs
