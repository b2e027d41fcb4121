-- ===== src/Sql/Counts.antt =====
-- How many rows meet a condition after an update that changes it, and after one row is deleted.
use weasyl.Prelude.{
  ◌+◌, ◌≤◌, ◌≡◌, refl, Bool, true, false, not, ◌&&◌, some, List, [], ◌∷◌, arith, if◌then◌else◌,
}
use weasyl.Sql.{first, count, delete, update}
use weasyl.Sql.Laws.{count-delete_le}

module _ {ℓ} {R : Type ℓ} where
  pub count-update_gain :
      (p q : R → Bool) (f : R → R) (rows : List R)
      → ((r : R) → p r ≡ true → (q r ≡ false) × (q (f r) ≡ true))
      → count q (update p f rows) ≡ count q rows + count p rows
  count-update_gain p q f [] h = refl
  count-update_gain p q f (r ∷ rows) h = ground (arith, h r, count-update_gain p q f rows h)

  pub count-update_loss :
      (p q : R → Bool) (f : R → R) (rows : List R)
      → ((r : R) → p r ≡ true → (q r ≡ true) × (q (f r) ≡ false))
      → count q (update p f rows) + count p rows ≡ count q rows
  count-update_loss p q f [] h = refl
  count-update_loss p q f (r ∷ rows) h = ground (arith, h r, count-update_loss p q f rows h)

  -- An update that makes no row meet a condition.
  pub count-update_le :
      (p q : R → Bool) (f : R → R) (rows : List R)
      → ((r : R) → p r ≡ true → q (f r) ≡ false)
      → count q (update p f rows) ≤ count q rows
  count-update_le p q f [] h = omega arith
  count-update_le p q f (r ∷ rows) h = ground (arith, h r, count-update_le p q f rows h)

  -- The row that is found is among those that are deleted.
  pub count-delete-first :
      (p q : R → Bool) (rows : List R) (r : R)
      → first p rows ≡ some r
      → count q (delete p rows) + (if q r then 1 else 0) ≤ count q rows
  count-delete-first p q [] r e = cc
  count-delete-first p q (x ∷ rows) r e =
      ground (arith, count-delete_le p q rows, count-delete-first p q rows r)

  -- Two conditions that exclude each other, within a third.
  pub count_disjoint :
      (p q t : R → Bool) (rows : List R)
      → ((r : R) → p r ≡ true → (q r ≡ false) × (t r ≡ true))
      → ((r : R) → q r ≡ true → t r ≡ true)
      → count p rows + count q rows ≤ count t rows
  count_disjoint p q t [] h k = omega arith
  count_disjoint p q t (r ∷ rows) h k = ground (arith, h r, k r, count_disjoint p q t rows h k)

  -- The rows with a condition, by a second condition.
  pub count_split :
      (p q : R → Bool) (rows : List R)
      → count p rows ≡ count (λ r. p r && q r) rows + count (λ r. p r && not (q r)) rows
  count_split p q [] = refl
  count_split p q (r ∷ rows) = ground (arith, count_split p q rows)
