-- ===== src/Sql/Rows.antt =====
-- The rows that a statement of Sql.antt leaves as they are.
use weasyl.Prelude.{◌≡◌, refl, Bool, true, false, List, [], ◌∷◌, arith}
use weasyl.Sql.{select, delete, update, insert, insert_new}

module _ {ℓ} {R : Type ℓ} where
  pub select-insert_no :
      (p : R → Bool) (r : R) (rows : List R)
      → p r ≡ false
      → select p (insert r rows) ≡ select p rows
  select-insert_no p r [] h = rw h
  select-insert_no p r (x ∷ rows) h = ground (arith, select-insert_no p r rows)

  pub select-delete_other :
      (p q : R → Bool) (rows : List R)
      → ((r : R) → q r ≡ true → p r ≡ false)
      → select q (delete p rows) ≡ select q rows
  select-delete_other p q [] h = refl
  select-delete_other p q (r ∷ rows) h = ground (arith, h r, select-delete_other p q rows h)

  pub select-update_other :
      (p q : R → Bool) (f : R → R) (rows : List R)
      → ((r : R) → p r ≡ true → (q r ≡ false) × (q (f r) ≡ false))
      → select q (update p f rows) ≡ select q rows
  select-update_other p q f [] h = refl
  select-update_other p q f (r ∷ rows) h = ground (arith, h r, select-update_other p q f rows h)

  pub select-insert_new :
      (p q : R → Bool) (r : R) (rows : List R)
      → q r ≡ false
      → select q (insert_new p r rows) ≡ select q rows
  select-insert_new p q r rows h = ground (arith, select-insert_no q r rows)
