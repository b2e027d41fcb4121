-- ===== src/Sql/Laws.antt =====
-- The laws of the statements of Sql.antt.
use weasyl.Prelude.{
  ◌+◌, ◌≤◌, ◌≡◌, refl, Bool, true, false, none, some, List, [], ◌∷◌, ◌++◌, arith, ◌||◌,
  if◌then◌else◌,
}
use weasyl.Sql.{exists, first, count, delete, update, insert}

module _ {ℓ} {R : Type ℓ} where
  pub exists-append :
      (p : R → Bool) (xs ys : List R) → exists p (xs ++ ys) ≡ (exists p xs || exists p ys)
  exists-append p [] ys = refl
  exists-append p (x ∷ xs) ys = ground (arith, exists-append p xs ys)

  pub exists-insert :
      (p : R → Bool) (r : R) (rows : List R) → exists p (insert r rows) ≡ (exists p rows || p r)
  exists-insert p r rows = ground (arith, exists-append p rows (r ∷ []))

  -- A new row that stays out does not matter.
  pub exists-insert_no :
      (p : R → Bool) (r : R) (rows : List R)
      → p r ≡ false
      → exists p (insert r rows) ≡ exists p rows
  exists-insert_no p r rows h = ground (arith, exists-insert p r rows)

  pub exists-delete_implied :
      (p q : R → Bool) (rows : List R)
      → ((r : R) → q r ≡ true → p r ≡ true)
      → exists q (delete p rows) ≡ false
  exists-delete_implied p q [] h = refl
  exists-delete_implied p q (r ∷ rows) h = ground (arith, h r, exists-delete_implied p q rows h)

  pub exists-delete_other :
      (p q : R → Bool) (rows : List R)
      → ((r : R) → q r ≡ true → p r ≡ false)
      → exists q (delete p rows) ≡ exists q rows
  exists-delete_other p q [] h = refl
  exists-delete_other p q (r ∷ rows) h = ground (arith, h r, exists-delete_other p q rows h)

  pub exists-delete-false :
      (p q : R → Bool) (rows : List R) → exists q rows ≡ false → exists q (delete p rows) ≡ false
  exists-delete-false p q [] h = refl
  exists-delete-false p q (r ∷ rows) h = ground (arith, exists-delete-false p q rows)

  pub exists-update :
      (p q : R → Bool) (f : R → R) (rows : List R)
      → ((r : R) → p r ≡ true → q (f r) ≡ q r)
      → exists q (update p f rows) ≡ exists q rows
  exists-update p q f [] h = refl
  exists-update p q f (r ∷ rows) h = ground (arith, h r, exists-update p q f rows h)

  pub exists_implied :
      (p q : R → Bool) (rows : List R)
      → ((r : R) → q r ≡ true → p r ≡ true)
      → exists p rows ≡ false
      → exists q rows ≡ false
  exists_implied p q [] h e = refl
  exists_implied p q (r ∷ rows) h e = ground (arith, h r, exists_implied p q rows h)

  pub exists_cong :
      (p q : R → Bool) (rows : List R) → ((r : R) → p r ≡ q r) → exists p rows ≡ exists q rows
  exists_cong p q [] h = refl
  exists_cong p q (r ∷ rows) h = ground (arith, h r, exists_cong p q rows h)

  pub count-append : (p : R → Bool) (xs ys : List R) → count p (xs ++ ys) ≡ count p xs + count p ys
  count-append p [] ys = omega arith
  count-append p (x ∷ xs) ys = ground (arith, count-append p xs ys)

  pub count-insert :
      (p : R → Bool) (r : R) (rows : List R)
      → count p (insert r rows) ≡ count p rows + (if p r then 1 else 0)
  count-insert p r rows = ground (arith, count-append p rows (r ∷ []))

  pub count-exists_no : (p : R → Bool) (rows : List R) → exists p rows ≡ false → count p rows ≡ 0
  count-exists_no p [] h = refl
  count-exists_no p (r ∷ rows) h = ground (arith, count-exists_no p rows)

  pub exists-count_no : (p : R → Bool) (rows : List R) → count p rows ≡ 0 → exists p rows ≡ false
  exists-count_no p [] h = refl
  exists-count_no p (r ∷ rows) h = ground (arith, exists-count_no p rows)

  pub count-delete_le : (p q : R → Bool) (rows : List R) → count q (delete p rows) ≤ count q rows
  count-delete_le p q [] = omega arith
  count-delete_le p q (r ∷ rows) = ground (arith, count-delete_le p q rows)

  pub count-delete_other :
      (p q : R → Bool) (rows : List R)
      → ((r : R) → q r ≡ true → p r ≡ false)
      → count q (delete p rows) ≡ count q rows
  count-delete_other p q [] h = refl
  count-delete_other p q (r ∷ rows) h = ground (arith, h r, count-delete_other p q rows h)

  pub count-delete_implied :
      (p q : R → Bool) (rows : List R)
      → ((r : R) → q r ≡ true → p r ≡ true)
      → count q (delete p rows) ≡ 0
  count-delete_implied p q rows h =
      count-exists_no q (delete p rows) (exists-delete_implied p q rows h)

  pub count-delete_part :
      (p q : R → Bool) (rows : List R)
      → ((r : R) → p r ≡ true → q r ≡ true)
      → count q (delete p rows) + count p rows ≡ count q rows
  count-delete_part p q [] h = refl
  count-delete_part p q (r ∷ rows) h = ground (arith, h r, count-delete_part p q rows h)

  pub count-update :
      (p q : R → Bool) (f : R → R) (rows : List R)
      → ((r : R) → p r ≡ true → q (f r) ≡ q r)
      → count q (update p f rows) ≡ count q rows
  count-update p q f [] h = refl
  count-update p q f (r ∷ rows) h = ground (arith, h r, count-update p q f rows h)

  pub count_mono :
      (p q : R → Bool) (rows : List R)
      → ((r : R) → p r ≡ true → q r ≡ true)
      → count p rows ≤ count q rows
  count_mono p q [] h = omega arith
  count_mono p q (r ∷ rows) h = ground (arith, h r, count_mono p q rows h)

  -- The row that is found meets the condition.
  pub first-found : (p : R → Bool) (rows : List R) (r : R) → first p rows ≡ some r → p r ≡ true
  first-found p [] r e = cc
  first-found p (x ∷ rows) r e = ground (arith, first-found p rows r)

  pub first-none : (p : R → Bool) (rows : List R) → first p rows ≡ none → exists p rows ≡ false
  first-none p [] e = refl
  first-none p (x ∷ rows) e = ground (arith, first-none p rows)

  pub first-exists :
      (p : R → Bool) (rows : List R) (r : R) → first p rows ≡ some r → exists p rows ≡ true
  first-exists p [] r e = cc
  first-exists p (x ∷ rows) r e = ground (arith, first-exists p rows r)

  -- What `first` finds in a table that has been written.
  pub first-insert :
      (p : R → Bool) (r : R) (rows : List R)
      → first p (insert r rows)
        ≡ (elim (first p rows) [ none ↦ if p r then some r else none | some x ↦ some x ])
  first-insert p r [] = refl
  first-insert p r (x ∷ rows) = ground (arith, first-insert p r rows)

  pub first-insert_no :
      (p : R → Bool) (r : R) (rows : List R) → p r ≡ false → first p (insert r rows) ≡ first p rows
  first-insert_no p r [] h = rw h
  first-insert_no p r (x ∷ rows) h = ground (arith, first-insert_no p r rows)

  pub first-update :
      (p : R → Bool) (f : R → R) (rows : List R) (r : R)
      → first p rows ≡ some r
      → p (f r) ≡ true
      → first p (update p f rows) ≡ some (f r)
  first-update p f [] r e h = cc
  first-update p f (x ∷ rows) r e h = ground (arith, first-update p f rows r)

  pub first-update_other :
      (p q : R → Bool) (f : R → R) (rows : List R)
      → ((r : R) → p r ≡ true → (q r ≡ false) × (q (f r) ≡ false))
      → first q (update p f rows) ≡ first q rows
  first-update_other p q f [] h = refl
  first-update_other p q f (x ∷ rows) h = ground (arith, h x, first-update_other p q f rows h)

  pub first-delete_other :
      (p q : R → Bool) (rows : List R)
      → ((r : R) → q r ≡ true → p r ≡ false)
      → first q (delete p rows) ≡ first q rows
  first-delete_other p q [] h = refl
  first-delete_other p q (x ∷ rows) h = ground (arith, h x, first-delete_other p q rows h)

  pub first-exists_no : (p : R → Bool) (rows : List R) → exists p rows ≡ false → first p rows ≡ none
  first-exists_no p [] h = refl
  first-exists_no p (x ∷ rows) h = ground (arith, first-exists_no p rows)
