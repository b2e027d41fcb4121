-- ===== src/Sql/All.antt =====
-- What holds of all rows of a table, and of one.
use weasyl.Prelude.{
  ◌≤◌, ◌≡◌, refl, Bool, true, false, not, ◌&&◌, ◌||◌, some, List, [], ◌∷◌, arith, all,
  if◌then◌else◌,
}
use weasyl.Sql.{exists, first, count, delete, update, insert}
use weasyl.Sql.Laws.{exists-count_no, exists_implied}

module _ {ℓ} {R : Type ℓ} where
  pub all_and :
      (p q : R → Bool) (rows : List R)
      → all p rows ≡ true
      → all q rows ≡ true
      → all (λ r. p r && q r) rows ≡ true
  all_and p q [] hp hq = refl
  all_and p q (r ∷ rows) hp hq = ground (arith, all_and p q rows)

  pub all_none :
      (p : R → Bool) (rows : List R) → exists p rows ≡ false → all (λ r. not (p r)) rows ≡ true
  all_none p [] h = refl
  all_none p (r ∷ rows) h = ground (arith, all_none p rows)

  pub all_implied :
      (p q : R → Bool) (rows : List R)
      → ((r : R) → p r ≡ true → q r ≡ true)
      → all p rows ≡ true
      → all q rows ≡ true
  all_implied p q [] h hp = refl
  all_implied p q (r ∷ rows) h hp = ground (arith, h r, all_implied p q rows h)

  -- The rows that are updated meet the new condition where each row does.
  pub all-update :
      (p q : R → Bool) (test : R → Bool) (f : R → R) (rows : List R)
      → ((r : R) → p r ≡ true → q (if test r then f r else r) ≡ true)
      → all p rows ≡ true
      → all q (update test f rows) ≡ true
  all-update p q test f [] h hp = refl
  all-update p q test f (r ∷ rows) h hp = ground (arith, h r, all-update p q test f rows h)

  pub all-insert :
      (p : R → Bool) (r : R) (rows : List R)
      → all p rows ≡ true
      → p r ≡ true
      → all p (insert r rows) ≡ true
  all-insert p r [] h hr = ground arith
  all-insert p r (x ∷ rows) h hr = ground (arith, all-insert p r rows)

  -- Where at most one row meets a condition, what holds of one holds of all of them.
  pub all_unique :
      (p q : R → Bool) (rows : List R)
      → count p rows ≤ 1
      → exists (λ r. p r && q r) rows ≡ true
      → all (λ r. not (p r) || q r) rows ≡ true
  all_unique p q [] h e = refl
  all_unique p q (r ∷ rows) h e =
      ground (arith, all_unique p q rows, rest_empty rows, both_empty rows)
    where
      vacuous : (rows : List R) → exists p rows ≡ false → all (λ r. not (p r) || q r) rows ≡ true
      vacuous [] e = refl
      vacuous (r ∷ rows) e = ground (arith, vacuous rows)

      rest_empty : (rows : List R) → count p rows ≡ 0 → all (λ r. not (p r) || q r) rows ≡ true
      rest_empty rows e = vacuous rows (exists-count_no p rows e)

      both_empty : (rows : List R) → count p rows ≡ 0 → exists (λ r. p r && q r) rows ≡ false
      both_empty rows e =
          exists_implied p (λ r. p r && q r) rows (λ r h. ground arith) (exists-count_no p rows e)

  pub exists_mono :
      (p q : R → Bool) (rows : List R)
      → ((r : R) → p r ≡ true → q r ≡ true)
      → exists p rows ≡ true
      → exists q rows ≡ true
  exists_mono p q [] h e = cc
  exists_mono p q (r ∷ rows) h e = ground (arith, h r, exists_mono p q rows h)

  pub exists-first :
      (p q : R → Bool) (rows : List R) (r : R)
      → first p rows ≡ some r
      → q r ≡ true
      → exists (λ r. p r && q r) rows ≡ true
  exists-first p q [] r e h = cc
  exists-first p q (x ∷ rows) r e h = ground (arith, exists-first p q rows r)

  pub exists-update_kept :
      (p q : R → Bool) (f : R → R) (rows : List R)
      → ((r : R) → q r ≡ true → p r ≡ false)
      → exists q rows ≡ true
      → exists q (update p f rows) ≡ true
  exists-update_kept p q f [] h e = cc
  exists-update_kept p q f (r ∷ rows) h e = ground (arith, h r, exists-update_kept p q f rows h)

  pub all-delete :
      (p q : R → Bool) (rows : List R) → all p rows ≡ true → all p (delete q rows) ≡ true
  all-delete p q [] h = refl
  all-delete p q (r ∷ rows) h = ground (arith, all-delete p q rows)

  pub all-first :
      (p q : R → Bool) (rows : List R) (r : R)
      → all p rows ≡ true
      → first q rows ≡ some r
      → p r ≡ true
  all-first p q [] r h e = cc
  all-first p q (x ∷ rows) r h e = ground (arith, all-first p q rows r)
