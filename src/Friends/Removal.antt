-- ===== src/Friends/Removal.antt =====
-- Ending friendships and taking requests back (weasyl/frienduser.py).
use weasyl.Prelude.{
  ℕ, ◌≤◌, ◌≡◌, ◌≢◌, refl, ◌⊎◌, inl, inr, Bool, true, false, none, some, List, [], ◌∷◌, arith,
  Bool-cases, Option-cases,
}
use weasyl.Sql.{first, count, delete, select}
use weasyl.Sql.Laws.{first-exists_no, exists-delete_implied, exists-count_no}
use weasyl.Database.{FriendRow, Db, ok, err, Fault, multiple_results}
use weasyl.Database.Retry.{gets_through, serializable_retry_lem}
use weasyl.Welcome.{frienduserrequest_remove, frienduseraccept_remove}
use weasyl.Friends.{
  is_between, is_request, remove, remove_transaction, after_remove, remove_request,
  remove_request_transaction,
}
use weasyl.Friends.Relation.{strangers, relation, unrequested, IsUnique}

-- What `.one_or_none()` sees of a table with at most one row.
select-first :
    (p : FriendRow → Bool) (rows : List FriendRow)
    → count p rows ≤ 1
    → select p rows ≡ (elim (first p rows) [ none ↦ [] | some row ↦ row ∷ [] ])
select-first p [] h = refl
select-first p (r ∷ rows) h = ground (arith, select-first p rows, empty rows)
  where
    empty : (rows : List FriendRow) → count p rows ≡ 0 → select p rows ≡ []
    empty [] e = refl
    empty (r ∷ rows) e = ground (arith, empty rows)

relation-delete :
    (u o : ℕ) (rows : List FriendRow) → relation u o (delete (is_between u o) rows) ≡ strangers
relation-delete u o rows =
    let gone =
      first-exists_no (is_between u o) (delete (is_between u o) rows)
        (exists-delete_implied (is_between u o) (is_between u o) rows (λ r h. h)) in
    ground (arith, gone)

remove_transaction_lem :
    (u o : ℕ) (db : Db)
    → IsUnique db.friends
    → let (r, db') = remove_transaction u o db in
      (r ≡ ok tt) × (db'.friends ≡ delete (is_between u o) db.friends)
unfolding remove_transaction frienduserrequest_remove frienduseraccept_remove
remove_transaction_lem u o db unique =
    let one = select-first (is_between u o) db.friends (unique u o) in
    elim (Option-cases (first (is_between u o) db.friends)) [
      | inl e ↦ (ground (arith, one), ground (arith, one))
      | inr (row, e) ↦ (ground (arith, one), ground (arith, one))
    ]

-- Removing a friendship or a request, by either of the two, succeeds whenever the database lets an
-- attempt through, and leaves them strangers; otherwise it raises and the state is as before. That
-- every two users share at most one row is needed, so that `one_or_none` never raises.
pub remove_lem :
    (faults : List Fault) (u o : ℕ) (db : Db)
    → IsUnique db.friends
    → let (r, db') = remove faults u o db in
      ((gets_through faults ≡ true)
        × (r ≡ ok tt)
        × (relation u o db'.friends ≡ strangers)
        × (db'.friends ≡ delete (is_between u o) db.friends))
      ⊎ ((gets_through faults ≡ false) × (r ≢ ok tt) × (db' ≡ db))
unfolding remove
remove_lem faults u o db unique =
    let retried = serializable_retry_lem faults (remove_transaction u o) db in
    let (returns, rows) = remove_transaction_lem u o db unique in
    let gone = relation-delete u o db.friends in
    elim (Bool-cases (gets_through faults)) [
      | inl h ↦ inl (
        h,
        ground (arith, retried, returns),
        ground (arith, retried, returns, rows, gone),
        ground (arith, retried, returns, rows),
      )
      | inr h ↦ inr (h, ground (arith, retried), ground (arith, retried))
    ]

relation-unrequest :
    (u o : ℕ) (rows : List FriendRow)
    → IsUnique rows
    → u ≢ o
    → relation u o (delete (is_request u o) rows) ≡ unrequested (relation u o rows)
relation-unrequest u o rows unique ne = go rows (unique u o)
  where
    go :
        (rows : List FriendRow)
        → count (is_between u o) rows ≤ 1
        → relation u o (delete (is_request u o) rows) ≡ unrequested (relation u o rows)
    go [] h = refl
    go (r ∷ rows) h = ground (
      arith,
      go rows,
      first-exists_no (is_between u o) rows,
      exists-count_no (is_between u o) rows,
    )

-- Where every two users share at most one row, taking a request back makes strangers of two
-- different users whose request is pending in that direction. It changes nothing between them if
-- the request was accepted, goes the other way, or is not there. It raises only when the database
-- lets no attempt through, and then nothing is changed.
pub remove_request_lem :
    (faults : List Fault) (u o : ℕ) (db : Db)
    → IsUnique db.friends
    → u ≢ o
    → let (r, db') = remove_request faults u o db in
      ((gets_through faults ≡ true)
        × (r ≡ ok tt)
        × (relation u o db'.friends ≡ unrequested (relation u o db.friends)))
      ⊎ ((gets_through faults ≡ false) × (r ≢ ok tt) × (db' ≡ db))
unfolding remove_request remove_request_transaction frienduserrequest_remove
remove_request_lem faults u o db unique ne =
    let retried = serializable_retry_lem faults (remove_request_transaction u o) db in
    let moved = relation-unrequest u o db.friends unique ne in
    elim (Bool-cases (gets_through faults)) [
      | inl h ↦ inl (h, ground (arith, retried), ground (arith, retried, moved))
      | inr h ↦ inr (h, ground (arith, retried), ground (arith, retried))
    ]

after_remove_outcome :
    (rows : List FriendRow) (db : Db)
    → ((after_remove rows db).0 ≡ err multiple_results)
      ⊎ (((after_remove rows db).0 ≡ ok tt)
          × ((after_remove rows db).1.friends ≡ db.friends)
          × ((after_remove rows db).1.ignores ≡ db.ignores)
          × ((after_remove rows db).1.watches ≡ db.watches))
unfolding after_remove
after_remove_outcome [] db = inr (refl, refl, refl, refl)
after_remove_outcome (row ∷ []) db = inr (refl, ground arith, ground arith, ground arith)
after_remove_outcome (row ∷ other ∷ rows) db = inl refl

remove_transaction_outcome :
    (u o : ℕ) (db : Db)
    → let (r, db') = remove_transaction u o db in
      (r ≡ err multiple_results)
      ⊎ ((r ≡ ok tt)
          × (db'.friends ≡ delete (is_between u o) db.friends)
          × (db'.ignores ≡ db.ignores)
          × (db'.watches ≡ db.watches))
unfolding remove_transaction
remove_transaction_outcome u o db =
    after_remove_outcome (select (is_between u o) db.friends)
      (record db { friends = delete (is_between u o) db.friends })

-- A removal changes nothing, or it deletes rows between the two and writes neither ignores nor
-- watches.
pub remove_outcome :
    (faults : List Fault) (u o : ℕ) (db : Db)
    → let db' = (remove faults u o db).1 in
      (db' ≡ db)
      ⊎ ((db'.friends ≡ delete (is_between u o) db.friends)
          × (db'.ignores ≡ db.ignores)
          × (db'.watches ≡ db.watches))
unfolding remove
remove_outcome faults u o db =
    let retried = serializable_retry_lem faults (remove_transaction u o) db in
    elim (Bool-cases (gets_through faults)) [
      | inl h ↦ elim (remove_transaction_outcome u o db) [
        | inl same ↦ inl (ground (arith, retried, same))
        | inr (r, rows, ignores, watches) ↦
            inr (ground (arith, retried), ground (arith, retried), ground (arith, retried))
      ]
      | inr h ↦ inl (ground (arith, retried))
    ]

pub remove_request_outcome :
    (faults : List Fault) (u o : ℕ) (db : Db)
    → let db' = (remove_request faults u o db).1 in
      (db' ≡ db)
      ⊎ ((db'.friends ≡ delete (is_request u o) db.friends)
          × (db'.ignores ≡ db.ignores)
          × (db'.watches ≡ db.watches))
unfolding remove_request remove_request_transaction frienduserrequest_remove
remove_request_outcome faults u o db =
    let retried = serializable_retry_lem faults (remove_request_transaction u o) db in
    elim (Bool-cases (gets_through faults)) [
      | inl h ↦ inr (ground (arith, retried), ground (arith, retried), ground (arith, retried))
      | inr h ↦ inl (ground (arith, retried))
    ]
