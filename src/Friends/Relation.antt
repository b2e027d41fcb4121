-- ===== src/Friends/Relation.antt =====
-- The operations of weasyl/frienduser.py as moves of the relation between two users.
use weasyl.Prelude.{
  ℕ, ◌≤◌, ◌≡◌, ◌≢◌, refl, ap, inl, inr, true, false, none, some, List, arith, ◌==◌, if◌then◌else◌,
  Option-cases,
}
use weasyl.Sql.{exists, first, count}
use weasyl.Sql.Laws.{
  first-insert, first-insert_no, first-update, first-update_other, first-found, exists_implied,
  exists-insert_no, exists-update, count-insert, count-update, count-exists_no, first-none,
}
use weasyl.Database.{FriendRow, pending}
use weasyl.Friends.{is_between, is_pending, upsert, upsert_on, accept}
use weasyl.Friends.Index.{in_conflict-is_between}

-- What a user is to another.
pub data Relation : Type 0 where
  strangers sent received friends : Relation

abbrev pub row_relation : ℕ → FriendRow → Relation
row_relation a row =
    if is_pending row.settings then if row.userid == a then sent else received else friends

-- The relation of the first user to the second that the table holds.
abbrev pub relation : ℕ → ℕ → List FriendRow → Relation
relation a b rows = elim (first (is_between a b) rows) [
  | none ↦ strangers
  | some row ↦ row_relation a row
]

-- The specification of a friend request.
abbrev pub requested : Relation → Relation
requested strangers = sent
requested sent = sent
requested received = friends
requested friends = friends

-- The specification of taking a friend request back.
abbrev pub unrequested : Relation → Relation
unrequested sent = strangers
unrequested r = r

-- Between any two users there is at most one row, whichever way it points.
abbrev pub IsUnique : List FriendRow → Type 0
IsUnique rows = (a b : ℕ) → count (is_between a b) rows ≤ 1

module _ (u o : ℕ) (rows : List FriendRow) where
  pub upsert_by : upsert u o rows ≡ upsert_on (is_between u o) u o rows
  unfolding upsert
  upsert_by = ap (λ p. upsert_on p u o rows) (in_conflict-is_between u o)

  abbrev pub new_row : FriendRow
  new_row = record { userid = u; otherid = o; settings = pending }

  -- A request moves the relation of the two users as specified.
  pub relation-upsert : u ≢ o → relation u o (upsert u o rows).1 ≡ requested (relation u o rows)
  unfolding upsert_on
  relation-upsert ne = rw upsert_by (elim (Option-cases (first (is_between u o) rows)) [
    | inl e ↦ ground (arith, first-insert (is_between u o) new_row rows)
    | inr (fu, e) ↦ ground (
      arith,
      first-found (is_between u o) rows fu e,
      first-update (is_between u o) accept rows fu,
    )
  ])

  -- It leaves every other pair as it was.
  pub relation-upsert_other :
      (a b : ℕ)
      → ((r : FriendRow) → is_between u o r ≡ true → is_between a b r ≡ false)
      → relation a b (upsert u o rows).1 ≡ relation a b rows
  unfolding upsert_on
  relation-upsert_other a b apart =
      rw upsert_by (elim (Option-cases (first (is_between u o) rows)) [
        | inl e ↦ ground (arith, first-insert_no (is_between a b) new_row rows, apart new_row)
        | inr (fu, e) ↦ ground (
          arith,
          first-update_other (is_between u o) (is_between a b) accept rows
              (λ r h. (apart r h, apart (accept r) h)),
        )
      ])

  -- A request keeps the rows unique.
  pub upsert-IsUnique : IsUnique rows → IsUnique (upsert u o rows).1
  unfolding upsert_on
  upsert-IsUnique unique = rw upsert_by λ a b. elim (Option-cases (first (is_between u o) rows)) [
    | inl e ↦ ground (
      arith,
      unique a b,
      count-insert (is_between a b) new_row rows,
      count-exists_no (is_between a b) rows,
      no_row a b (first-none (is_between u o) rows e),
    )
    | inr (fu, e) ↦ ground (
      arith,
      unique a b,
      count-update (is_between u o) (is_between a b) accept rows (λ r h. refl),
    )
  ]
    where
      no_row :
          (a b : ℕ)
          → exists (is_between u o) rows ≡ false
          → is_between a b new_row ≡ true
          → exists (is_between a b) rows ≡ false
      no_row a b h k = exists_implied (is_between u o) (is_between a b) rows (λ r m. ground arith) h

  -- It adds no row but the one between the two.
  pub upsert-exists_no :
      (a b : ℕ)
      → exists (is_between a b) rows ≡ false
      → is_between a b new_row ≡ false
      → exists (is_between a b) (upsert u o rows).1 ≡ false
  unfolding upsert_on
  upsert-exists_no a b h k = rw upsert_by (elim (Option-cases (first (is_between u o) rows)) [
    | inl e ↦ ground (arith, exists-insert_no (is_between a b) new_row rows)
    | inr (fu, e) ↦
        ground (arith, exists-update (is_between u o) (is_between a b) accept rows (λ r m. refl))
  ])
