-- ===== src/Favorites/Count.antt =====
-- weasyl/favorite.py: the counter `submission.favorites` against the rows of `favorite`.
use weasyl.Prelude.{
  ℕ, ◌≤◌, ◌≡◌, refl, Bool, true, false, ◌&&◌, List, [], ◌∷◌, arith, All, ◌==◌, Bool-cases, inl, inr,
  if◌then◌else◌,
}
use weasyl.Prelude.Int.{pos}
use weasyl.Sql.{exists, count, delete, update, insert}
use weasyl.Sql.Laws.{
  count-insert, count-delete_part, count-delete_other, count-delete_le, count-exists_no,
  exists_implied,
}
use weasyl.Database.{FavoriteType, submit, char, journal, FavoriteRow, Submission, Db}
use weasyl.Favorites.{
  same_type, is_favorite, is_target, count_up, count_down, add_favorite, drop_favorite,
}

-- A favorite of the submission.
abbrev pub favors : ℕ → FavoriteRow → Bool
favors submitid row = row.targetid == submitid && same_type row.type submit

abbrev pub CountedBy : List FavoriteRow → Submission → Type 0
CountedBy rows s = s.favorites ≡ pos (count (favors s.submitid) rows)

-- The counter of every submission is the number of its favorites.
abbrev pub IsCounted : Db → Type 0
IsCounted db = All (CountedBy db.favorites) db.submissions

-- The primary key of `favorite`.
abbrev pub IsKeyed : List FavoriteRow → Type 0
IsKeyed rows = (u : ℕ) (type : FavoriteType) (t : ℕ) → count (is_favorite u type t) rows ≤ 1

same_type-eq : (x y : FavoriteType) → same_type x y ≡ true → x ≡ y
same_type-eq submit submit h = refl
same_type-eq char char h = refl
same_type-eq journal journal h = refl
same_type-eq submit char h = cc
same_type-eq submit journal h = cc
same_type-eq char submit h = cc
same_type-eq char journal h = cc
same_type-eq journal submit h = cc
same_type-eq journal char h = cc

pub same_type_refl : (x : FavoriteType) → same_type x x ≡ true
same_type_refl submit = refl
same_type_refl char = refl
same_type_refl journal = refl

count-exists_yes {ℓ} :
    {R : Type ℓ} (p : R → Bool) (rows : List R) → exists p rows ≡ true → 1 ≤ count p rows
count-exists_yes p [] h = cc
count-exists_yes p (r ∷ rows) h = ground (arith, count-exists_yes p rows)

-- The rows of `submission` that a statement counts up or down are those of the favorite.
target-favors :
    (type : FavoriteType) (row : FavoriteRow) (s : Submission)
    → row.type ≡ type
    → is_target type row.targetid s ≡ favors s.submitid row
target-favors submit row s e = rw e (ground arith)
target-favors char row s e = rw e (ground arith)
target-favors journal row s e = rw e (ground arith)

module _ (row : FavoriteRow) (rows : List FavoriteRow) where
  counted_up :
      (s : Submission)
      → CountedBy rows s
      → CountedBy (insert row rows) (if is_target row.type row.targetid s then count_up s else s)
  counted_up s e = elim (Bool-cases (favors s.submitid row)) [
    | inl y ↦
        rw (target-favors row.type row s refl, y, e, count-insert (favors s.submitid) row rows, y)
          (ground arith)
    | inr n ↦
        rw (target-favors row.type row s refl, n, e, count-insert (favors s.submitid) row rows, n)
          (ground arith)
  ]

counted_down :
    (u : ℕ) (type : FavoriteType) (t : ℕ) (rows : List FavoriteRow) (s : Submission)
    → count (is_favorite u type t) rows ≡ 1
    → CountedBy rows s
    → CountedBy
        (delete (is_favorite u type t) rows)
        (if is_target type t s then count_down s else s)
counted_down u submit t rows s one e = elim (Bool-cases (s.submitid == t)) [
  | inl y ↦
      let part =
        count-delete_part (is_favorite u submit t) (favors s.submitid) rows (λ r h. ground arith) in
      rw (y, e) (ground (arith, part))
  | inr n ↦
      rw
        (
          n,
          e,
          count-delete_other (is_favorite u submit t) (favors s.submitid) rows
              (λ r h. ground arith),
        )
        refl
]
counted_down u char t rows s one e =
    rw
      (
        e,
        count-delete_other (is_favorite u char t) (favors s.submitid) rows
            (λ r h. ground (arith, same_type-eq r.type submit)),
      )
      refl
counted_down u journal t rows s one e =
    rw
      (
        e,
        count-delete_other (is_favorite u journal t) (favors s.submitid) rows
            (λ r h. ground (arith, same_type-eq r.type submit)),
      )
      refl

All-updated :
    (p : Submission → Bool) (f : Submission → Submission) (rows rows' : List FavoriteRow)
    (subs : List Submission)
    → ((s : Submission) → CountedBy rows s → CountedBy rows' (if p s then f s else s))
    → All (CountedBy rows) subs
    → All (CountedBy rows') (update p f subs)
All-updated p f rows rows' [] step h = tt
All-updated p f rows rows' (s ∷ subs) step (e, h) =
    (step s e, All-updated p f rows rows' subs step h)

pub add_favorite-IsCounted :
    (u : ℕ) (type : FavoriteType) (t : ℕ) (db : Db)
    → IsCounted db
    → IsCounted (add_favorite u type t db)
add_favorite-IsCounted u type t db h =
    let row : FavoriteRow = record { userid = u; targetid = t; type = type; unixtime = db.now } in
    All-updated (is_target type t) count_up db.favorites (insert row db.favorites) db.submissions
      (counted_up row db.favorites) h

pub drop_favorite-IsCounted :
    (u : ℕ) (type : FavoriteType) (t : ℕ) (db : Db)
    → IsKeyed db.favorites
    → exists (is_favorite u type t) db.favorites ≡ true
    → IsCounted db
    → IsCounted (drop_favorite u type t db)
drop_favorite-IsCounted u type t db keyed found h =
    let one : count (is_favorite u type t) db.favorites ≡ 1 =
      omega (arith, keyed u type t, count-exists_yes (is_favorite u type t) db.favorites found) in
    All-updated (is_target type t) count_down db.favorites
      (delete (is_favorite u type t) db.favorites) db.submissions
      (λ s. counted_down u type t db.favorites s one) h

pub add_favorite-IsKeyed :
    (u : ℕ) (type : FavoriteType) (t : ℕ) (db : Db)
    → exists (is_favorite u type t) db.favorites ≡ false
    → IsKeyed db.favorites
    → IsKeyed (add_favorite u type t db).favorites
add_favorite-IsKeyed u type t db new keyed a kind b =
    let row : FavoriteRow = record { userid = u; targetid = t; type = type; unixtime = db.now } in
    let grown = count-insert (is_favorite a kind b) row db.favorites in
    elim (Bool-cases (is_favorite a kind b row)) [
      | inl y ↦
          let none_yet =
            exists_implied (is_favorite u type t) (is_favorite a kind b) db.favorites
              (λ r h. rw (same_type-eq type kind (ground arith)) (ground arith)) new in
          rw (grown, y)
            (omega (arith, count-exists_no (is_favorite a kind b) db.favorites none_yet))
      | inr n ↦ rw (grown, n) (omega (arith, keyed a kind b))
    ]

pub drop_favorite-IsKeyed :
    (u : ℕ) (type : FavoriteType) (t : ℕ) (db : Db)
    → IsKeyed db.favorites
    → IsKeyed (drop_favorite u type t db).favorites
drop_favorite-IsKeyed u type t db keyed a kind b = omega (
  arith,
  keyed a kind b,
  count-delete_le (is_favorite u type t) (is_favorite a kind b) db.favorites,
)
