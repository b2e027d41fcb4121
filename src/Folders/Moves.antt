-- ===== src/Folders/Moves.antt =====
-- Moving folders of weasyl/folder.py keeps the gallery's shape.
use weasyl.Prelude.{
  ℕ, ◌≡◌, Bool, true, false, not, ◌&&◌, ◌||◌, some, List, arith, ◌==◌, all, Bool-cases,
  Option-cases, inl, inr,
}
use weasyl.Sql.{exists, first, update}
use weasyl.Database.{FolderRow, Db, ok, Result-cases}
use weasyl.Folders.{has_id, is_hidden, is_child, set_parent, move, check_parent}
use weasyl.Prelude.Strings.{same}
use weasyl.Sql.All.{all_none, all_implied, all_unique, exists-first}
use weasyl.Folders.Tree.{IsTree}
use weasyl.Folders.Writes.{set_parent-IsTree, childless, is_top}
use weasyl.Folders.Steps.{same-IsTree, any_row, all-any_row}

check_parent-state :
    (userid : ℕ) (folder : FolderRow) (parentid : ℕ) (db : Db)
    → (check_parent userid folder parentid db).1 ≡ db
unfolding check_parent
check_parent-state userid folder parentid db = elim (Bool-cases (parentid == 0)) [
  | inl root ↦ ground arith
  | inr inside ↦ elim (Option-cases (first (has_id parentid) db.folders)) [
    | inl absent ↦ ground arith
    | inr (parent, found) ↦ ground (arith, found)
  ]
]

-- A parent that `move` accepts is a top folder of the user, or the root.
check_parent-top :
    (userid : ℕ) (folder : FolderRow) (parentid : ℕ) (db : Db)
    → (check_parent userid folder parentid db).0 ≡ ok tt
    → (parentid == 0) || exists (is_top userid parentid) db.folders ≡ true
unfolding check_parent
check_parent-top userid folder parentid db h = elim (Bool-cases (parentid == 0)) [
  | inl root ↦ ground arith
  | inr inside ↦ elim (Option-cases (first (has_id parentid) db.folders)) [
    | inl absent ↦ absurd (ground arith)
    | inr (parent, found) ↦ ground (
      arith,
      exists-first (has_id parentid) (λ p. p.userid == userid && p.parentid == 0) db.folders parent
          found (ground (arith, found)),
    )
  ]
]

abbrev visible_child : ℕ → FolderRow → Bool
visible_child folderid f = is_child folderid f && not (is_hidden f)

no_child-childless :
    (folderid : ℕ) (rows : List FolderRow)
    → not (folderid == 0) && exists (visible_child folderid) rows ≡ false
    → all (childless folderid) rows ≡ true
no_child-childless folderid rows h = elim (Bool-cases (folderid == 0)) [
  | inl root ↦
      all_implied any_row (childless folderid) rows (λ r m. ground arith) (all-any_row rows)
  | inr inside ↦
      all_implied (λ r. not (visible_child folderid r)) (childless folderid) rows
        (λ r m. ground arith) (all_none (visible_child folderid) rows (ground arith))
]

abbrev is_taken : ℕ → ℕ → FolderRow → FolderRow → Bool
is_taken userid parentid folder f =
    is_child parentid f && (f.userid == userid && same folder.title f.title)

-- The guards of `move` beside the check of the parent.
abbrev may_move : ℕ → ℕ → ℕ → FolderRow → List FolderRow → Bool
may_move userid folderid parentid folder rows =
    not (folderid == parentid)
    && (userid == folder.userid
        && (not (not (folderid == 0) && exists (visible_child folderid) rows)
            && not (exists (is_taken userid parentid folder) rows)))

move_found-IsTree :
    (userid folderid parentid : ℕ) (db : Db) (folder : FolderRow)
    → first (has_id folderid) db.folders ≡ some folder
    → IsTree db.folders
    → IsTree (move userid folderid parentid db).1.folders
unfolding move
move_found-IsTree userid folderid parentid db folder found tree =
    let parent = check_parent userid folder parentid db in
    let state = check_parent-state userid folder parentid db in
    elim (Result-cases (check_parent userid folder parentid db).0) [
      | inl (t, passes) ↦ elim (Bool-cases (may_move userid folderid parentid folder db.folders)) [
        | inl goes ↦
            let e : (move userid folderid parentid db).1.folders
                ≡ update (has_id folderid) (set_parent parentid) db.folders =
              ground (arith, found, state, passes) in
            same-IsTree e (
              set_parent-IsTree db.folders tree userid folderid parentid
                (all_unique (has_id folderid) (λ r. r.userid == userid) db.folders (tree.1 folderid)
                  (exists-first (has_id folderid) (λ r. r.userid == userid) db.folders folder found
                    (ground arith)))
                (no_child-childless folderid db.folders (ground arith)) (ground arith)
                (check_parent-top userid folder parentid db passes))
        | inr stops ↦
            let e : (move userid folderid parentid db).1.folders ≡ db.folders =
              ground (arith, found, state, passes) in
            same-IsTree e tree
      ]
      | inr (raised, fails) ↦
          let e : (move userid folderid parentid db).1.folders ≡ db.folders =
            ground (arith, found, state, fails) in
          same-IsTree e tree
    ]

pub move-IsTree :
    (userid folderid parentid : ℕ) (db : Db)
    → IsTree db.folders
    → IsTree (move userid folderid parentid db).1.folders
unfolding move
move-IsTree userid folderid parentid db tree =
    elim (Option-cases (first (has_id folderid) db.folders)) [
      | inl absent ↦
          let e : (move userid folderid parentid db).1.folders ≡ db.folders = ground arith in
          same-IsTree e tree
      | inr (folder, found) ↦ move_found-IsTree userid folderid parentid db folder found tree
    ]
