-- ===== src/Folders/Writes.antt =====
-- Every statement of weasyl/folder.py keeps the shape of a gallery, under the checks that precede it.
use weasyl.Prelude.{
  ℕ, ◌<◌, ◌≡◌, refl, Bool, true, false, not, ◌&&◌, ◌||◌, List, arith, ◌==◌, all, if◌then◌else◌,
  subst, Bool-cases, inl, inr,
}
use weasyl.Sql.{exists, update, insert}
use weasyl.Sql.Laws.{count-exists_no, exists-insert, exists-update, count-update, count-insert}
use weasyl.Database.{FolderRow}
use weasyl.Folders.{has_id, is_hidden, is_child, set_parent}
use weasyl.Sql.All.{all_and, all_implied, all-update, all-insert, exists-update_kept}
use weasyl.Folders.Tree.{is_parent, is_nested, IsTree}

-- An update that keeps ids, owners and parents, and uncovers no folder.
module _ (test : FolderRow → Bool) (f : FolderRow → FolderRow)
    (ids : (r : FolderRow) → (f r).folderid ≡ r.folderid)
    (owners : (r : FolderRow) → (f r).userid ≡ r.userid)
    (parents : (r : FolderRow) → (f r).parentid ≡ r.parentid) where
  parent_kept :
      (g : FolderRow) (rows : List FolderRow)
      → exists (is_parent g) (update test f rows) ≡ exists (is_parent g) rows
  parent_kept g rows =
      exists-update test (is_parent g) f rows (λ r h. rw (ids r, owners r, parents r) refl)

  pub update-IsTree :
      (shown : FolderRow → Bool) (rows : List FolderRow)
      → ((r : FolderRow)
          → test r ≡ true
          → shown r ≡ true
          → is_hidden r ≡ true
          → is_hidden (f r) ≡ true)
      → all shown rows ≡ true
      → IsTree rows
      → IsTree (update test f rows)
  update-IsTree shown rows covers now (nested, unique, positive) = (
    all-update (λ r. is_nested rows r && shown r) (is_nested (update test f rows)) test f rows step
        (all_and (is_nested rows) shown rows nested now),
    λ id. rw (count-update test (has_id id) f rows (λ r h. rw (ids r) refl)) (unique id),
    rw (exists-update test (has_id 0) f rows (λ r h. rw (ids r) refl)) positive,
  )
    where
      step :
          (r : FolderRow)
          → is_nested rows r && shown r ≡ true
          → is_nested (update test f rows) (if test r then f r else r) ≡ true
      step r h =
          let same : exists (is_parent (f r)) (update test f rows) ≡ exists (is_parent r) rows =
            rw (parent_kept (f r) rows, parents r, owners r) refl in
          elim (Bool-cases (test r)) [
            | inl y ↦ rw y (ground (arith, same, covers r, parents r))
            | inr n ↦ rw n (ground (arith, parent_kept r rows))
          ]

-- What `move` has checked of the rows, for each of them.
abbrev pub owned : ℕ → ℕ → FolderRow → Bool
owned userid folderid r = not (has_id folderid r) || r.userid == userid

abbrev pub childless : ℕ → FolderRow → Bool
childless folderid r = folderid == 0 || (not (is_child folderid r) || is_hidden r)

abbrev pub is_top : ℕ → ℕ → FolderRow → Bool
is_top userid parentid p = has_id parentid p && (p.userid == userid && p.parentid == 0)

module _ (rows : List FolderRow) (tree : IsTree rows) where
  -- A new folder under a top folder, or at the root.
  pub insert-IsTree :
      (row : FolderRow)
      → exists (has_id row.folderid) rows ≡ false
      → 0 < row.folderid
      → (row.parentid == 0) || exists (is_parent row) rows ≡ true
      → IsTree (insert row rows)
  insert-IsTree row new pos under = (
    all-insert (is_nested (insert row rows)) row rows
        (all_implied (is_nested rows) (is_nested (insert row rows)) rows
          (λ r h. ground (arith, exists-insert (is_parent r) row rows)) tree.0)
        (ground (arith, exists-insert (is_parent row) row rows)),
    λ id. elim (Bool-cases (has_id id row)) [
      | inl y ↦
          let e : row.folderid ≡ id = ground arith in
          let none_yet =
            count-exists_no (has_id id) rows (subst (λ i. exists (has_id i) rows ≡ false) e new) in
          ground (arith, count-insert (has_id id) row rows, none_yet)
      | inr n ↦ ground (arith, count-insert (has_id id) row rows, tree.1 id)
    ],
    ground (arith, exists-insert (has_id 0) row rows, tree.2),
  )

  -- A folder moves under a top folder of its owner, or to the root, if no folder that is not
  -- hidden lies in it.
  pub set_parent-IsTree :
      (userid folderid parentid : ℕ)
      → all (owned userid folderid) rows ≡ true
      → all (childless folderid) rows ≡ true
      → (folderid == parentid) ≡ false
      → (parentid == 0) || exists (is_top userid parentid) rows ≡ true
      → IsTree (update (has_id folderid) (set_parent parentid) rows)
  set_parent-IsTree userid folderid parentid owners children apart top = (
    all-update (λ r. is_nested rows r && (owned userid folderid r && childless folderid r))
        (is_nested (update (has_id folderid) (set_parent parentid) rows)) (has_id folderid)
        (set_parent parentid) rows step
        (all_and (is_nested rows) (λ r. owned userid folderid r && childless folderid r) rows tree.0
          (all_and (owned userid folderid) (childless folderid) rows owners children)),
    λ id.
        rw (count-update (has_id folderid) (has_id id) (set_parent parentid) rows (λ r h. refl))
          (tree.1 id),
    rw (exists-update (has_id folderid) (has_id 0) (set_parent parentid) rows (λ r h. refl)) tree.2,
  )
    where
      above :
          exists (is_top userid parentid) rows ≡ true
          → exists (is_top userid parentid) (update (has_id folderid) (set_parent parentid) rows)
            ≡ true
      above =
          exists-update_kept (has_id folderid) (is_top userid parentid) (set_parent parentid) rows
            (λ p h. ground arith)

      step :
          (r : FolderRow)
          → is_nested rows r && (owned userid folderid r && childless folderid r) ≡ true
          → is_nested
              (update (has_id folderid) (set_parent parentid) rows)
              (if has_id folderid r then set_parent parentid r else r)
            ≡ true
      step r h = elim (Bool-cases (has_id folderid r)) [
        | inl y ↦ let e : r.userid ≡ userid = ground arith in rw (y, e) (ground (arith, above))
        | inr n ↦ elim (Bool-cases (is_hidden r || (r.parentid == 0 || is_child folderid r))) [
          | inl top_or_hidden ↦ rw n (ground arith)
          | inr inside ↦ rw n (
              ground (
                arith,
                exists-update_kept (has_id folderid) (is_parent r) (set_parent parentid) rows
                    (λ p h. ground arith),
              ))
        ]
      ]
