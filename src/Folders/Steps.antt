-- ===== src/Folders/Steps.antt =====
-- Creating, editing, renaming and removing folders of weasyl/folder.py keeps the gallery's shape.
use weasyl.Prelude.{
  ℕ, ◌<◌, ◌≡◌, refl, Bool, true, false, not, ◌&&◌, ◌||◌, some, none, List, [], ◌∷◌, arith, ◌==◌,
  all, subst, sym, Bool-cases, Option-cases, inl, inr,
}
use weasyl.Sql.{exists, first, update, insert}
use weasyl.Database.{FolderRow, Str, has, Db}
use weasyl.Folders.{
  has_id, is_hidden, matches_id, set_title, set_settings, hide, is_removed, settable, check, create,
  edit_settings, update_settings, rename, remove, clean_title, strip, is_blank,
}
use weasyl.Sql.All.{all_none, all_implied, all_unique, exists_mono}
use weasyl.Folders.Tree.{IsTree}
use weasyl.Folders.Writes.{update-IsTree, insert-IsTree, is_top}

-- The folder that `create` checks is a top folder of the user, or the root.
check-top :
    (userid parentid : ℕ) (db : Db)
    → check userid parentid [] (some 0) true db ≡ true
    → (parentid == 0) || exists (is_top userid parentid) db.folders ≡ true
unfolding check
check-top userid parentid db h = ground (
  arith,
  exists_mono (matches_id userid parentid (some 0)) (is_top userid parentid) db.folders
      (λ r m. ground arith),
)

pub create-IsTree :
    (folderid userid : ℕ) (title : Str) (parentid : ℕ) (db : Db)
    → exists (has_id folderid) db.folders ≡ false
    → 0 < folderid
    → IsTree db.folders
    → IsTree (create folderid userid title parentid db).1.folders
unfolding create
create-IsTree folderid userid title parentid db new pos tree =
    let cleaned = clean_title title in
    let row : FolderRow = record {
      folderid = folderid;
      parentid = parentid;
      userid = userid;
      title = cleaned;
      settings = [];
    } in
    elim (Bool-cases (
      check userid parentid [] (some 0) true db
      && (not (is_blank (strip cleaned))
          && not (check userid 0 cleaned (some parentid) true db)))) [
            | inl goes ↦
                let e : (create folderid userid title parentid db).1.folders
                    ≡ insert row db.folders =
                  ground arith in
                subst IsTree (sym e) (
                  insert-IsTree db.folders tree row new pos
                    (check-top userid parentid db (ground arith)))
            | inr stops ↦
                let e : (create folderid userid title parentid db).1.folders ≡ db.folders =
                  ground arith in
                subst IsTree (sym e) tree
          ]

-- Any action that writes one table or none.
pub same-IsTree : {rows rows' : List FolderRow} → rows' ≡ rows → IsTree rows → IsTree rows'
same-IsTree e tree = subst IsTree (sym e) tree

-- The folder whose settings are edited is not hidden.
abbrev shows_to : ℕ → FolderRow → Bool
shows_to folderid r = not (has_id folderid r) || not (is_hidden r)

check-shown :
    (userid folderid : ℕ) (db : Db)
    → IsTree db.folders
    → check userid folderid [] none true db ≡ true
    → all (shows_to folderid) db.folders ≡ true
unfolding check
check-shown userid folderid db tree h = elim (Bool-cases (folderid == 0)) [
  | inl root ↦
      let e : folderid ≡ 0 = ground arith in
      all_implied (λ r. not (has_id folderid r)) (shows_to folderid) db.folders
        (λ r m. ground arith)
        (all_none (has_id folderid) db.folders
          (subst (λ i. exists (has_id i) db.folders ≡ false) (sym e) tree.2))
  | inr inside ↦
      all_unique (has_id folderid) (λ r. not (is_hidden r)) db.folders (tree.1 folderid)
        (exists_mono (matches_id userid folderid none) (λ r. has_id folderid r && not (is_hidden r))
          db.folders (λ r m. ground arith) (ground arith))
]

settable-shown : (settings : Str) → has b'h' (settable settings) ≡ false
settable-shown settings = ground arith

pub edit_settings-IsTree :
    (userid folderid : ℕ) (settings : Str) (db : Db)
    → IsTree db.folders
    → IsTree (edit_settings userid folderid settings db).1.folders
unfolding edit_settings update_settings
edit_settings-IsTree userid folderid settings db tree =
    elim (Bool-cases (check userid folderid [] none true db)) [
      | inl goes ↦
          let e : (edit_settings userid folderid settings db).1.folders
              ≡ update (has_id folderid) (set_settings settings) db.folders =
            ground arith in
          same-IsTree e (
            update-IsTree (has_id folderid) (set_settings settings) (λ r. refl) (λ r. refl)
              (λ r. refl) (shows_to folderid) db.folders (λ r y s h. ground arith)
              (check-shown userid folderid db tree goes) tree)
      | inr stops ↦
          let e : (edit_settings userid folderid settings db).1.folders ≡ db.folders =
            ground arith in
          same-IsTree e tree
    ]

abbrev pub any_row : FolderRow → Bool
any_row r = true

pub all-any_row : (rows : List FolderRow) → all any_row rows ≡ true
all-any_row [] = refl
all-any_row (r ∷ rows) = all-any_row rows

pub rename-IsTree :
    (userid folderid : ℕ) (form_title : Str) (db : Db)
    → IsTree db.folders
    → IsTree (rename userid folderid form_title db).1.folders
unfolding rename
rename-IsTree userid folderid form_title db tree =
    let title = clean_title form_title in
    elim (Option-cases (first (has_id folderid) db.folders)) [
      | inl absent ↦
          let e : (rename userid folderid form_title db).1.folders ≡ db.folders = ground arith in
          same-IsTree e tree
      | inr (query, found) ↦ elim (Bool-cases (not (is_blank title) && userid == query.userid)) [
        | inl goes ↦
            let e : (rename userid folderid form_title db).1.folders
                ≡ update (has_id folderid) (set_title title) db.folders =
              ground (arith, found) in
            same-IsTree e (
              update-IsTree (has_id folderid) (set_title title) (λ r. refl) (λ r. refl) (λ r. refl)
                any_row db.folders (λ r y s h. h) (all-any_row db.folders) tree)
        | inr stops ↦
            let e : (rename userid folderid form_title db).1.folders ≡ db.folders =
              ground (arith, found) in
            same-IsTree e tree
      ]
    ]

pub remove-IsTree :
    (userid folderid : ℕ) (db : Db)
    → IsTree db.folders
    → IsTree (remove userid folderid db).1.folders
unfolding remove
remove-IsTree userid folderid db tree = elim (Option-cases (first (has_id folderid) db.folders)) [
  | inl absent ↦
      let e : (remove userid folderid db).1.folders ≡ db.folders = ground arith in
      same-IsTree e tree
  | inr (query, found) ↦ elim (Bool-cases (userid == query.userid)) [
    | inl goes ↦
        let e : (remove userid folderid db).1.folders
            ≡ update (is_removed folderid) hide db.folders =
          ground (arith, found) in
        same-IsTree e (
          update-IsTree (is_removed folderid) hide (λ r. refl) (λ r. refl) (λ r. refl) any_row
            db.folders (λ r y s h. ground arith) (all-any_row db.folders) tree)
    | inr stops ↦
        let e : (remove userid folderid db).1.folders ≡ db.folders = ground (arith, found) in
        same-IsTree e tree
  ]
]
