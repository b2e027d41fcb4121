-- ===== src/Folders.antt =====
-- weasyl/folder.py: the folders of a gallery and the calls that change them, with the check that
-- weasyl/controllers/settings.py makes before `update_settings`. The ids of the forms have been read
-- by `d.get_int`, which gives 0 for what is no number.
pub mod Tree
pub mod Writes
pub mod Steps
pub mod Moves
pub mod Invariant
use weasyl.Prelude.{
  ℕ, Bool, true, false, not, ◌&&◌, ◌||◌, Option, none, some, List, [], ◌∷◌, ◌++◌, reverse, ◌==◌,
  leb, ltb, if◌then◌else◌, take, ◌≡◌, ◌<◌,
}
use weasyl.Prelude.Strings.{same}
use weasyl.Sql.{exists, select, first, update, insert}
use weasyl.Forms.Text.{strip}
use weasyl.Database.{
  Str, has, FolderRow, Submission, Db, Action, ok, raise, raise_if, modify, transaction, ◌>>◌,
  folder_record_missing, folder_record_exists, title_invalid, parentid_invalid,
  insufficient_permissions,
}

abbrev pub title_length : ℕ
title_length = 100

-- `form.title.strip()[:_TITLE]`
pub clean_title : Str → Str
clean_title title = take title_length (strip title)

abbrev pub is_blank : Str → Bool
is_blank [] = true
is_blank (c ∷ s) = false

abbrev pub has_id : ℕ → FolderRow → Bool
has_id folderid f = f.folderid == folderid

abbrev pub is_hidden : FolderRow → Bool
is_hidden f = has b'h' f.settings

abbrev pub is_in : Option ℕ → FolderRow → Bool
is_in none f = true
is_in (some parentid) f = f.parentid == parentid

-- The two queries of `check` by id, and the two by title.
abbrev pub matches_id : ℕ → ℕ → Option ℕ → FolderRow → Bool
matches_id userid folderid parentid f =
    has_id folderid f && (f.userid == userid && (is_in parentid f && not (is_hidden f)))

abbrev pub matches_title : ℕ → Str → Option ℕ → FolderRow → Bool
matches_title userid title parentid f =
    f.userid == userid && (same f.title title && (is_in parentid f && not (is_hidden f)))

-- `check`, where 0 and the empty title stand for `None`.
pub check : ℕ → ℕ → Str → Option ℕ → Bool → Db → Bool
check userid folderid title parentid root db =
    if folderid == 0
    then if is_blank title then root else exists (matches_title userid title parentid) db.folders
    else exists (matches_id userid folderid parentid) db.folders

-- `create`; the first number is the id that the table's sequence gives the row.
pub create : ℕ → ℕ → Str → ℕ → Action Unit
create folderid userid form_title parentid db =
    let title = clean_title form_title in
    (raise_if (not (check userid parentid [] (some 0) true db)) folder_record_missing
        >> raise_if (is_blank (strip title)) title_invalid
        >> raise_if (check userid 0 title (some parentid) true db) folder_record_exists
        >> modify (λ db. record db {
          folders =
              insert
                (record {
                  folderid = folderid;
                  parentid = parentid;
                  userid = userid;
                  title = title;
                  settings = [];
                })
                db.folders;
        }))
      db

abbrev pub settable : Str → Str
settable settings = select (λ code. has code settings) (b'f' ∷ b'm' ∷ b'n' ∷ b'u' ∷ [])

-- `update_settings`. The order of the codes, that of a set, is fixed here.
abbrev pub set_settings : Str → FolderRow → FolderRow
set_settings settings f = record f { settings = settable settings }

pub update_settings : ℕ → Str → Db → Db
update_settings folderid settings db = record db {
  folders = update (has_id folderid) (set_settings settings) db.folders;
}

-- `control_editfolder_post_`
pub edit_settings : ℕ → ℕ → Str → Action Unit
edit_settings userid folderid settings db =
    (raise_if (not (check userid folderid [] none true db)) insufficient_permissions
        >> modify (update_settings folderid settings))
      db

-- `submission_has_folder_flag`
pub submission_has_folder_flag : ℕ → ℕ → Db → Bool
submission_has_folder_flag submitid flag db =
    elim (first (λ s. s.submitid == submitid) db.submissions) [
      | none ↦ false
      | some s ↦ elim s.folderid [
        | none ↦ false
        | some folderid ↦ elim (first (has_id folderid) db.folders) [
          | none ↦ false
          | some f ↦ has flag f.settings
        ]
      ]
    ]

abbrev pub set_title : Str → FolderRow → FolderRow
set_title title f = record f { title = title }

-- `rename`
pub rename : ℕ → ℕ → Str → Action Unit
rename userid folderid form_title db = elim (first (has_id folderid) db.folders) [
  | none ↦ raise folder_record_missing db
  | some query ↦
      let title = clean_title form_title in
      (raise_if (is_blank title) title_invalid
          >> raise_if (not (userid == query.userid)) insufficient_permissions
          >> modify
              (λ db. record db { folders = update (has_id folderid) (set_title title) db.folders }))
        db
]

abbrev pub is_child : ℕ → FolderRow → Bool
is_child folderid f = f.parentid == folderid

-- The checks of `move` on the parent, if it is not the root.
pub check_parent : ℕ → FolderRow → ℕ → Action Unit
check_parent userid folder parentid db =
    if parentid == 0 then (ok tt, db) else elim (first (has_id parentid) db.folders) [
      | none ↦ raise folder_record_missing db
      | some parent ↦
          (raise_if (ltb 0 parent.parentid) parentid_invalid
              >> raise_if (not (userid == parent.userid)) insufficient_permissions
              >> raise_if (same folder.title parent.title) folder_record_exists)
            db
    ]

abbrev pub set_parent : ℕ → FolderRow → FolderRow
set_parent parentid f = record f { parentid = parentid }

-- `move`
pub move : ℕ → ℕ → ℕ → Action Unit
move userid folderid parentid db = elim (first (has_id folderid) db.folders) [
  | none ↦ raise folder_record_missing db
  | some folder ↦
      (raise_if (folderid == parentid) parentid_invalid
          >> raise_if (not (userid == folder.userid)) insufficient_permissions
          >> raise_if
              (not (folderid == 0)
                && exists (λ f. is_child folderid f && not (is_hidden f)) db.folders)
              parentid_invalid
          >> check_parent userid folder parentid
          >> raise_if
              (exists
                (λ f. is_child parentid f && (f.userid == userid && same folder.title f.title))
                db.folders)
              folder_record_exists
          >> modify (λ db. record db {
            folders = update (has_id folderid) (set_parent parentid) db.folders;
          }))
        db
]

abbrev pub is_removed : ℕ → FolderRow → Bool
is_removed folderid f = (has_id folderid f || is_child folderid f) && not (is_hidden f)

abbrev pub hide : FolderRow → FolderRow
hide f = record f { settings = f.settings ++ b'h' ∷ [] }

-- Whether the submission lies in the folder or in one of its subfolders.
abbrev pub lies_in : ℕ → List FolderRow → Option ℕ → Bool
lies_in folderid folders none = false
lies_in folderid folders (some at) =
    exists (λ f. f.folderid == at && (has_id folderid f || is_child folderid f)) folders

abbrev pub to_root : Submission → Submission
to_root s = record s { folderid = none }

-- `remove`
pub remove : ℕ → ℕ → Action Unit
remove userid folderid db = elim (first (has_id folderid) db.folders) [
  | none ↦ raise folder_record_missing db
  | some query ↦
      (raise_if (not (userid == query.userid)) insufficient_permissions
          >> transaction (
              modify (λ db. record db {
                folders = update (is_removed folderid) hide db.folders;
                submissions =
                    update (λ s. lies_in folderid db.folders s.folderid) to_root db.submissions;
              })))
        db
]

-- The states that the calls lead to from a state, each call returning or raising. A created row gets
-- a positive id that no row has.
pub data Reaches (db : Db) : Db → Type 0 where
  start : Reaches db db
  created :
      (folderid userid : ℕ) (title : Str) (parentid : ℕ) {d : Db}
      → Reaches db d
      → exists (has_id folderid) d.folders ≡ false
      → 0 < folderid
      → Reaches db (create folderid userid title parentid d).1
  edited :
      (userid folderid : ℕ) (settings : Str) {d : Db}
      → Reaches db d
      → Reaches db (edit_settings userid folderid settings d).1
  renamed :
      (userid folderid : ℕ) (title : Str) {d : Db}
      → Reaches db d
      → Reaches db (rename userid folderid title d).1
  moved :
      (userid folderid parentid : ℕ) {d : Db}
      → Reaches db d
      → Reaches db (move userid folderid parentid d).1
  removed : (userid folderid : ℕ) {d : Db} → Reaches db d → Reaches db (remove userid folderid d).1
