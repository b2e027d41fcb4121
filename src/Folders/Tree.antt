-- ===== src/Folders/Tree.antt =====
-- The shape of a gallery of weasyl/folder.py.
use weasyl.Prelude.{ℕ, ◌≤◌, ◌≡◌, Bool, true, false, ◌&&◌, ◌||◌, List, ◌==◌, all}
use weasyl.Sql.{exists, count}
use weasyl.Database.{FolderRow}
use weasyl.Folders.{has_id, is_hidden}

-- A top folder with the same owner, which the folder names as its parent.
abbrev pub is_parent : FolderRow → FolderRow → Bool
is_parent f p = has_id f.parentid p && (p.userid == f.userid && p.parentid == 0)

-- The folder is hidden, or a top folder, or it lies in a top folder of its owner.
abbrev pub is_nested : List FolderRow → FolderRow → Bool
is_nested rows f = is_hidden f || (f.parentid == 0 || exists (is_parent f) rows)

-- Every folder that is not hidden is nested at most once, no two folders share an id, and none has
-- the id 0, which stands for the root.
abbrev pub IsTree : List FolderRow → Type 0
IsTree rows =
    (all (is_nested rows) rows ≡ true)
    × ((id : ℕ) → count (has_id id) rows ≤ 1)
    × (exists (has_id 0) rows ≡ false)
