-- ===== src/Folders/Invariant.antt =====
-- Galleries of weasyl/folder.py over any sequence of calls.
use weasyl.Database.{Db}
use weasyl.Folders.{Reaches, start, created, edited, renamed, moved, removed}
use weasyl.Folders.Tree.{IsTree}
use weasyl.Folders.Steps.{create-IsTree, edit_settings-IsTree, rename-IsTree, remove-IsTree}
use weasyl.Folders.Moves.{move-IsTree}

-- From a state in which every folder that is not hidden is a top folder or lies in a top folder of
-- its owner, and in which the ids of the folders are positive and different, every sequence of calls
-- that create, edit, rename, move and remove folders, whether they return or raise, leads to such a
-- state.
pub Reaches-IsTree : (db db' : Db) → Reaches db db' → IsTree db.folders → IsTree db'.folders
Reaches-IsTree db db' start tree = tree
Reaches-IsTree db db' (created folderid userid title parentid {d} before new pos) tree =
    create-IsTree folderid userid title parentid d new pos (Reaches-IsTree db d before tree)
Reaches-IsTree db db' (edited userid folderid settings {d} before) tree =
    edit_settings-IsTree userid folderid settings d (Reaches-IsTree db d before tree)
Reaches-IsTree db db' (renamed userid folderid title {d} before) tree =
    rename-IsTree userid folderid title d (Reaches-IsTree db d before tree)
Reaches-IsTree db db' (moved userid folderid parentid {d} before) tree =
    move-IsTree userid folderid parentid d (Reaches-IsTree db d before tree)
Reaches-IsTree db db' (removed userid folderid {d} before) tree =
    remove-IsTree userid folderid d (Reaches-IsTree db d before tree)
