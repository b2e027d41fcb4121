-- ===== src/SearchTags/Names.antt =====
-- The names of tags and their ids, in weasyl/searchtag.py, past the caches of `get_ids` and
-- `get_names`.
use weasyl.Prelude.{ℕ, ◌+◌, Bool, Option, none, some, List, [], ◌∷◌, map, if◌then◌else◌}
use weasyl.Prelude.Strings.{same}
use weasyl.Sql.{exists, select, first, insert, elem}
use weasyl.Database.{Str}
use weasyl.SearchTags.Tables.{TagName, Tagging}

abbrev pub is_titled : Str → TagName → Bool
is_titled name row = same row.title name

abbrev pub tagid_of : Option TagName → Option ℕ
tagid_of none = none
tagid_of (some row) = some row.tagid

-- `get_ids` of one name, which is `_get_id`.
unfoldable pub get_id : Str → Tagging → Option ℕ
get_id name t = tagid_of (first (is_titled name) t.names)

abbrev keep_found : Option ℕ → List ℕ → List ℕ
keep_found none ids = ids
keep_found (some id) ids = id ∷ ids

-- The values of `get_ids`, in the order of the names.
unfoldable pub get_ids : List Str → Tagging → List ℕ
get_ids [] t = []
get_ids (name ∷ names) t = keep_found (get_id name t) (get_ids names t)

-- `INSERT … ON CONFLICT (title) DO NOTHING` of one name. Nothing is said of the ids that the
-- sequence skips where a name is there already.
abbrev pub create_name : Str → Tagging → Tagging
create_name name t = if exists (is_titled name) t.names then t else record t {
  names = insert (record { tagid = t.next_tagid; title = name }) t.names;
  next_tagid = t.next_tagid + 1;
}

unfoldable pub create_names : List Str → Tagging → Tagging
create_names [] t = t
create_names (name ∷ names) t = create_names names (create_name name t)

-- `get_or_create_many`
unfoldable pub get_or_create_many : List Str → Tagging → List ℕ × Tagging
get_or_create_many names t = let t' = create_names names t in (get_ids names t', t')

-- `SELECT title FROM … INNER JOIN searchtag USING (tagid)` for ids, in the order of `searchtag`.
unfoldable pub titles : List ℕ → Tagging → List Str
titles ids t = map (λ row. row.title) (select (λ row. elem row.tagid ids) t.names)
