-- ===== src/Search/Resolve.antt =====
-- `resolve` of weasyl/search.py: the names of a query as ids. The ids of users are what `d.get_userids`
-- finds, 0 for none.
use weasyl.Prelude.{
  ℕ, Bool, true, false, not, ◌||◌, Option, none, some, List, [], ◌∷◌, ◌==◌, if◌then◌else◌,
}
use weasyl.Sql.{elem}
use weasyl.Forms.Text.{Str, filter}
use weasyl.SearchTags.Tables.{Tagging}
use weasyl.SearchTags.Names.{get_id}
use weasyl.Search.{Query, SearchType, user}

pub record ResolvedQuery : Type 0 where
  pub possible_includes : List ℕ
  pub required_includes : List ℕ
  pub required_excludes : List ℕ
  pub required_user_includes : List ℕ
  pub required_user_excludes : List ℕ
  pub ratings : List ℕ
  pub find : SearchType

-- The answers of `resolve`: `TypeError`, `None`, or a query.
pub data Resolution : Type 0 where
  unsupported unmatched : Resolution
  resolved : ResolvedQuery → Resolution

abbrev pub id_or_zero : Option ℕ → ℕ
id_or_zero none = 0
id_or_zero (some id) = id

abbrev pub add_id : ℕ → List ℕ → List ℕ
add_id x xs = if elem x xs then xs else x ∷ xs

-- A set of ids.
unfoldable pub get_tag_ids : List Str → Tagging → List ℕ
get_tag_ids [] t = []
get_tag_ids (name ∷ names) t = add_id (id_or_zero (get_id name t)) (get_tag_ids names t)

unfoldable pub get_user_ids : (Str → ℕ) → List Str → List ℕ
get_user_ids user_ids [] = []
get_user_ids user_ids (name ∷ names) = add_id (user_ids name) (get_user_ids user_ids names)

abbrev pub discard_zero : List ℕ → List ℕ
discard_zero ids = filter (λ id. not (id == 0)) ids

abbrev pub resolve_ids : (Str → ℕ) → Query → SearchType → Tagging → ResolvedQuery
resolve_ids user_ids q find t = record {
  possible_includes = discard_zero (get_tag_ids q.possible_includes t);
  required_includes = get_tag_ids q.required_includes t;
  required_excludes = discard_zero (get_tag_ids q.required_excludes t);
  required_user_includes = get_user_ids user_ids q.required_user_includes;
  required_user_excludes = discard_zero (get_user_ids user_ids q.required_user_excludes);
  ratings = q.ratings;
  find = find;
}

abbrev is_user : SearchType → Bool
is_user user = true
is_user _ = false

-- `resolve`, of a query whose type is set.
unfoldable pub resolve : (Str → ℕ) → Query → SearchType → Tagging → Resolution
resolve user_ids q find t =
    if is_user find
    then unsupported
    else if elem 0 (get_tag_ids q.required_includes t)
        || elem 0 (get_user_ids user_ids q.required_user_includes)
    then unmatched
    else resolved (resolve_ids user_ids q find t)
