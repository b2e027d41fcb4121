-- ===== src/Search.antt =====
-- Search queries of weasyl/search.py: `Query` and `resolve`. A set is a list without repetitions.
pub mod Disjoint
pub mod Resolve
pub mod Submissions
pub mod Plans
use weasyl.Prelude.{
  ℕ, Bool, true, false, not, ◌&&◌, ◌||◌, Option, none, some, List, [], ◌∷◌, ◌++◌, map, ◌==◌, leb,
  if◌then◌else◌, length, any, drop,
}
use weasyl.Prelude.Strings.{same, codes}
use weasyl.Sql.{elem}
use weasyl.Forms.{FormError, Result, ok, err, parse_tag}
use weasyl.Forms.Text.{Str, filter, words, is_space, strip}
use weasyl.Users.{Unicode, parse_sysname}

pub data SearchType : Type 0 where
  submit char journal user : SearchType

pub record Query : Type 0 where
  pub possible_includes : List Str
  pub required_includes : List Str
  pub required_excludes : List Str
  pub required_user_includes : List Str
  pub required_user_excludes : List Str
  pub ratings : List ℕ
  pub find : Option SearchType

-- Sets of strings.
abbrev pub contains : Str → List Str → Bool
contains x xs = any (same x) xs

unfoldable pub add : Str → List Str → List Str
add x xs = if contains x xs then xs else xs ++ x ∷ []

unfoldable pub add_rating : ℕ → List ℕ → List ℕ
add_rating x xs = if elem x xs then xs else xs ++ x ∷ []

unfoldable pub difference : List Str → List Str → List Str
difference xs ys = filter (λ x. not (contains x ys)) xs

-- `_QUERY_FIND_MODIFIERS` and `_QUERY_RATING_MODIFIERS`
unfoldable pub find_modifier : Str → Option SearchType
find_modifier s =
    if same s (codes "#submission")
    then some submit
    else if same s (codes "#character")
    then some char
    else if same s (codes "#journal")
    then some journal
    else if same s (codes "#user")
    then some user
    else none

unfoldable pub rating_modifier : Str → Option ℕ
rating_modifier s =
    if same s (codes "#general")
    then some 10
    else if same s (codes "#mature")
    then some 30
    else if same s (codes "#explicit")
    then some 40
    else none

-- `criterion.startswith(prefix)`, with what is behind it.
abbrev pub behind : Str → Str → Option Str
behind [] s = some s
behind (p ∷ prefix) [] = none
behind (p ∷ prefix) (c ∷ s) = if c == p then behind prefix s else none

-- The last branches of `add_criterion`: what a term stands for.
pub data Term : Type 0 where
  user_include user_exclude tag_include tag_exclude tag_possible : Str → Term

abbrev pub otherwise : Option Term → Term → Term
otherwise none term = term
otherwise (some first) term = first

abbrev pub under : (Str → Term) → Option Str → Option Term
under f none = none
under f (some s) = some (f s)

unfoldable pub term_of : Str → Term
term_of s = otherwise (under user_include (behind (codes "user:") s)) (
    otherwise (under user_include (behind (codes "+user:") s)) (
      otherwise (under user_exclude (behind (codes "-user:") s)) (
        otherwise (under tag_include (behind (codes "+") s)) (
          otherwise (under tag_exclude (behind (codes "-") s))
            (otherwise (under tag_possible (behind (codes "|") s)) (tag_include s))))))

-- `add_nonempty`
abbrev pub add_nonempty : Option Str → List Str → List Str
add_nonempty none xs = xs
add_nonempty (some x) xs = add x xs

-- A tag that is too long raises.
abbrev pub with_tag : (Option Str → Query) → Result (Option Str) → Result Query
with_tag f (err e) = err e
with_tag f (ok tag) = ok (f tag)

unfoldable pub add_term : Unicode → Term → Query → Result Query
add_term unicode (user_include s) q = ok (record q {
  required_user_includes = add_nonempty (parse_sysname unicode s) q.required_user_includes;
})
add_term unicode (user_exclude s) q = ok (record q {
  required_user_excludes = add_nonempty (parse_sysname unicode s) q.required_user_excludes;
})
add_term unicode (tag_include s) q =
    with_tag (λ tag. record q { required_includes = add_nonempty tag q.required_includes })
      (parse_tag s)
add_term unicode (tag_exclude s) q =
    with_tag (λ tag. record q { required_excludes = add_nonempty tag q.required_excludes })
      (parse_tag s)
add_term unicode (tag_possible s) q =
    with_tag (λ tag. record q { possible_includes = add_nonempty tag q.possible_includes })
      (parse_tag s)

-- `Query.add_criterion`
unfoldable pub add_criterion : Unicode → Str → Query → Result Query
add_criterion unicode criterion q = elim (find_modifier criterion) [
  | some find ↦ ok (record q { find = some find })
  | none ↦ elim (rating_modifier criterion) [
    | some rating ↦ ok (record q { ratings = add_rating rating q.ratings })
    | none ↦ add_term unicode (term_of criterion) q
  ]
]

unfoldable pub add_criteria : Unicode → List Str → Query → Result Query
add_criteria unicode [] q = ok q
add_criteria unicode (criterion ∷ criteria) q = elim (add_criterion unicode criterion q) [
  | err e ↦ err e
  | ok q' ↦ add_criteria unicode criteria q'
]

abbrev pub empty_query : Query
empty_query = record {
  possible_includes = [];
  required_includes = [];
  required_excludes = [];
  required_user_includes = [];
  required_user_excludes = [];
  ratings = [];
  find = none;
}

abbrev pub is_delimiter : ℕ → Bool
is_delimiter c = is_space c || (c == b',' || c == b';')

-- `if len(query.possible_includes) == 1:` the one tag is required.
abbrev pub require_single : List Str → List Str → List Str × List Str
require_single (x ∷ []) required = ([], add x required)
require_single possible required = (possible, required)

abbrev pub or_default : Option SearchType → SearchType → SearchType
or_default none default = default
or_default (some find) default = find

-- What `Query.parse` does behind its loop.
unfoldable pub settle_sets : SearchType → Query → Query
settle_sets find_default q =
    let excludes = difference q.required_excludes q.required_includes in
    let possible = difference (difference q.possible_includes q.required_includes) excludes in
    let (possible', required) = require_single possible q.required_includes in
    record q {
      possible_includes = possible';
      required_includes = required;
      required_excludes = excludes;
      find = some (or_default q.find find_default);
    }

-- `Query.parse`, without the text that it keeps.
unfoldable pub parse : Unicode → Str → SearchType → Result Query
parse unicode query_string find_default =
    elim (add_criteria unicode (words is_delimiter (strip query_string)) empty_query) [
      | err e ↦ err e
      | ok q ↦ ok (settle_sets find_default q)
    ]

-- `Query.__bool__`
abbrev pub is_empty_list {ℓ} : {A : Type ℓ} → List A → Bool
is_empty_list [] = true
is_empty_list (x ∷ xs) = false

unfoldable pub truth : Query → Bool
truth q =
    not (is_empty_list q.possible_includes)
    || not (is_empty_list q.required_includes)
    || not (is_empty_list q.required_excludes)
    || not (is_empty_list q.required_user_includes)
    || not (is_empty_list q.required_user_excludes)
    || not (is_empty_list q.ratings)

-- `Query.as_simple`
abbrev pub only_tag : List Str → Option Str
only_tag (tag ∷ []) = some tag
only_tag _ = none

unfoldable pub as_simple : Query → Option Str
as_simple q =
    if is_empty_list q.possible_includes
      && (is_empty_list q.required_excludes
          && (is_empty_list q.required_user_includes
              && (is_empty_list q.required_user_excludes && is_empty_list q.ratings)))
    then only_tag q.required_includes
    else none
