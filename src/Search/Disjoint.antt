-- ===== src/Search/Disjoint.antt =====
-- The three sets of tags of a parsed query have nothing in common.
use weasyl.Prelude.{
  ◌≡◌, ◌≢◌, refl, ap, subst, Bool, true, false, not, List, [], ◌∷◌, arith, length, all, Bool-cases,
  inl, inr,
}
use weasyl.Prelude.Strings.{same, same_refl, same-eq}
use weasyl.Sql.Laws.{exists-append}
use weasyl.Forms.{Result, ok, err}
use weasyl.Forms.Text.{Str, words, strip}
use weasyl.Users.{Unicode}
use weasyl.Search.{
  Query, SearchType, contains, add, difference, require_single, settle_sets, parse, add_criteria,
  empty_query, is_delimiter,
}

abbrev pub avoids : List Str → List Str → Bool
avoids ys xs = all (λ x. not (contains x ys)) xs

difference-avoids : (xs ys : List Str) → avoids ys (difference xs ys) ≡ true
unfolding difference
difference-avoids [] ys = refl
difference-avoids (x ∷ xs) ys = ground (arith, difference-avoids xs ys)

difference-keeps : (xs ys zs : List Str) → avoids ys xs ≡ true → avoids ys (difference xs zs) ≡ true
unfolding difference
difference-keeps [] ys zs h = refl
difference-keeps (x ∷ xs) ys zs h = ground (arith, difference-keeps xs ys zs)

same_sym : (s t : Str) → same s t ≡ false → same t s ≡ false
same_sym s t h = elim (Bool-cases (same t s)) [
  | inl e ↦ absurd (ground (arith, h, subst (λ u. same u t ≡ true) (same-eq t s e) (same_refl t)))
  | inr e ↦ e
]

contains-add :
    (x y : Str) (xs : List Str)
    → contains y xs ≡ false
    → same y x ≡ false
    → contains y (add x xs) ≡ false
unfolding add
contains-add x y xs h e = ground (arith, exists-append (same y) xs (x ∷ []))

-- A tag outside of a set may be added to what the set avoids.
avoids-add :
    (x : Str) (xs ys : List Str)
    → avoids ys xs ≡ true
    → contains x xs ≡ false
    → avoids (add x ys) xs ≡ true
avoids-add x [] ys h e = refl
avoids-add x (z ∷ xs) ys h e = ground (arith, contains-add x z ys, same_sym x z, avoids-add x xs ys)

-- No tag is in two of the sets, and no query has a single possible tag.
abbrev pub IsSettled : Query → Type 0
IsSettled q =
    (avoids q.required_includes q.possible_includes ≡ true)
    × (avoids q.required_excludes q.possible_includes ≡ true)
    × (avoids q.required_includes q.required_excludes ≡ true)
    × (length q.possible_includes ≢ 1)

settle_sets-IsSettled :
    (find_default : SearchType) (q : Query) → IsSettled (settle_sets find_default q)
unfolding settle_sets
settle_sets-IsSettled find_default q =
    let excludes = difference q.required_excludes q.required_includes in
    let open_tags = difference q.possible_includes q.required_includes in
    by_cases q.required_includes excludes (difference open_tags excludes)
      (difference-keeps open_tags q.required_includes excludes
        (difference-avoids q.possible_includes q.required_includes))
      (difference-avoids open_tags excludes)
      (difference-avoids q.required_excludes q.required_includes)
  where
    by_cases :
        (required excludes possible : List Str)
        → avoids required possible ≡ true
        → avoids excludes possible ≡ true
        → avoids required excludes ≡ true
        → let (possible', required') = require_single possible required in
          (avoids required' possible' ≡ true)
          × (avoids excludes possible' ≡ true)
          × (avoids required' excludes ≡ true)
          × (length possible' ≢ 1)
    by_cases required excludes [] hr he hx = (hr, he, hx, λ e. absurd (omega (arith, e)))
    by_cases required excludes (x ∷ []) hr he hx = (
      refl,
      refl,
      avoids-add x excludes required hx (ground arith),
      λ e. absurd (omega (arith, e)),
    )
    by_cases required excludes (x ∷ y ∷ possible) hr he hx =
        (hr, he, hx, λ e. absurd (omega (arith, e)))

ok_injective : (q r : Query) → ok q ≡ ok r → q ≡ r
ok_injective q r e = ap (λ x. elim x as (λ _. Query) [ ok a ↦ a | err _ ↦ q ]) e

-- In a query that `Query.parse` returns, no tag is in two of the sets of possible, required and excluded
-- tags, and there is never a single possible tag, which would be required.
pub parse-IsSettled :
    (unicode : Unicode) (query_string : Str) (find_default : SearchType) (q : Query)
    → parse unicode query_string find_default ≡ ok q
    → IsSettled q
unfolding parse
parse-IsSettled unicode query_string find_default q e =
    settled (add_criteria unicode (words is_delimiter (strip query_string)) empty_query) e
  where
    settled :
        (r : Result Query)
        → (elim r as (λ _. Result Query) [ err e ↦ err e | ok q ↦ ok (settle_sets find_default q) ])
          ≡ ok q
        → IsSettled q
    settled (err _) e = absurd (ground (arith, e))
    settled (ok q') e =
        subst IsSettled (ok_injective (settle_sets find_default q') q e)
          (settle_sets-IsSettled find_default q')
