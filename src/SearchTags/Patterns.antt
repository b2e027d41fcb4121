-- ===== src/SearchTags/Patterns.antt =====
-- Patterns of restricted tags in weasyl/searchtag.py: at most one `*`, which stands for any text.
pub mod Stars
use weasyl.Prelude.{
  ℕ, ◌+◌, Bool, true, false, not, ◌&&◌, ◌||◌, Option, none, some, List, [], ◌∷◌, ◌++◌, ◌==◌, leb,
  ltb, if◌then◌else◌, length, any,
}
use weasyl.Forms.{FormError, tag_too_long, Result, ok, err, tag_max_length, collapse, parse_tag}
use weasyl.Forms.Text.{Str, filter, truthy, is_word, lower}

abbrev pub star : ℕ
star = b'*'

abbrev pub is_star : ℕ → Bool
is_star c = c == star

-- `text.split("*", 1)`: the text before the first star, and, if there is one, the text behind it.
unfoldable pub split_star : Str → Str × Option Str
split_star [] = ([], none)
split_star (c ∷ s) =
    if is_star c then ([], some s) else let (prefix, suffix) = split_star s in (c ∷ prefix, suffix)

-- The characters that `_NON_PATTERN` does not match: `[\w*]`.
abbrev pub is_pattern_char : ℕ → Bool
is_pattern_char c = is_word c || is_star c

-- The branches on the parts of a pattern in lower case.
abbrev pub limit_star : Str → Str × Option Str → Option Str
limit_star text (prefix, none) = some text
limit_star text (prefix, some suffix) =
    let rest = filter (λ c. not (is_star c)) suffix in
    if leb 2 (length prefix + length rest) then some (prefix ++ star ∷ rest) else none

-- `_parse_pattern`
unfoldable pub parse_pattern : Str → Result (Option Str)
parse_pattern s =
    let text = collapse (filter is_pattern_char s) in
    if not (truthy text)
    then ok none
    else if ltb tag_max_length (length text)
    then err tag_too_long
    else ok (limit_star (lower text) (split_star (lower text)))

-- `re.fullmatch` of a pattern in which `*` is replaced by `.*`. The `.` fits any character of a tag,
-- and the search goes back to try every length for it.
abbrev pub tries : (Str → Bool) → Str → Bool
tries rest [] = rest []
tries rest (c ∷ s) = rest (c ∷ s) || tries rest s

abbrev pub then_rest : ℕ → (Str → Bool) → Str → Bool
then_rest p rest [] = false
then_rest p rest (c ∷ s) = c == p && rest s

abbrev pub at_end : Str → Bool
at_end [] = true
at_end (c ∷ s) = false

unfoldable pub fullmatch : Str → Str → Bool
fullmatch [] s = at_end s
fullmatch (p ∷ pattern) s =
    let rest = fullmatch pattern in if is_star p then tries rest s else then_rest p rest s

-- `_get_restricted_tag_matcher`: the alternatives are the patterns. For no patterns the expression is
-- empty and fits only the empty text.
pub is_restricted : List Str → Str → Bool
is_restricted [] name = at_end name
is_restricted (p ∷ patterns) name = any (λ pattern. fullmatch pattern name) (p ∷ patterns)
