-- ===== src/Forms.antt =====
-- weasyl/forms.py: ids and tags out of form fields. A string is the list of its code points.
pub mod Text
pub mod Ids
pub mod Tags
use weasyl.Prelude.{
  ℕ, ◌+◌, ◌-◌, ◌*◌, ◌^◌, Bool, true, false, not, ◌&&◌, ◌||◌, Option, none, some, List, [], ◌∷◌, map,
  ◌==◌, leb, ltb, if◌then◌else◌, length, all,
}
use weasyl.Forms.Text.{
  Str, filter, split, join, truthy, is_digit, is_word, lower, lower_char, is_lower_alnum,
}

-- `WeasylError(code)`, and the failure of an `assert`.
pub data FormError : Type 0 where
  unexpected tag_too_long assertion_failed : FormError

pub data Result (A : Type 0) : Type 0 where
  ok : A → Result A
  err : FormError → Result A

-- `int(bs)` of decimal digits, from the digits before.
unfoldable pub int_from : ℕ → Str → ℕ
int_from acc [] = acc
int_from acc (c ∷ s) = int_from (acc * 10 + (c - b'0')) s

abbrev pub starts_with_zero : Str → Bool
starts_with_zero [] = false
starts_with_zero (c ∷ s) = c == b'0'

-- `expect_id`. UTF-8 turns what is no ASCII digit into bytes that are none.
unfoldable pub expect_id : Str → Result ℕ
unfolding int_from
expect_id s =
    if leb 1 (length s)
      && (leb (length s) 10
          && (all is_digit s && (not (starts_with_zero s) && leb (int_from 0 s) (2 ^ 31 - 1))))
    then ok (int_from 0 s)
    else err unexpected

-- `expect_ids`: the first bad id raises.
pub expect_ids : List Str → Result (List ℕ)
unfolding expect_id
expect_ids [] = ok []
expect_ids (s ∷ values) = elim (expect_id s) [
  | err e ↦ err e
  | ok n ↦ elim (expect_ids values) [ err e ↦ err e | ok ns ↦ ok (n ∷ ns) ]
]

-- `only`
pub only : {A : Type 0} → List A → Result A
only (x ∷ []) = ok x
only _ = err unexpected

abbrev pub tag_max_length : ℕ
tag_max_length = 162

-- `"_".join(filter(None, s.split("_")))`
unfoldable pub collapse : Str → Str
collapse s = join b'_' (filter truthy (split b'_' s))

-- `parse_tag`
unfoldable pub parse_tag : Str → Result (Option Str)
unfolding collapse
parse_tag s =
    if not (all (λ c. not (c == b' ')) s)
    then err assertion_failed
    else let t = collapse (filter is_word s) in
      if ltb tag_max_length (length t)
      then err tag_too_long
      else if truthy t
      then ok (some (lower t))
      else ok none

-- `_NORMALIZED_TAG.fullmatch`, as the automaton of `[0-9a-z]+(?:_[0-9a-z]+)*`: before the first
-- character of a word, and behind it.
mutual
  pub match_word : Str → Bool
  match_word [] = false
  match_word (c ∷ s) = is_lower_alnum c && match_rest s

  pub match_rest : Str → Bool
  match_rest [] = true
  match_rest (c ∷ s) = (is_lower_alnum c && match_rest s) || (c == b'_' && match_word s)

-- `expect_tag`
pub expect_tag : Str → Result Str
unfolding match_word
expect_tag s =
    if ltb 0 (length s) && (leb (length s) tag_max_length && match_word s)
    then ok s
    else err unexpected
