-- ===== src/BlockedTags/Writes.antt =====
-- `insert` and `remove_list` of weasyl/blocktag.py, with `parse_tags` of weasyl/searchtag.py, and the check of
-- a rating against the age of a user in weasyl/profile.py and weasyl/define.py.
use weasyl.Prelude.{
  ℕ, Bool, true, not, ◌&&◌, ◌||◌, Option, none, some, List, [], ◌∷◌, ◌==◌, ltb, any, if◌then◌else◌,
}
use weasyl.Prelude.Int.{ℤ, pos, leb_ℤ, ◌-ℤ◌}
use weasyl.Prelude.Strings.{same}
use weasyl.Sql.{exists, first, delete, insert, update, elem}
use weasyl.Forms
use weasyl.Forms.Text.{Str, words, is_space}
use weasyl.Database.{
  BlocktagRow, ActionOn, Error, pure, raise, raise_if, gets, modify, ◌>>=◌, ◌>>◌, unexpected,
  rating_invalid, tag_too_long, assertion_failed,
}
use weasyl.SearchTags.Tables.{Tagging}
use weasyl.SearchTags.Names.{get_or_create_many}

pub record Date : Type 0 where
  pub year : ℕ
  pub month : ℕ
  pub day : ℕ

-- `userinfo`, and the date of today.
pub record UserInfo : Type 0 where
  pub userid : ℕ
  pub birthday : Option Date

pub record Blocking : Type 0 where
  pub tagging : Tagging
  pub users : List UserInfo
  pub today : Date

-- `(now.month, now.day) < (birthdate.month, birthdate.day)`
abbrev pub is_upcoming : Date → Date → Bool
is_upcoming now birthdate =
    ltb now.month birthdate.month || (now.month == birthdate.month && ltb now.day birthdate.day)

-- `age_in_years`, which is negative for a date in the future.
unfoldable pub age_in_years : Date → Date → ℤ
age_in_years now birthdate =
    (pos now.year -ℤ pos birthdate.year) -ℤ pos (if is_upcoming now birthdate then 1 else 0)

-- `get_user_age`
abbrev pub age_of : Date → Option UserInfo → Option ℤ
age_of now none = none
age_of now (some u) = elim u.birthday [ none ↦ none | some b ↦ some (age_in_years now b) ]

unfoldable pub get_user_age : ℕ → Blocking → Option ℤ
unfolding age_in_years
get_user_age userid db = age_of db.today (first (λ u. u.userid == userid) db.users)

-- The `minimum_age` of the rating with a code.
abbrev pub minimum_age : ℕ → ℕ
minimum_age rating = if rating == 30 || rating == 40 then 18 else 0

-- `is_user_rating_allowed`
abbrev pub is_old_enough : ℕ → Option ℤ → Bool
is_old_enough rating none = true
is_old_enough rating (some age) = leb_ℤ (pos (minimum_age rating)) age

unfoldable pub is_user_rating_allowed : ℕ → ℕ → Blocking → Bool
unfolding get_user_age
is_user_rating_allowed userid rating db = is_old_enough rating (get_user_age userid db)

-- `if rating not in ratings.CODE_MAP`
abbrev pub known_rating : ℕ → ℕ
known_rating rating = if elem rating (10 ∷ 30 ∷ 40 ∷ []) then rating else 10

-- `parse_tags`: a set as a list without repetitions, where a tag that is too long raises.
abbrev pub tag_error : Forms.FormError → Error
tag_error Forms.unexpected = unexpected
tag_error Forms.tag_too_long = tag_too_long
tag_error Forms.assertion_failed = assertion_failed

abbrev pub add_tag : Option Str → List Str → List Str
add_tag none tags = tags
add_tag (some tag) tags = if any (same tag) tags then tags else tag ∷ tags

unfoldable pub parse_words : {S : Type 0} → List Str → ActionOn S (List Str)
parse_words [] = pure []
parse_words (word ∷ rest) = elim (Forms.parse_tag word) [
  | Forms.err e ↦ raise (tag_error e)
  | Forms.ok tag ↦ parse_words rest >>= λ tags. pure (add_tag tag tags)
]

unfoldable pub parse_tags : {S : Type 0} → Str → ActionOn S (List Str)
unfolding parse_words
parse_tags text = parse_words (words (λ c. is_space c || c == b',') text)

-- The upsert of `insert`.
abbrev pub is_blocktag : ℕ → ℕ → BlocktagRow → Bool
is_blocktag userid tagid b = b.userid == userid && b.tagid == tagid

abbrev pub block_tag : ℕ → ℕ → ℕ → List BlocktagRow → List BlocktagRow
block_tag userid rating tagid rows =
    if exists (is_blocktag userid tagid) rows
    then update (is_blocktag userid tagid) (λ b. record b { rating = rating }) rows
    else insert (record { userid = userid; tagid = tagid; rating = rating }) rows

unfoldable pub block_tags : ℕ → ℕ → List ℕ → List BlocktagRow → List BlocktagRow
block_tags userid rating [] rows = rows
block_tags userid rating (tagid ∷ tagids) rows =
    block_tags userid rating tagids (block_tag userid rating tagid rows)

unfoldable pub set_blocktags : List BlocktagRow → Tagging → Tagging
set_blocktags rows t = record t { site = record t.site { blocktags = rows } }

unfoldable pub write_tags : ℕ → ℕ → List Str → Tagging → Tagging
unfolding block_tags set_blocktags
write_tags userid rating names t =
    let (tagids, t') = get_or_create_many names t in
    set_blocktags (block_tags userid rating tagids t'.site.blocktags) t'

-- `insert`
unfoldable pub insert_blocked : ℕ → Str → ℕ → ActionOn Blocking Unit
unfolding is_user_rating_allowed parse_tags write_tags
insert_blocked userid tags rating = do
  raise_if (not (← gets (is_user_rating_allowed userid (known_rating rating)))) rating_invalid
  names ← parse_tags tags
  modify (λ db. record db { tagging = write_tags userid (known_rating rating) names db.tagging })

-- `remove_list`; an empty list of titles matches no row.
unfoldable pub remove_blocked : ℕ → List Str → Tagging → Tagging
unfolding set_blocktags
remove_blocked userid tags t =
    set_blocktags
      (delete
        (λ b.
          b.userid == userid && exists (λ n. n.tagid == b.tagid && any (same n.title) tags) t.names)
        t.site.blocktags)
      t
