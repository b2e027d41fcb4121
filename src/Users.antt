-- ===== src/Users.antt =====
-- weasyl/users.py, and `parse_sysname` of weasyl/forms.py: names of users and the canonical names that
-- they are looked up by.
pub mod Words
pub mod Names
use weasyl.Prelude.{
  ◌≡◌, ◌⊎◌, refl, inl, inr, ℕ, Bool, true, false, not, ◌&&◌, ◌||◌, Option, none, some, List, [],
  ◌∷◌, map, ◌==◌, leb, ltb, if◌then◌else◌, length, all, any,
}
use weasyl.Prelude.Strings.{same, codes}
use weasyl.Forms.Text.{Str, filter, join, words, truthy, is_between, is_space, is_lower_alnum}

-- The tables of Unicode: `unicodedata.normalize("NFKD", s)` and `str.lower`.
pub record Unicode : Type 0 where
  pub nfkd : Str → Str
  pub lower_all : Str → Str

abbrev pub username_max_length : ℕ
username_max_length = 25

pub data UsernameError : Type 0 where
  username_invalid username_too_long username_banned : UsernameError

pub data Created (A : Type 0) : Type 0 where
  created : A → Created A
  refused : UsernameError → Created A

pub Created-cases :
    {A : Type 0} (c : Created A)
    → ((a : A) × (c ≡ created a)) ⊎ ((e : UsernameError) × (c ≡ refused e))
Created-cases (created a) = inl (a, refl)
Created-cases (refused e) = inr (e, refl)

pub record Username : Type 0 where
  pub display : Str
  pub sysname : Str

-- `_NON_USERNAME_WORD` leaves the characters `!` to `~` without the semicolon.
abbrev pub is_name_char : ℕ → Bool
is_name_char c = is_between b'!' b'~' c && not (c == b';')

abbrev pub banned_sysnames : List Str
banned_sysnames =
    codes "admin"
    ∷ codes "administrator"
    ∷ codes "mod"
    ∷ codes "moderator"
    ∷ codes "weasyl"
    ∷ codes "weasyladmin"
    ∷ codes "weasylmod"
    ∷ codes "staff"
    ∷ codes "security"
    ∷ []

abbrev pub is_banned : Str → Bool
is_banned sysname = any (same sysname) banned_sysnames

-- `_get_sysname_unchecked`
unfoldable pub get_sysname_unchecked : Unicode → Str → Str
get_sysname_unchecked unicode s = filter is_lower_alnum (unicode.lower_all s)

-- `Username.from_stored`, which raises `ValueError` where there is nothing here. Of an ASCII string
-- `isprintable` asks for the characters from the space to `~`.
unfoldable pub from_stored : Unicode → Str → Option Username
from_stored unicode stored =
    let sysname = get_sysname_unchecked unicode stored in
    if not (truthy sysname)
      || (ltb username_max_length (length stored)
          || (not (all (λ c. ltb c 128) stored)
              || (not (all (is_between b' ' b'~') stored) || any (λ c. c == b';') stored)))
    then none
    else some (record { display = stored; sysname = sysname })

-- The cleaned text of `Username.create`.
unfoldable pub clean : Unicode → Str → Str
clean unicode text =
    join b' ' (filter truthy (map (filter is_name_char) (words is_space (unicode.nfkd text))))

-- The checks of `Username.create` on the cleaned text.
unfoldable pub check_name : Unicode → Str → Created Username
check_name unicode cleaned =
    let sysname = get_sysname_unchecked unicode cleaned in
    if ltb username_max_length (length cleaned)
    then refused username_too_long
    else if not (truthy sysname)
    then refused username_invalid
    else if is_banned sysname
    then refused username_banned
    else created (record { display = cleaned; sysname = sysname })

-- `Username.create`
unfoldable pub create : Unicode → Str → Created Username
create unicode text = check_name unicode (clean unicode text)

-- `parse_sysname`
unfoldable pub parse_sysname : Unicode → Str → Option Str
parse_sysname unicode s =
    let sysname = filter is_lower_alnum (unicode.nfkd (unicode.lower_all s)) in
    if ltb 0 (length sysname) && leb (length sysname) username_max_length
    then some sysname
    else none
