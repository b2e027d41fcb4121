-- ===== src/Users/Names.antt =====
-- A name that `Username.create` makes is stored and looked up as it is.
use weasyl.Prelude.{
  ◌≤◌, ◌≡◌, ◌∙◌, refl, sym, ap, subst, true, false, some, [], ◌∷◌, map, arith, length, all,
}
use weasyl.Forms.Text.{Str, filter, join, words, truthy, is_space, is_lower_alnum, lower}
use weasyl.Users.{
  Unicode, Username, created, is_name_char, is_banned, get_sysname_unchecked, from_stored, clean,
  create, check_name, parse_sysname,
}
use weasyl.Users.Words.{
  is_ascii, IsAsciiFaithful, core, core-length, core-join, cores-filter, core-words,
  filter-AreNameWords, join-display, display-ascii, display-print, display-semicolon, words-join,
  clean_same, clean-display, is_display_char, truthy-length,
}

module _ (unicode : Unicode) (faithful : IsAsciiFaithful unicode) where
  -- A cleaned text has nothing to clean.
  clean-clean : (text : Str) → clean unicode (clean unicode text) ≡ clean unicode text
  unfolding clean
  clean-clean text =
      let ws = filter truthy (map (filter is_name_char) (words is_space (unicode.nfkd text))) in
      let good = filter-AreNameWords (words is_space (unicode.nfkd text)) in
      let ascii = display-ascii (join b' ' ws) (join-display ws good) in
      ap (λ s. join b' ' (filter truthy (map (filter is_name_char) (words is_space s))))
        (faithful (join b' ' ws) ascii).0
      ∙ ap (λ vs. join b' ' (filter truthy (map (filter is_name_char) vs))) (words-join ws good)
      ∙ ap (join b' ') (clean_same ws good)

  sysname-core : (s : Str) → is_ascii s ≡ true → get_sysname_unchecked unicode s ≡ core s
  unfolding get_sysname_unchecked
  sysname-core s h = ap (filter is_lower_alnum) (faithful s h).1

  lower-ascii : (s : Str) → is_ascii s ≡ true → is_ascii (lower s) ≡ true
  lower-ascii [] h = refl
  lower-ascii (c ∷ s) h = ground (arith, lower-ascii s)

  parse-core :
      (s : Str)
      → is_ascii s ≡ true
      → filter is_lower_alnum (unicode.nfkd (unicode.lower_all s)) ≡ core s
  parse-core s h =
      ap (λ t. filter is_lower_alnum (unicode.nfkd t)) (faithful s h).1
      ∙ ap (filter is_lower_alnum) (faithful (lower s) (lower-ascii s h)).0

  clean-core : (text : Str) → is_ascii text ≡ true → core (clean unicode text) ≡ core text
  unfolding clean
  clean-core text h =
      let ws = words is_space (unicode.nfkd text) in
      core-join (filter truthy (map (filter is_name_char) ws))
      ∙ cores-filter ws
      ∙ core-words (unicode.nfkd text)
      ∙ ap core (faithful text h).0

-- What `Username.create` has checked.
create-checked :
    (unicode : Unicode) (text : Str) (name : Username)
    → create unicode text ≡ created name
    → (clean unicode text ≡ name.display)
      × (get_sysname_unchecked unicode (clean unicode text) ≡ name.sysname)
      × (length (clean unicode text) ≤ 25)
      × (truthy (get_sysname_unchecked unicode (clean unicode text)) ≡ true)
      × (is_banned (get_sysname_unchecked unicode (clean unicode text)) ≡ false)
unfolding create check_name
create-checked unicode text name h =
    (ground arith, ground arith, ground arith, ground arith, ground arith)

parse_sysname-some :
    (unicode : Unicode) (faithful : IsAsciiFaithful unicode) (s : Str)
    → is_ascii s ≡ true
    → truthy (core s) ≡ true
    → length (core s) ≤ 25
    → parse_sysname unicode s ≡ some (core s)
unfolding parse_sysname
parse_sysname-some unicode faithful s h full short =
    let positive = truthy-length (core s) full in
    rw (parse-core unicode faithful s h) (ground (arith, positive))

create-clean :
    (unicode : Unicode) (faithful : IsAsciiFaithful unicode) (text : Str)
    → create unicode (clean unicode text) ≡ create unicode text
unfolding create
create-clean unicode faithful text = ap (check_name unicode) (clean-clean unicode faithful text)

from_stored-some :
    (unicode : Unicode) (s : Str)
    → all is_display_char s ≡ true
    → length s ≤ 25
    → truthy (get_sysname_unchecked unicode s) ≡ true
    → from_stored unicode s
      ≡ some (record { display = s; sysname = get_sysname_unchecked unicode s })
unfolding from_stored
from_stored-some unicode s shown short full =
    let ascii = display-ascii s shown in
    let print = display-print s shown in
    let plain = display-semicolon s shown in ground (arith, ascii, print, plain)

-- For ASCII text, `parse_sysname` finds the canonical name of the user that `Username.create` makes out
-- of it. The tables of Unicode leave ASCII as it is, but for the case.
pub parse_sysname-create :
    (unicode : Unicode) (faithful : IsAsciiFaithful unicode) (text : Str) (name : Username)
    → is_ascii text ≡ true
    → create unicode text ≡ created name
    → parse_sysname unicode text ≡ some name.sysname
parse_sysname-create unicode faithful text name ascii made =
    let (shown, canonical, short, full, free) = create-checked unicode text name made in
    let cleaned = display-ascii (clean unicode text) (clean-display unicode text) in
    let same : get_sysname_unchecked unicode (clean unicode text) ≡ core text =
      sysname-core unicode faithful (clean unicode text) cleaned
      ∙ clean-core unicode faithful text ascii in
    let fits : length (core text) ≤ 25 =
      subst (λ t. length t ≤ 25) (clean-core unicode faithful text ascii)
        (omega (arith, core-length (clean unicode text), short)) in
    parse_sysname-some unicode faithful text ascii (subst (λ t. truthy t ≡ true) same full) fits
    ∙ ap some (sym same ∙ canonical)

-- A name that `Username.create` makes is read back from the database as it is, made again it is the
-- same, and `parse_sysname` finds its canonical name, whatever text it was made of. The tables of
-- Unicode leave ASCII as it is, but for the case.
pub from_stored-create :
    (unicode : Unicode) (faithful : IsAsciiFaithful unicode) (text : Str) (name : Username)
    → create unicode text ≡ created name
    → (from_stored unicode name.display ≡ some name)
      × (create unicode name.display ≡ created name)
      × (parse_sysname unicode name.display ≡ some name.sysname)
from_stored-create unicode faithful text name made =
    let (shown, canonical, short, full, free) = create-checked unicode text name made in
    let cleaned = clean unicode text in
    let stored : from_stored unicode cleaned ≡ some name =
      from_stored-some unicode cleaned (clean-display unicode text) short full
      ∙ ground (arith, shown, canonical) in
    let again : create unicode cleaned ≡ created name = create-clean unicode faithful text ∙ made in
    let found =
      parse_sysname-create unicode faithful cleaned name
        (display-ascii cleaned (clean-display unicode text)) again in
    subst
      (λ d.
        (from_stored unicode d ≡ some name)
        × (create unicode d ≡ created name)
        × (parse_sysname unicode d ≡ some name.sysname))
      shown (stored, again, found)
