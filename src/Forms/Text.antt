-- ===== src/Forms/Text.antt =====
-- The string methods and character classes that weasyl/forms.py uses, over lists of code points.
use weasyl.Prelude.{
  ℕ, ◌+◌, Bool, true, false, ◌&&◌, ◌||◌, List, [], ◌∷◌, ◌++◌, map, reverse, ◌==◌, leb,
  if◌then◌else◌,
}

abbrev pub Str : Type 0
Str = List ℕ

-- `re.sub` of a negated class by "", and `filter(None, …)`.
abbrev pub filter {ℓ} : {A : Type ℓ} → (A → Bool) → List A → List A
filter p [] = []
filter p (x ∷ xs) = if p x then x ∷ filter p xs else filter p xs

-- The truth value of a string.
abbrev pub truthy : Str → Bool
truthy [] = false
truthy (c ∷ s) = true

abbrev pub cons_head : ℕ → List Str → List Str
cons_head c [] = (c ∷ []) ∷ []
cons_head c (w ∷ ws) = (c ∷ w) ∷ ws

-- `s.split(sep)`: always at least one word, which may be empty.
abbrev pub split : ℕ → Str → List Str
split sep [] = [] ∷ []
split sep (c ∷ s) = if c == sep then [] ∷ split sep s else cons_head c (split sep s)

-- `sep.join(words)`
abbrev pub join : ℕ → List Str → Str
join sep [] = []
join sep (w ∷ []) = w
join sep (w ∷ v ∷ ws) = w ++ sep ∷ join sep (v ∷ ws)

-- `bytes.isdigit`, `[0-9a-z]`, `\w` under `re.ASCII`.
abbrev pub is_digit : ℕ → Bool
is_digit c = leb b'0' c && leb c b'9'

abbrev pub is_lower : ℕ → Bool
is_lower c = leb b'a' c && leb c b'z'

abbrev pub is_upper : ℕ → Bool
is_upper c = leb b'A' c && leb c b'Z'

abbrev pub is_lower_alnum : ℕ → Bool
is_lower_alnum c = is_digit c || is_lower c

abbrev pub is_alnum : ℕ → Bool
is_alnum c = is_lower_alnum c || is_upper c

abbrev pub is_word : ℕ → Bool
is_word c = is_alnum c || c == b'_'

-- `str.lower` of an ASCII string.
abbrev pub lower_char : ℕ → ℕ
lower_char c = if is_upper c then c + 32 else c

abbrev pub lower : Str → Str
lower = map lower_char

-- `str.isspace` of one character, and `str.strip`.
abbrev pub is_between : ℕ → ℕ → ℕ → Bool
is_between low high c = leb low c && leb c high

abbrev pub is_space : ℕ → Bool
is_space c =
    is_between 9 13 c
    || is_between 28 32 c
    || c == 133
    || c == 160
    || c == 5760
    || is_between 8192 8202 c
    || is_between 8232 8233 c
    || c == 8239
    || c == 8287
    || c == 12288

abbrev pub lstrip : Str → Str
lstrip [] = []
lstrip (c ∷ s) = if is_space c then lstrip s else c ∷ s

unfoldable pub strip : Str → Str
strip s = reverse (lstrip (reverse (lstrip s)))

-- `s.split()` and `re.split` by a class of characters with the empty pieces left out: the words
-- between separators. The word that is read so far comes first.
abbrev pub emit : Str → List Str → List Str
emit [] ws = ws
emit (c ∷ w) ws = (c ∷ w) ∷ ws

abbrev pub cons_word : ℕ → Str × List Str → Str × List Str
cons_word c (w, ws) = (c ∷ w, ws)

abbrev pub close_word : Str × List Str → List Str
close_word (w, ws) = emit w ws

abbrev pub words_from : (ℕ → Bool) → Str → Str × List Str
words_from sep [] = ([], [])
words_from sep (c ∷ s) =
    let rest = words_from sep s in if sep c then ([], close_word rest) else cons_word c rest

abbrev pub words : (ℕ → Bool) → Str → List Str
words sep s = close_word (words_from sep s)
