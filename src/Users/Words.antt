-- ===== src/Users/Words.antt =====
-- The words that `Username.create` cleans a text into, and the letters and digits it keeps.
use mathlib.Core.List.{append-nil}
use weasyl.Prelude.{
  ℕ, ◌≤◌, ◌<◌, ◌≡◌, ◌∙◌, refl, sym, ap, Bool, true, false, not, ◌&&◌, List, [], ◌∷◌, ◌++◌, map,
  arith, ◌==◌, ltb, length, all, any, All, Bool-cases, inl, inr,
}
use weasyl.Forms.Text.{
  Str, filter, join, words, words_from, close_word, emit, truthy, is_between, is_space,
  is_lower_alnum, lower, lower_char,
}
use weasyl.Users.{Unicode, is_name_char, clean}

-- What the tables of Unicode say of ASCII text.
abbrev pub is_ascii : Str → Bool
is_ascii s = all (λ c. ltb c 128) s

abbrev pub IsAsciiFaithful : Unicode → Type 0
IsAsciiFaithful unicode =
    (s : Str) → is_ascii s ≡ true → (unicode.nfkd s ≡ s) × (unicode.lower_all s ≡ lower s)

-- The letters and digits of a text, in lower case.
abbrev pub core : Str → Str
core s = filter is_lower_alnum (lower s)

core-append : (s t : Str) → core (s ++ t) ≡ core s ++ core t
core-append [] t = refl
core-append (c ∷ s) t = ground (arith, core-append s t)

core-filter : (s : Str) → core (filter is_name_char s) ≡ core s
core-filter [] = refl
core-filter (c ∷ s) = ground (arith, core-filter s)

abbrev pub cores : List Str → Str
cores [] = []
cores (w ∷ ws) = core w ++ cores ws

pub core-join : (ws : List Str) → core (join b' ' ws) ≡ cores ws
core-join [] = refl
core-join (w ∷ []) = sym (append-nil (core w))
core-join (w ∷ v ∷ ws) =
    core-append w (b' ' ∷ join b' ' (v ∷ ws)) ∙ ap (λ t. core w ++ t) (core-join (v ∷ ws))

pub cores-filter : (ws : List Str) → cores (filter truthy (map (filter is_name_char) ws)) ≡ cores ws
cores-filter [] = refl
cores-filter (w ∷ ws) = elim (Bool-cases (truthy (filter is_name_char w))) [
  | inl e ↦ rw (e, core-filter w, cores-filter ws) refl
  | inr e ↦
      rw e (
        cores-filter ws ∙ ap (λ t. t ++ cores ws) (empty (filter is_name_char w) e ∙ core-filter w))
]
  where
    empty : (w : Str) → truthy w ≡ false → [] ≡ core w
    empty [] e = refl
    empty (c ∷ w) e = cc

cores-emit : (w : Str) (ws : List Str) → cores (emit w ws) ≡ core w ++ cores ws
cores-emit [] ws = refl
cores-emit (c ∷ w) ws = refl

pub core-words : (s : Str) → cores (words is_space s) ≡ core s
core-words s = cores-emit (words_from is_space s).0 (words_from is_space s).1 ∙ both s
  where
    both : (s : Str) → core (words_from is_space s).0 ++ cores (words_from is_space s).1 ≡ core s
    both [] = refl
    both (c ∷ s) = elim (Bool-cases (is_space c)) [
      | inl e ↦
          let other : is_lower_alnum (lower_char c) ≡ false = ground arith in
          rw (e, other) (cores-emit (words_from is_space s).0 (words_from is_space s).1 ∙ both s)
      | inr e ↦ rw e (ground (arith, both s))
    ]

-- Words of name characters.
abbrev pub IsNameWord : Str → Type 0
IsNameWord w = (truthy w ≡ true) × (all is_name_char w ≡ true)

abbrev pub AreNameWords : List Str → Type 0
AreNameWords ws = All IsNameWord ws

all-filter : (w : Str) → all is_name_char (filter is_name_char w) ≡ true
all-filter [] = refl
all-filter (c ∷ w) = ground (arith, all-filter w)

pub filter-AreNameWords :
    (ws : List Str) → AreNameWords (filter truthy (map (filter is_name_char) ws))
filter-AreNameWords [] = tt
filter-AreNameWords (w ∷ ws) = elim (Bool-cases (truthy (filter is_name_char w))) [
  | inl e ↦ rw e ((e, all-filter w), filter-AreNameWords ws)
  | inr e ↦ rw e (filter-AreNameWords ws)
]

words_from-last : (w : Str) → all is_name_char w ≡ true → words_from is_space w ≡ (w, [])
words_from-last [] h = refl
words_from-last (c ∷ w) h =
    let other : is_space c ≡ false = ground arith in
    rw (other, words_from-last w (ground arith)) refl

words_from-word :
    (w s : Str)
    → all is_name_char w ≡ true
    → words_from is_space (w ++ b' ' ∷ s) ≡ (w, words is_space s)
words_from-word [] s h = refl
words_from-word (c ∷ w) s h =
    let other : is_space c ≡ false = ground arith in
    rw (other, words_from-word w s (ground arith)) refl

emit_word : (w : Str) (ws : List Str) → truthy w ≡ true → emit w ws ≡ w ∷ ws
emit_word [] ws h = cc
emit_word (c ∷ w) ws h = refl

pub words-join : (ws : List Str) → AreNameWords ws → words is_space (join b' ' ws) ≡ ws
words-join [] h = refl
words-join (w ∷ []) ((full, chars), _) =
    ap close_word (words_from-last w chars) ∙ emit_word w [] full
words-join (w ∷ v ∷ ws) ((full, chars), rest) =
    ap close_word (words_from-word w (join b' ' (v ∷ ws)) chars)
    ∙ emit_word w (words is_space (join b' ' (v ∷ ws))) full
    ∙ ap (◌∷◌ w) (words-join (v ∷ ws) rest)

filter_same : (w : Str) → all is_name_char w ≡ true → filter is_name_char w ≡ w
filter_same [] h = refl
filter_same (c ∷ w) h = ground (arith, filter_same w)

pub clean_same :
    (ws : List Str) → AreNameWords ws → filter truthy (map (filter is_name_char) ws) ≡ ws
clean_same [] h = refl
clean_same (w ∷ ws) ((full, chars), rest) = rw (filter_same w chars, full, clean_same ws rest) refl

-- What a name shows.
abbrev pub is_display_char : ℕ → Bool
is_display_char c = is_between b' ' b'~' c && not (c == b';')

all-append :
    (s t : Str)
    → all is_display_char s ≡ true
    → all is_display_char t ≡ true
    → all is_display_char (s ++ t) ≡ true
all-append [] t hs ht = ht
all-append (c ∷ s) t hs ht = ground (arith, all-append s t)

word-display : (w : Str) → all is_name_char w ≡ true → all is_display_char w ≡ true
word-display [] h = refl
word-display (c ∷ w) h = ground (arith, word-display w)

pub join-display : (ws : List Str) → AreNameWords ws → all is_display_char (join b' ' ws) ≡ true
join-display [] h = refl
join-display (w ∷ []) ((_, chars), _) = word-display w chars
join-display (w ∷ v ∷ ws) ((_, chars), rest) =
    all-append w (b' ' ∷ join b' ' (v ∷ ws)) (word-display w chars)
      (ground (arith, join-display (v ∷ ws) rest))

pub display-ascii : (s : Str) → all is_display_char s ≡ true → is_ascii s ≡ true
display-ascii [] h = refl
display-ascii (c ∷ s) h = ground (arith, display-ascii s)

pub display-print : (s : Str) → all is_display_char s ≡ true → all (is_between b' ' b'~') s ≡ true
display-print [] h = refl
display-print (c ∷ s) h = ground (arith, display-print s)

pub display-semicolon : (s : Str) → all is_display_char s ≡ true → any (λ c. c == b';') s ≡ false
display-semicolon [] h = refl
display-semicolon (c ∷ s) h = ground (arith, display-semicolon s)

pub core-length : (s : Str) → length (core s) ≤ length s
core-length [] = omega arith
core-length (c ∷ s) = ground (arith, core-length s)

pub truthy-length : (s : Str) → truthy s ≡ true → 0 < length s
truthy-length [] h = cc
truthy-length (c ∷ s) h = omega arith

pub clean-display :
    (unicode : Unicode) (text : Str) → all is_display_char (clean unicode text) ≡ true
unfolding clean
clean-display unicode text =
    join-display _ (filter-AreNameWords (words is_space (unicode.nfkd text)))
