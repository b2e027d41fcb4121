-- ===== src/Forms/Tags.antt =====
-- `parse_tag` and `expect_tag` of weasyl/forms.py agree on what a normalized tag is.
use mathlib.Core.List.{map-append, append-nil}
use weasyl.Prelude.{
  ℕ, suc, ◌<◌, ◌≡◌, refl, sym, ap, Bool, true, false, List, [], ◌∷◌, ◌++◌, arith, length, all, not,
  ◌||◌, ◌==◌, Bool-cases, inl, inr, All, some, ==_iff,
}
use weasyl.Forms.{ok, collapse, parse_tag, match_word, match_rest, expect_tag}
use weasyl.Forms.Text.{
  Str, filter, split, join, cons_head, truthy, is_word, is_alnum, is_lower_alnum, lower,
}

-- Text: words between underscores.
abbrev IsAlnumWord : Str → Type 0
IsAlnumWord w = all is_alnum w ≡ true

abbrev IsNonempty : Str → Type 0
IsNonempty w = 0 < length w

cons_head-All :
    (c : ℕ) (ws : List Str)
    → is_alnum c ≡ true
    → All IsAlnumWord ws
    → All IsAlnumWord (cons_head c ws)
cons_head-All c [] h a = (rw h, tt)
cons_head-All c (w ∷ ws) h a = (rw (h, a.0), a.1)

split-All : (s : Str) → all is_word s ≡ true → All IsAlnumWord (split b'_' s)
split-All [] h = (refl, tt)
split-All (c ∷ s) h = elim (Bool-cases (c == b'_')) [
  | inl e ↦ rw e (refl, split-All s (ground arith))
  | inr e ↦ rw e (cons_head-All c (split b'_' s) (ground arith) (split-All s (ground arith)))
]

filter-All :
    (ws : List Str)
    → All IsAlnumWord ws
    → All (λ w. IsNonempty w × IsAlnumWord w) (filter truthy ws)
filter-All [] a = tt
filter-All ([] ∷ ws) a = filter-All ws a.1
filter-All ((c ∷ w) ∷ ws) a = ((omega arith, a.0), filter-All ws a.1)

match_rest-word :
    (w t : Str) → IsAlnumWord w → match_rest t ≡ true → match_rest (lower w ++ t) ≡ true
unfolding match_rest
match_rest-word [] t a h = h
match_rest-word (c ∷ w) t a h = ground (arith, match_rest-word w t)

match_word-word :
    (w t : Str)
    → IsNonempty w
    → IsAlnumWord w
    → match_rest t ≡ true
    → match_word (lower w ++ t) ≡ true
unfolding match_word
match_word-word [] t n a h = absurd (omega arith)
match_word-word (c ∷ w) t n a h = ground (arith, match_rest-word w t)

match_rest-underscore : (t : Str) → match_word t ≡ true → match_rest (b'_' ∷ t) ≡ true
unfolding match_rest
match_rest-underscore t h = rw h

match_word-join :
    (w : Str) (ws : List Str)
    → All (λ v. IsNonempty v × IsAlnumWord v) (w ∷ ws)
    → match_word (lower (join b'_' (w ∷ ws))) ≡ true
match_word-join w [] ((n, a), _) =
    rw (← append-nil (lower w)) (match_word-word w [] n a (unfold match_rest in refl))
match_word-join w (v ∷ ws) ((n, a), rest) = rw map-append (
    match_word-word w _ n a
      (match_rest-underscore (lower (join b'_' (v ∷ ws))) (match_word-join v ws rest)))

length-lower : (s : Str) → length (lower s) ≡ length s
length-lower [] = refl
length-lower (c ∷ s) = ap suc (length-lower s)

all-filter : (s : Str) → all is_word (filter is_word s) ≡ true
all-filter [] = refl
all-filter (c ∷ s) = ground (arith, all-filter s)

-- What is left of a string is matched, unless nothing is left.
match_word-collapse :
    (s : Str)
    → truthy (collapse s) ≡ true
    → all is_word s ≡ true
    → match_word (lower (collapse s)) ≡ true
unfolding collapse
match_word-collapse s n h =
    go (filter truthy (split b'_' s)) n (filter-All (split b'_' s) (split-All s h))
  where
    go :
        (ws : List Str)
        → truthy (join b'_' ws) ≡ true
        → All (λ w. IsNonempty w × IsAlnumWord w) ws
        → match_word (lower (join b'_' ws)) ≡ true
    go [] n a = cc
    go (w ∷ ws) n a = match_word-join w ws a

truthy-length : (s : Str) → truthy s ≡ true → 0 < length s
truthy-length [] h = cc
truthy-length (c ∷ s) h = omega arith

-- Every tag that `parse_tag` makes out of a form field is one that `expect_tag` accepts unchanged.
pub expect_tag-parse_tag : (s : Str) {t : Str} → parse_tag s ≡ ok (some t) → expect_tag t ≡ ok t
unfolding parse_tag expect_tag
expect_tag-parse_tag s e =
    let kept = collapse (filter is_word s) in
    ground (
      arith,
      match_word-collapse (filter is_word s),
      all-filter s,
      length-lower kept,
      truthy-length kept,
    )

-- The other direction: a normalized tag has nothing to strip.
abbrev is_tag_char : ℕ → Bool
is_tag_char c = is_lower_alnum c || c == b'_'

mutual
  unfolding match_word

  match_word-chars : (s : Str) → match_word s ≡ true → all is_tag_char s ≡ true
  match_word-chars [] h = cc
  match_word-chars (c ∷ s) h = ground (arith, match_rest-chars s)

  match_rest-chars : (s : Str) → match_rest s ≡ true → all is_tag_char s ≡ true
  match_rest-chars [] h = refl
  match_rest-chars (c ∷ s) h = ground (arith, match_rest-chars s, match_word-chars s)

filter-word : (s : Str) → all is_tag_char s ≡ true → filter is_word s ≡ s
filter-word [] h = refl
filter-word (c ∷ s) h = ground (arith, filter-word s)

lower-tag : (s : Str) → all is_tag_char s ≡ true → lower s ≡ s
lower-tag [] h = refl
lower-tag (c ∷ s) h = ground (arith, lower-tag s)

no_space : (s : Str) → all is_tag_char s ≡ true → all (λ c. not (c == b' ')) s ≡ true
no_space [] h = refl
no_space (c ∷ s) h = ground (arith, no_space s)

abbrev rest_of : List Str → List Str
rest_of [] = []
rest_of (w ∷ ws) = ws

abbrev Full : List Str → Type 0
Full = All (λ w. truthy w ≡ true)

cons_head-Full : (c : ℕ) (ws : List Str) → Full (rest_of ws) → Full (cons_head c ws)
cons_head-Full c [] h = (refl, tt)
cons_head-Full c (w ∷ ws) h = (refl, h)

cons_head-rest : (c : ℕ) (ws : List Str) → rest_of (cons_head c ws) ≡ rest_of ws
cons_head-rest c [] = refl
cons_head-rest c (w ∷ ws) = refl

mutual
  unfolding match_word

  match_word-Full : (s : Str) → match_word s ≡ true → Full (split b'_' s)
  match_word-Full [] h = cc
  match_word-Full (c ∷ s) h =
      let other : (c == b'_') ≡ false = ground arith in
      rw other (cons_head-Full c (split b'_' s) (match_rest-Full s (ground arith)))

  match_rest-Full : (s : Str) → match_rest s ≡ true → Full (rest_of (split b'_' s))
  match_rest-Full [] h = tt
  match_rest-Full (c ∷ s) h = elim (Bool-cases (c == b'_')) [
    | inl e ↦ rw e (match_word-Full s (ground arith))
    | inr e ↦ rw (e, cons_head-rest c (split b'_' s)) (match_rest-Full s (ground arith))
  ]

filter-Full : (ws : List Str) → Full ws → filter truthy ws ≡ ws
filter-Full [] h = refl
filter-Full (w ∷ ws) h = rw (h.0, filter-Full ws h.1)

join-cons_head : (sep c : ℕ) (ws : List Str) → join sep (cons_head c ws) ≡ c ∷ join sep ws
join-cons_head sep c [] = refl
join-cons_head sep c (w ∷ []) = refl
join-cons_head sep c (w ∷ v ∷ ws) = refl

split_cons : (sep : ℕ) (s : Str) → (w : Str) × (ws : List Str) × (split sep s ≡ w ∷ ws)
split_cons sep [] = ([], [], refl)
split_cons sep (c ∷ s) =
    let (w, ws, e) = split_cons sep s in
    elim (Bool-cases (c == sep)) [
      | inl same ↦ ([], split sep s, rw same)
      | inr other ↦ (c ∷ w, ws, rw (other, e))
    ]

join-nil : (sep : ℕ) (s : Str) → join sep ([] ∷ split sep s) ≡ sep ∷ join sep (split sep s)
join-nil sep s = let (w, ws, e) = split_cons sep s in rw e

join-split : (sep : ℕ) (s : Str) → join sep (split sep s) ≡ s
join-split sep [] = refl
join-split sep (c ∷ s) = elim (Bool-cases (c == sep)) [
  | inl same ↦
      rw (same, join-nil sep s, join-split sep s) (ap (λ x. x ∷ s) (sym ((==_iff c sep).0 same)))
  | inr other ↦ rw (other, join-cons_head sep c (split sep s), join-split sep s)
]

collapse-tag : (s : Str) → match_word s ≡ true → collapse s ≡ s
unfolding collapse
collapse-tag s h = rw (filter-Full (split b'_' s) (match_word-Full s h)) (join-split b'_' s)

-- A tag that `expect_tag` accepts is one that `parse_tag` reads back as it is, so that the two
-- agree on the set of normalized tags.
pub parse_tag-expect_tag : (s t : Str) → expect_tag s ≡ ok t → parse_tag s ≡ ok (some s)
unfolding parse_tag expect_tag
parse_tag-expect_tag s t e = elim (Bool-cases (match_word s)) [
  | inl m ↦
      let chars = match_word-chars s m in
      let same = filter-word s chars in
      rw (no_space s chars, same, collapse-tag s m) (ground (arith, lower-tag s chars, nonempty s))
  | inr m ↦ absurd (ground arith)
]
  where
    nonempty : (s : Str) → 0 < length s → truthy s ≡ true
    nonempty [] h = absurd (omega arith)
    nonempty (c ∷ s) h = refl
