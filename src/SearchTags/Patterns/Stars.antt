-- ===== src/SearchTags/Patterns/Stars.antt =====
-- What the patterns of restricted tags match.
use weasyl.Prelude.{
  ℕ, ◌+◌, ◌≤◌, ◌≡◌, ◌↔◌, ◌⊎◌, refl, ap, subst, ◌∙◌, Bool, true, not, some, none, [], ◌∷◌, ◌++◌,
  arith, length, all, Bool-cases, inl, inr,
}
use weasyl.Forms.{ok, collapse}
use weasyl.Forms.Text.{Str, filter, lower}
use weasyl.SearchTags.Patterns.{
  star, is_star, is_pattern_char, split_star, limit_star, parse_pattern, tries, fullmatch,
}

abbrev pub is_plain : ℕ → Bool
is_plain c = not (is_star c)

-- A text that a pattern without a star matches is the pattern.
pub fullmatch-plain :
    (pattern s : Str) → all is_plain pattern ≡ true → (fullmatch pattern s ≡ true) ↔ (s ≡ pattern)
unfolding fullmatch
fullmatch-plain [] [] h = (λ e. refl, λ e. refl)
fullmatch-plain [] (c ∷ s) h = (λ e. cc, λ e. cc)
fullmatch-plain (p ∷ pattern) [] h = (λ e. ground arith, λ e. cc)
fullmatch-plain (p ∷ pattern) (c ∷ s) h = ground (arith, fullmatch-plain pattern s)

-- The tails of a text that a pattern can go on with.
tries-split :
    (rest : Str → Bool) (s : Str)
    → tries rest s ≡ true
    → (mid tail : Str) × (s ≡ mid ++ tail) × (rest tail ≡ true)
tries-split rest [] h = ([], [], refl, h)
tries-split rest (c ∷ s) h = elim (Bool-cases (rest (c ∷ s))) [
  | inl now ↦ ([], c ∷ s, refl, now)
  | inr later ↦
      let (mid, tail, e, fits) = tries-split rest s (ground arith) in
      (c ∷ mid, tail, ap (◌∷◌ c) e, fits)
]

tries-append :
    (rest : Str → Bool) (mid tail : Str) → rest tail ≡ true → tries rest (mid ++ tail) ≡ true
tries-append rest [] [] h = h
tries-append rest [] (c ∷ s) h = ground arith
tries-append rest (m ∷ mid) tail h = ground (arith, tries-append rest mid tail)

abbrev tail_of : Str → Str
tail_of [] = []
tail_of (c ∷ s) = s

-- A pattern with one star matches exactly the texts that begin with what is before the star and end
-- with what is behind it, without an overlap.
pub fullmatch-star :
    (prefix suffix s : Str)
    → all is_plain prefix ≡ true
    → all is_plain suffix ≡ true
    → (fullmatch (prefix ++ star ∷ suffix) s ≡ true) ↔ ((mid : Str) × (s ≡ prefix ++ mid ++ suffix))
unfolding fullmatch
fullmatch-star [] suffix s hp hs = (
  λ h.
      let (mid, tail, e, fits) = tries-split (fullmatch suffix) s h in
      (mid, e ∙ ap (λ t. mid ++ t) ((fullmatch-plain suffix tail hs).0 fits)),
  λ (mid, e).
      rw e (tries-append (fullmatch suffix) mid suffix ((fullmatch-plain suffix suffix hs).1 refl)),
)
fullmatch-star (p ∷ prefix) suffix [] hp hs = (λ h. absurd (ground arith), λ (mid, e). absurd (cc))
fullmatch-star (p ∷ prefix) suffix (c ∷ s) hp hs =
    let rest = fullmatch-star prefix suffix s (ground arith) hs in
    (
      λ h.
          let (mid, e) = rest.0 (ground arith) in
          let same : c ≡ p = ground arith in (mid, rw (same, e) refl),
      λ (mid, e).
          let tail : fullmatch (prefix ++ star ∷ suffix) s ≡ true = rest.1 (mid, ap tail_of e) in
          ground arith,
    )

-- The parts of a text with a star, and a text without one.
split_star_lem :
    (s : Str)
    → ((split_star s ≡ (s, none)) × (all is_plain s ≡ true))
      ⊎ ((prefix suffix : Str) × (split_star s ≡ (prefix, some suffix))
          × (all is_plain prefix ≡ true)
          × (s ≡ prefix ++ star ∷ suffix))
unfolding split_star
split_star_lem [] = inl (refl, refl)
split_star_lem (c ∷ s) = elim (Bool-cases (is_star c)) [
  | inl e ↦ inr ([], s, rw e refl, refl, ground arith)
  | inr e ↦ elim (split_star_lem s) [
    | inl (same, plain) ↦ inl (rw (e, same) refl, rw (e, plain) refl)
    | inr (prefix, suffix, same, plain, join) ↦
        inr (c ∷ prefix, suffix, rw (e, same) refl, rw (e, plain) refl, ap (◌∷◌ c) join)
  ]
]

filter-plain : (s : Str) → all is_plain (filter (λ c. not (is_star c)) s) ≡ true
filter-plain [] = refl
filter-plain (c ∷ s) = ground (arith, filter-plain s)

-- The characters of a form field that a pattern can have, in lower case.
abbrev pub pattern_text : Str → Str
pattern_text s = lower (collapse (filter is_pattern_char s))

-- The text before its first star, and the text behind it without the other stars.
abbrev pub IsSplit : Str → Str → Str → Type 0
IsSplit text prefix suffix =
    (all is_plain prefix ≡ true)
    × ((tail : Str) × (text ≡ prefix ++ star ∷ tail) × (suffix ≡ filter is_plain tail))

-- A pattern is a text without a star, or one with two characters or more around its only star.
abbrev pub HasOneStar : Str → Str → Type 0
HasOneStar text p =
    (prefix suffix : Str) × IsSplit text prefix suffix
    × (2 ≤ length prefix + length suffix)
    × (p ≡ prefix ++ star ∷ suffix)

limit_star-shape :
    (s p : Str)
    → limit_star s (split_star s) ≡ some p
    → ((all is_plain s ≡ true) × (p ≡ s)) ⊎ HasOneStar s p
limit_star-shape s p e = elim (split_star_lem s) [
  | inl (same, plain) ↦ inl (
      let kept : some s ≡ some p = subst (λ x. limit_star s x ≡ some p) same e in
      (plain, ground arith))
  | inr (prefix, suffix, same, plain, join) ↦
      let rest = filter is_plain suffix in
      let kept = subst (λ x. limit_star s x ≡ some p) same e in
      inr (prefix, rest, (plain, (suffix, join, refl)), ground arith, ground arith)
]

parse_pattern-shape :
    (s p : Str)
    → parse_pattern s ≡ ok (some p)
    → ((all is_plain (pattern_text s) ≡ true) × (p ≡ pattern_text s))
      ⊎ HasOneStar (pattern_text s) p
unfolding parse_pattern
parse_pattern-shape s p e = limit_star-shape (pattern_text s) p (ground arith)

-- The letters, digits, underscores and stars of a form field, in lower case and without repeated or outer
-- underscores, make its pattern. If there is no star among them, the pattern is all of them and matches only
-- itself. Else the pattern is what stands before the first star, the star, and what stands behind it without
-- the other stars, two characters or more around the star, and it matches exactly the texts that begin with
-- the first part and end, behind it, with the second.
pub fullmatch-parse_pattern :
    (s p name : Str)
    → parse_pattern s ≡ ok (some p)
    → ((all is_plain (pattern_text s) ≡ true)
        × (p ≡ pattern_text s)
        × ((fullmatch p name ≡ true) ↔ (name ≡ p)))
      ⊎ ((prefix suffix : Str) × IsSplit (pattern_text s) prefix suffix
          × (2 ≤ length prefix + length suffix)
          × (p ≡ prefix ++ star ∷ suffix)
          × ((fullmatch p name ≡ true) ↔ ((mid : Str) × (name ≡ prefix ++ mid ++ suffix))))
fullmatch-parse_pattern s p name e = elim (parse_pattern-shape s p e) [
  | inl (plain, same) ↦ inl (plain, same, fullmatch-plain p name (rw same plain))
  | inr (prefix, suffix, split, long, same) ↦
      let (plain, (tail, _, rest)) = split in
      let plain_rest : all is_plain suffix ≡ true = rw rest (filter-plain tail) in
      inr (
        prefix,
        suffix,
        split,
        long,
        same,
        rw same (fullmatch-star prefix suffix name plain plain_rest),
      )
]
