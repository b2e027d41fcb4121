-- ===== src/ResetPassword/Addresses.antt =====
-- `normalize_address` of weasyl/emailer.py.
use weasyl.Prelude.{
  ℕ, Bool, false, ◌&&◌, ◌||◌, Option, none, some, [], ◌∷◌, ◌++◌, all, ◌==◌, if◌then◌else◌,
}
use weasyl.Forms.Text.{Str, strip, lower, is_alnum, truthy}

-- The text before the first `c` and behind it.
abbrev pub extend : ℕ → Option (Str × Str) → Option (Str × Str)
extend x none = none
extend x (some (before, after)) = some (x ∷ before, after)

unfoldable pub split_first : ℕ → Str → Option (Str × Str)
split_first c [] = none
split_first c (x ∷ s) = let rest = split_first c s in if x == c then some ([], s) else extend x rest

-- The character classes of `EMAIL_ADDRESS`.
abbrev pub is_local_char : ℕ → Bool
is_local_char c = is_alnum c || (c == b'_' || (c == b'.' || (c == b'+' || c == b'-')))

abbrev pub is_host_char : ℕ → Bool
is_host_char c = is_alnum c || c == b'-'

-- The pattern's part behind the "@".
unfoldable pub is_domain : Str → Bool
is_domain s = elim (split_first b'.' s) [
  | none ↦ false
  | some (host, rest) ↦
      truthy host
      && (all is_host_char host && (truthy rest && all (λ c. is_host_char c || c == b'.') rest))
]

unfoldable pub normalize_stripped : Str → Option Str
unfolding split_first is_domain
normalize_stripped s = elim (split_first b'@' s) [
  | none ↦ none
  | some (local, domain) ↦
      if truthy local && (all is_local_char local && is_domain domain)
      then some (local ++ b'@' ∷ lower domain)
      else none
]

unfoldable pub normalize_address : Str → Option Str
unfolding normalize_stripped
normalize_address address = normalize_stripped (strip address)
