-- ===== src/Prelude/Strings.antt =====
-- Strings as lists of code points: equality, order and sorting.
use Prim.Native.Nat.{ℕ}
use Prim.Native.String.{String}
use Prim.Native.Char.{code}
use mathlib.Core.Path.{◌≡◌, refl}
use mathlib.Core.Bool.{Bool, true, false, ◌&&◌, ◌||◌}
use mathlib.Core.List.{List, [], ◌∷◌}
use native.Mathlib.Omega.{arith}
use weasyl.Prelude.Tests.{◌==◌, ltb, if◌then◌else◌}

-- The code points of a text.
abbrev pub codes : String → List ℕ
codes String.[] = []
codes (String.◌∷◌ c s) = code c ∷ codes s

-- Equality of strings.
unfoldable pub same : List ℕ → List ℕ → Bool
same [] [] = true
same (x ∷ s) (y ∷ t) = x == y && same s t
same _ _ = false

pub same_refl : (s : List ℕ) → same s s ≡ true
unfolding same
same_refl [] = refl
same_refl (c ∷ s) = ground (arith, same_refl s)

pub same-eq : (s t : List ℕ) → same s t ≡ true → s ≡ t
unfolding same
same-eq [] [] h = refl
same-eq [] (y ∷ t) h = cc
same-eq (x ∷ s) [] h = cc
same-eq (x ∷ s) (y ∷ t) h = ground (arith, same-eq s t)

-- `s <= t` of two strings.
unfoldable pub leb_str : List ℕ → List ℕ → Bool
leb_str [] t = true
leb_str (x ∷ s) [] = false
leb_str (x ∷ s) (y ∷ t) = ltb x y || (x == y && leb_str s t)

-- `sorted` of strings.
unfoldable pub insert_sorted : List ℕ → List (List ℕ) → List (List ℕ)
insert_sorted s [] = s ∷ []
insert_sorted s (t ∷ ts) = if leb_str s t then s ∷ t ∷ ts else t ∷ insert_sorted s ts

unfoldable pub sorted : List (List ℕ) → List (List ℕ)
sorted [] = []
sorted (s ∷ ss) = insert_sorted s (sorted ss)
