-- ===== src/Pagination/Pages.antt =====
-- The pages of weasyl/pagination.py against the sequence that they are cut from.
use weasyl.Prelude.{
  ℕ, zero, suc, ◌≤◌, ◌<◌, ◌≡◌, refl, ap, Bool, true, some, List, [], ◌∷◌, ◌++◌, reverse, arith, ltb,
  if◌then◌else◌, length, take, take_all, All, All-append_mid,
}
use weasyl.Pagination.{PageFilter, first_page, prev_filter, next_filter, del_last, last}

module _ {ℓ} {A : Type ℓ} where
  unfoldable pub filter : (A → Bool) → List A → List A
  filter p [] = []
  filter p (x ∷ xs) = if p x then x ∷ filter p xs else filter p xs

  filter-All : (p : A → Bool) (xs : List A) → All (λ x. p x ≡ true) xs → filter p xs ≡ xs
  unfolding filter
  filter-All p [] h = refl
  filter-All p (x ∷ xs) h = rw (h.0, filter-All p xs h.1)

  pub del_last-take : (n : ℕ) (xs : List A) → length xs ≡ suc n → del_last xs ≡ take n xs
  del_last-take zero (x ∷ []) h = refl
  del_last-take (suc n) (x ∷ y ∷ xs) h = ap (◌∷◌ x) (del_last-take n (y ∷ xs) (omega arith))
  del_last-take zero (x ∷ y ∷ xs) h = absurd (omega arith)
  del_last-take (suc n) (x ∷ []) h = absurd (omega arith)
  del_last-take n [] h = absurd (omega arith)

  pub take-take-suc : (n : ℕ) (xs : List A) → take n (take (suc n) xs) ≡ take n xs
  take-take-suc zero xs = refl
  take-take-suc (suc n) [] = refl
  take-take-suc (suc n) (x ∷ xs) = ap (◌∷◌ x) (take-take-suc n xs)

  length-take_short : (n : ℕ) (xs : List A) → length xs ≤ n → length (take n xs) ≡ length xs
  length-take_short n xs h = rw (take_all n xs h)

  -- A list that is not empty ends in its last item.
  pub last_split :
      (xs : List A)
      → 0 < length xs
      → (pre : List A) × (x : A) × (last xs ≡ some x) × (xs ≡ pre ++ x ∷ [])
  last_split [] h = absurd (omega arith)
  last_split (x ∷ []) h = ([], x, refl, refl)
  last_split (x ∷ y ∷ xs) h =
      let (pre, z, e, s) = last_split (y ∷ xs) (omega arith) in (x ∷ pre, z, e, ap (◌∷◌ x) s)

module _ {ℓ} {A : Type ℓ} (key : A → ℕ) where
  -- Sorted by strictly descending key, as the forward pages are.
  abbrev pub IsDescending : List A → Type 0
  IsDescending [] = Unit
  IsDescending (x ∷ xs) = All (λ y. key y < key x) xs × IsDescending xs

  -- What the docstring asks of the caller's query: at most `limit + 1` items, those below the
  -- bound of a forward page in descending order, and those above the bound of a back page in
  -- ascending order.
  unfoldable pub select_page : ℕ → PageFilter → List A → List A
  unfolding filter
  select_page limit first_page rows = take (suc limit) rows
  select_page limit (next_filter k) rows = take (suc limit) (filter (λ x. ltb (key x) k) rows)
  select_page limit (prev_filter k) rows =
      take (suc limit) (reverse (filter (λ x. ltb k (key x)) rows))

  abbrev pub below : A → A → Bool
  below x y = ltb (key y) (key x)

  All-below : (x : A) (ys : List A) → All (λ y. key y < key x) ys → All (λ y. below x y ≡ true) ys
  All-below x [] h = tt
  All-below x (y ∷ ys) h = (ground arith, All-below x ys h.1)

  -- Below an item of a descending list stand the items behind it.
  pub filter-below :
      (pre : List A) (x : A) (post : List A)
      → IsDescending (pre ++ x ∷ post)
      → filter (below x) (pre ++ x ∷ post) ≡ post
  unfolding filter
  filter-below [] x post h = rw (filter-All (below x) post (All-below x post h.0)) (ground arith)
  filter-below (p ∷ pre) x post h =
      ground
        (arith, All-append_mid (λ y. key y < key p) pre x post h.0, filter-below pre x post h.1)
