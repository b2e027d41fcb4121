-- ===== src/Pagination.antt =====
-- weasyl/pagination.py: `paginate` and the filters that it returns. Ids are positive.
pub mod Pages
pub mod Walk
use weasyl.Prelude.{
  ℕ, ◌+◌, Bool, true, false, not, ◌&&◌, ◌||◌, Option, none, some, List, [], ◌∷◌, reverse, ◌==◌,
  if◌then◌else◌, length,
}

pub data PageFilter : Type 0 where
  first_page : PageFilter
  prev_filter next_filter : ℕ → PageFilter

abbrev pub is_back : PageFilter → Bool
is_back (prev_filter _) = true
is_back _ = false

abbrev is_first : PageFilter → Bool
is_first first_page = true
is_first _ = false

-- `PageFilter.compat`: (backid, nextid), where 0 is no id.
pub compat : PageFilter → ℕ × ℕ
compat first_page = (0, 0)
compat (prev_filter backid) = (backid, 0)
compat (next_filter nextid) = (0, nextid)

abbrev truthy : Option ℕ → Option ℕ
truthy none = none
truthy (some n) = if n == 0 then none else some n

pub page_from_compat : Option ℕ → Option ℕ → PageFilter
page_from_compat backid nextid = elim (truthy backid) [
  | some b ↦ prev_filter b
  | none ↦ elim (truthy nextid) [ some n ↦ next_filter n | none ↦ first_page ]
]

module _ {ℓ} {A : Type ℓ} where
  -- `del items[-1]`
  abbrev pub del_last : List A → List A
  del_last [] = []
  del_last (x ∷ []) = []
  del_last (x ∷ y ∷ xs) = x ∷ del_last (y ∷ xs)

  -- `items[0]` and `items[-1]`, if there are any items.
  abbrev pub first : List A → Option A
  first [] = none
  first (x ∷ xs) = some x

  abbrev pub last : List A → Option A
  last [] = none
  last (x ∷ []) = some x
  last (x ∷ y ∷ xs) = last (y ∷ xs)

pub record Paginated {ℓ} (A : Type ℓ) : Type ℓ where
  pub prev_page : Option PageFilter
  pub next_page : Option PageFilter
  -- the list that the caller passed in, which is trimmed and reversed in place
  pub items : List A

module _ {ℓ} {A : Type ℓ} (key : A → ℕ) where
  abbrev link : Bool → (ℕ → PageFilter) → Option A → Option PageFilter
  link absent make none = none
  link absent make (some x) = if absent then none else some (make (key x))

  unfoldable pub paginate : List A → ℕ → PageFilter → Paginated A
  paginate items limit page =
      let has_more = length items == limit + 1 in
      let trimmed = if has_more then del_last items else items in
      let shown = if is_back page then reverse trimmed else trimmed in
      record {
        prev_page =
            link (is_first page || (not has_more && is_back page)) prev_filter (first shown);
        next_page = link (not has_more && not (is_back page)) next_filter (last shown);
        items = shown;
      }
