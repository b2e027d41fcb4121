-- ===== src/Journals/Pages.antt =====
-- A page of journals or characters shows what its reader may view.
use weasyl.Prelude.{
  ◌≡◌, arith, ℕ, zero, suc, ◌+◌, Bool, true, false, ◌&&◌, List, [], ◌∷◌, reverse, take, ◌==◌,
  if◌then◌else◌, Bool-cases, inl, inr, All, length,
}
use mathlib.Core.List.{reverse_aux}
use weasyl.Sql.{select}
use weasyl.Database.{Post, ok}
use weasyl.Pagination.{PageFilter, del_last, is_back, paginate}
use weasyl.SearchTags.Tables.{Tagging}
use weasyl.Journals.{
  Kind, posts, ascends, Reader, select_post_and_check, is_listed, on_page, select_page,
}
use weasyl.Journals.Listed.{IsRow, listed-viewable}

module _ (P : Post → Type 0) where
  All-select :
      {Q : Post → Type 0} (p : Post → Bool) (xs : List Post)
      → ((x : Post) → p x ≡ true → Q x → P x)
      → All Q xs
      → All P (select p xs)
  All-select p [] h q = tt
  All-select p (x ∷ xs) h q = elim (Bool-cases (p x)) [
    | inl e ↦ rw e (h x e q.0, All-select p xs h q.1)
    | inr e ↦ rw e (All-select p xs h q.1)
  ]

  All-take : (n : ℕ) (xs : List Post) → All P xs → All P (take n xs)
  All-take zero xs h = tt
  All-take (suc n) [] h = tt
  All-take (suc n) (x ∷ xs) h = (h.0, All-take n xs h.1)

  All-reverse_aux : (xs ys : List Post) → All P xs → All P ys → All P (reverse_aux xs ys)
  All-reverse_aux [] ys h k = k
  All-reverse_aux (x ∷ xs) ys h k = All-reverse_aux xs (x ∷ ys) h.1 (h.0, k)

  All-reverse : (xs : List Post) → All P xs → All P (reverse xs)
  All-reverse xs h = All-reverse_aux xs [] h tt

  All-if : (b : Bool) (xs ys : List Post) → All P xs → All P ys → All P (if b then xs else ys)
  All-if true xs ys h k = h
  All-if false xs ys h k = k

  All-del_last : (xs : List Post) → All P xs → All P (del_last xs)
  All-del_last [] h = tt
  All-del_last (x ∷ []) h = tt
  All-del_last (x ∷ y ∷ xs) h = (h.0, All-del_last (y ∷ xs) h.1)

  -- A page holds items of the list alone.
  All-paginate :
      (key : Post → ℕ) (items : List Post) (limit : ℕ) (page : PageFilter)
      → All P items
      → All P (paginate key items limit page).items
  unfolding paginate
  All-paginate key items limit page h =
      let trimmed = if length items == limit + 1 then del_last items else items in
      let k = All-if (length items == limit + 1) (del_last items) items (All-del_last items h) h in
      All-if (is_back page) (reverse trimmed) trimmed (All-reverse trimmed k) k

-- Every journal on a page of journals is one that the reader may view, and so is every character on a page of
-- characters, on every page and with every limit. Each row of the table is found first by its id, and its
-- author's id is positive.
pub select_page-viewable :
    (kind : Kind) (r : Reader) (limit : ℕ) (page : PageFilter) (anyway : Bool) (t : Tagging)
    → All (IsRow kind t) (posts kind t.site)
    → All
        (λ j. select_post_and_check kind r j.id true anyway t ≡ ok j)
        (select_page kind r limit page t).items
unfolding select_page
select_page-viewable kind r limit page anyway t k =
    let rows = select (λ j. is_listed kind r t j && on_page kind page j) (posts kind t.site) in
    let h =
      All-select _ (λ j. is_listed kind r t j && on_page kind page j) (posts kind t.site)
        (λ j e q. listed-viewable kind r j anyway t q (ground arith)) k in
    let ordered = if ascends kind page then rows else reverse rows in
    All-paginate _ (λ j. j.id) (take (limit + 1) ordered) limit page
      (All-take _ (limit + 1) ordered
        (All-if _ (ascends kind page) rows (reverse rows) h (All-reverse _ rows h)))
