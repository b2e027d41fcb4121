-- ===== src/Pagination/Walk.antt =====
-- Following the links of weasyl/pagination.py from page to page.
use mathlib.Core.List.{append_assoc}
use weasyl.Prelude.{
  ℕ, zero, suc, ◌+◌, ◌≤◌, ◌<◌, ◌≡◌, refl, sym, ap, ◌∙◌, true, false, Option, none, some, List, [],
  ◌∷◌, ◌++◌, arith, ◌==◌, leb, leb→le, length, take, drop, take-append-drop, take_all, length-take,
  length-drop, Bool-cases, inl, inr, subst,
}
use weasyl.Pagination.{PageFilter, first_page, next_filter, is_back, del_last, last, link, paginate}
use weasyl.Pagination.Pages.{
  IsDescending, select_page, del_last-take, take-take-suc, last_split, filter-below,
}

module _ {ℓ} {A : Type ℓ} (key : A → ℕ) (limit : ℕ) where
  -- A forward page with more items behind it shows `limit` items, and links to what is below them.
  forward_more :
      (page : PageFilter) (rest : List A) (x : A)
      → is_back page ≡ false
      → suc limit ≤ length rest
      → last (take limit rest) ≡ some x
      → let result = paginate key (take (suc limit) rest) limit page in
        (result.items ≡ take limit rest) × (result.next_page ≡ some (next_filter (key x)))
  unfolding paginate
  forward_more page rest x fwd more e =
      let full : length (take (suc limit) rest) ≡ suc limit = length-take (suc limit) rest more in
      let cut : del_last (take (suc limit) rest) ≡ take limit rest =
        del_last-take limit (take (suc limit) rest) full ∙ take-take-suc limit rest in
      let test : (length (take (suc limit) rest) == limit + 1) ≡ true = rw full (ground arith) in
      (rw (test, fwd, cut), rw (test, fwd, cut, e))

  link_absent : (o : Option A) → link key true next_filter o ≡ none
  link_absent none = refl
  link_absent (some x) = refl

  -- One with no items behind it shows what is left, and links to nothing.
  forward_last :
      (page : PageFilter) (rest : List A)
      → is_back page ≡ false
      → length rest ≤ limit
      → let result = paginate key (take (suc limit) rest) limit page in
        (result.items ≡ rest) × (result.next_page ≡ none)
  unfolding paginate
  forward_last page rest fwd short =
      let whole : take (suc limit) rest ≡ rest = take_all (suc limit) rest (omega arith) in
      let test : (length rest == limit + 1) ≡ false = ground arith in
      (rw (whole, test, fwd), rw (whole, test, fwd) (link_absent (last rest)))

  -- What is below the last item of a page is what the page left over.
  select_page-next_filter :
      (rows done rest pre : List A) (x : A)
      → rows ≡ done ++ rest
      → IsDescending key rows
      → take limit rest ≡ pre ++ x ∷ []
      → select_page key limit (next_filter (key x)) rows ≡ take (suc limit) (drop limit rest)
  unfolding select_page
  select_page-next_filter rows done rest pre x e h s =
      let shape : rows ≡ (done ++ pre) ++ x ∷ drop limit rest =
        e
        ∙ ap (◌++◌ done) (
            sym (take-append-drop limit rest)
            ∙ ap (λ l. l ++ drop limit rest) s
            ∙ append_assoc pre (x ∷ []) (drop limit rest))
        ∙ sym (append_assoc done pre (x ∷ drop limit rest)) in
      rw shape (
        ap (take (suc limit))
          (filter-below key (done ++ pre) x (drop limit rest) (subst (IsDescending key) shape h)))

  abbrev follow : Option PageFilter → List A → (PageFilter → List A) → List A
  follow none items more = items
  follow (some next) items more = items ++ more next

  -- Reads the pages from a filter on, each by the link that the page before it gave.
  pub walk : ℕ → List A → PageFilter → List A
  walk zero rows page = []
  walk (suc fuel) rows page =
      let result = paginate key (select_page key limit page rows) limit page in
      follow result.next_page result.items (walk fuel rows)

  walk_rest :
      (fuel : ℕ) (rows done rest : List A) (page : PageFilter)
      → rows ≡ done ++ rest
      → IsDescending key rows
      → 0 < limit
      → is_back page ≡ false
      → select_page key limit page rows ≡ take (suc limit) rest
      → length rest < fuel
      → walk fuel rows page ≡ rest
  unfolding walk
  walk_rest zero rows done rest page e h pos fwd sel f = absurd (omega arith)
  walk_rest (suc fuel) rows done rest page e h pos fwd sel f =
      elim (Bool-cases (leb (length rest) limit)) [
        | inl short ↦
            let (items, next) = forward_last page rest fwd (leb→le _ _ short) in
            rw (sel, next, items)
        | inr long ↦
            let more : suc limit ≤ length rest = ground arith in
            let (pre, x, e', s) =
              last_split (take limit rest) (rw (length-take limit rest (omega arith)) pos) in
            let (items, next) = forward_more page rest x fwd more e' in
            let ih : walk fuel rows (next_filter (key x)) ≡ drop limit rest =
              walk_rest fuel rows (done ++ take limit rest) (drop limit rest) (next_filter (key x))
                (e
                  ∙ ap (◌++◌ done) (sym (take-append-drop limit rest))
                  ∙ sym (append_assoc done (take limit rest) (drop limit rest)))
                h pos refl (select_page-next_filter rows done rest pre x e h s)
                (omega (arith, length-drop limit rest)) in
            rw (sel, next, items, ih) (take-append-drop limit rest)
      ]

-- Reading on from the first page by the links that `paginate` returns shows every item exactly
-- once, in order, and ends: for a page size above 0 and items of strictly descending keys, the
-- pages put together are the whole sequence, and one page more than there are items is enough.
pub walk-first_page {ℓ} :
    {A : Type ℓ} (key : A → ℕ) (limit : ℕ) (rows : List A)
    → IsDescending key rows
    → 0 < limit
    → walk key limit (suc (length rows)) rows first_page ≡ rows
walk-first_page key limit rows h pos =
    walk_rest key limit (suc (length rows)) rows [] rows first_page refl h pos refl
      (unfold select_page in refl) (omega arith)
