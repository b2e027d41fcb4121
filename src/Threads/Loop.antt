-- ===== src/Threads/Loop.antt =====
-- The items that the loop of `thread` leaves: each comment's with its replies.
use weasyl.Prelude.{
  inl, inr, ℕ, ◌+◌, ◌≤◌, ◌<◌, ◌≡◌, refl, ◌∙◌, none, some, List, [], ◌∷◌, ◌++◌, ◌==◌, if◌then◌else◌,
  Bool-cases, Option-cases, arith,
}
use mathlib.Core.List.{append-nil, append_assoc}
use weasyl.Threads.{CommentRow, Shown, Replies, get, append, put, show, add_to, group}

-- The rows of a query in the order of their ids, which are above `n`.
abbrev pub IsAfter : ℕ → List CommentRow → Type 0
IsAfter n [] = Unit
IsAfter n (row ∷ query) = (n < row.commentid) × IsAfter row.commentid query

-- The direct replies to `p`.
unfoldable pub replies : ℕ → ℕ → List CommentRow → List Shown
replies p indent [] = []
replies p indent (row ∷ query) =
    let rest = replies p indent query in if row.parentid == p then show indent row ∷ rest else rest

-- What one row adds to the item `t` of `p`, and what a query adds.
abbrev pub grow : ℕ → Replies → CommentRow → Replies
grow p t row =
    if row.parentid == p then record t { comments = t.comments ++ show t.indent row ∷ [] } else t

get-append :
    (p : ℕ) (row : CommentRow) (t a : Replies) (by_parent : List Replies)
    → get p by_parent ≡ some t
    → get row.parentid by_parent ≡ some a
    → get p (append row.parentid (show a.indent row) by_parent) ≡ some (grow p t row)
get-append p row t a [] h k = cc
get-append p row t a (b ∷ by_parent) h k = ground (arith, get-append p row t a by_parent)

get-append_missing :
    (p : ℕ) (row : CommentRow) (t : Replies) (by_parent : List Replies)
    → get p by_parent ≡ some t
    → get row.parentid by_parent ≡ none
    → grow p t row ≡ t
get-append_missing p row t by_parent h k = ground arith

get-put_other :
    (p : ℕ) (item : Replies) (by_parent : List Replies)
    → p < item.parentid
    → get p (put item by_parent) ≡ get p by_parent
get-put_other p item [] h = ground arith
get-put_other p item (b ∷ by_parent) h = ground (arith, get-put_other p item by_parent)

get-put :
    (item : Replies) (by_parent : List Replies) → get item.parentid (put item by_parent) ≡ some item
get-put item [] = ground arith
get-put item (b ∷ by_parent) = ground (arith, get-put item by_parent)

pub get-add_to :
    (p : ℕ) (row : CommentRow) (t : Replies) (by_parent : List Replies)
    → p < row.commentid
    → get p by_parent ≡ some t
    → get p (add_to (get row.parentid by_parent) row by_parent) ≡ some (grow p t row)
get-add_to p row t by_parent l h = elim (Option-cases (get row.parentid by_parent)) [
  | inl e ↦ rw (e, h, get-append_missing p row t by_parent h e) refl
  | inr (a, e) ↦
      let item : Replies = record {
        parentid = row.commentid;
        indent = a.indent + 1;
        comments = [];
      } in
      let bp = append row.parentid (show a.indent row) by_parent in
      rw (e, get-put_other p item bp l, get-append p row t a by_parent h e) refl
]

pub get-add_to_new :
    (row : CommentRow) (a : Replies) (by_parent : List Replies)
    → get row.parentid by_parent ≡ some a
    → get row.commentid (add_to (get row.parentid by_parent) row by_parent)
      ≡ some (record { parentid = row.commentid; indent = a.indent + 1; comments = [] })
get-add_to_new row a by_parent e =
    let item : Replies = record {
      parentid = row.commentid;
      indent = a.indent + 1;
      comments = [];
    } in
    rw (e, get-put item (append row.parentid (show a.indent row) by_parent)) refl

add_twice :
    (p : ℕ) (t : Replies) (row : CommentRow) (query : List CommentRow)
    → let g = grow p t row in
      some (record g { comments = g.comments ++ replies p g.indent query })
      ≡ some (record t { comments = t.comments ++ replies p t.indent (row ∷ query) })
unfolding replies
add_twice p t row query = elim (Bool-cases (row.parentid == p)) [
  | inl e ↦ rw (e, append_assoc t.comments (show t.indent row ∷ []) (replies p t.indent query)) refl
  | inr e ↦ rw e refl
]

-- The item of `p` at the end of the loop.
pub get-group :
    (n p : ℕ) (t : Replies) (query : List CommentRow) (by_parent : List Replies)
    → IsAfter n query
    → p ≤ n
    → get p by_parent ≡ some t
    → get p (group query by_parent)
      ≡ some (record t { comments = t.comments ++ replies p t.indent query })
unfolding group replies
get-group n p t [] by_parent o l h = rw (append-nil t.comments) h
get-group n p t (row ∷ query) by_parent o l h =
    let step = get-add_to p row t by_parent (omega (arith, o.0)) h in
    let rest =
      get-group row.commentid p (grow p t row) query
        (add_to (get row.parentid by_parent) row by_parent) o.1 (omega (arith, o.0)) step in
    rest ∙ add_twice p t row query

pub grow-indent : (p : ℕ) (t : Replies) (row : CommentRow) → (grow p t row).indent ≡ t.indent
grow-indent p t row = elim (Bool-cases (row.parentid == p)) [
  | inl e ↦ rw e refl
  | inr e ↦ rw e refl
]
