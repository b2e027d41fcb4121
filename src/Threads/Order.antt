-- ===== src/Threads/Order.antt =====
-- The display order is the forest of the comments: a comment, then its replies.
use weasyl.Prelude.{
  inl, inr, ℕ, zero, suc, ◌+◌, ◌≤◌, ◌≡◌, refl, ap, ◌∙◌, Bool, true, false, ◌||◌, some, List, [],
  ◌∷◌, map, reverse, ◌==◌, if◌then◌else◌, length, Bool-cases, arith,
}
use mathlib.Core.List.{reverse_aux}
use weasyl.Threads.{
  CommentRow, Shown, Replies, get, show, add_to, group, comments_of, flatten, descendants, thread,
}
use weasyl.Threads.Loop.{IsAfter, replies, grow, get-add_to, get-add_to_new, get-group, grow-indent}

-- The trees of the replies to comment `p`, in the order of the rows.
unfoldable pub subtrees : ℕ → ℕ → Bool → List CommentRow → List (List Shown)
subtrees p indent hidden [] = []
subtrees p indent hidden (row ∷ query) =
    let rest = subtrees p indent hidden query in
    let h = hidden || row.hidden in
    let replies = subtrees row.commentid (indent + 1) h query in
    if row.parentid == p
    then (record (show indent row) { hidden = h } ∷ flatten replies) ∷ rest
    else rest

map-reverse_aux :
    (f : Shown → List Shown) (xs ys : List Shown)
    → map f (reverse_aux xs ys) ≡ reverse_aux (map f xs) (map f ys)
map-reverse_aux f [] ys = refl
map-reverse_aux f (x ∷ xs) ys = map-reverse_aux f xs (x ∷ ys)

map-reverse : (f : Shown → List Shown) (xs : List Shown) → map f (reverse xs) ≡ reverse (map f xs)
map-reverse f xs = map-reverse_aux f xs []

replies_hit :
    (p indent : ℕ) (row : CommentRow) (query : List CommentRow)
    → (row.parentid == p) ≡ true
    → replies p indent (row ∷ query) ≡ show indent row ∷ replies p indent query
unfolding replies
replies_hit p indent row query e = rw e refl

replies_miss :
    (p indent : ℕ) (row : CommentRow) (query : List CommentRow)
    → (row.parentid == p) ≡ false
    → replies p indent (row ∷ query) ≡ replies p indent query
unfolding replies
replies_miss p indent row query e = rw e refl

subtrees_hit :
    (p indent : ℕ) (hidden : Bool) (row : CommentRow) (query : List CommentRow)
    → (row.parentid == p) ≡ true
    → subtrees p indent hidden (row ∷ query)
      ≡ (record (show indent row) { hidden = hidden || row.hidden }
          ∷ flatten (subtrees row.commentid (indent + 1) (hidden || row.hidden) query))
        ∷ subtrees p indent hidden query
unfolding subtrees
subtrees_hit p indent hidden row query e = rw e refl

subtrees_miss :
    (p indent : ℕ) (hidden : Bool) (row : CommentRow) (query : List CommentRow)
    → (row.parentid == p) ≡ false
    → subtrees p indent hidden (row ∷ query) ≡ subtrees p indent hidden query
unfolding subtrees
subtrees_miss p indent hidden row query e = rw e refl

descendants_cons :
    (fuel : ℕ) (by_parent : List Replies) (hidden : Bool) (c : Shown) (cs : List Shown)
    → descendants (suc fuel) by_parent hidden (c ∷ cs)
      ≡ (record c { hidden = hidden || c.hidden }
          ∷ flatten (
              descendants fuel by_parent
                (hidden || c.hidden)
                (comments_of (get c.commentid by_parent))))
        ∷ descendants (suc fuel) by_parent hidden cs
unfolding descendants
descendants_cons fuel by_parent hidden c cs = refl

group_cons :
    (row : CommentRow) (query : List CommentRow) (by_parent : List Replies)
    → group (row ∷ query) by_parent
      ≡ group query (add_to (get row.parentid by_parent) row by_parent)
unfolding group
group_cons row query by_parent = refl

replies_nil :
    (fuel p indent : ℕ) (hidden : Bool) (by_parent : List Replies)
    → descendants (suc fuel) (group [] by_parent) hidden (replies p indent [])
      ≡ subtrees p indent hidden []
unfolding descendants replies subtrees
replies_nil fuel p indent hidden by_parent = refl

descendants-replies :
    (fuel n p indent : ℕ) (t : Replies) (hidden : Bool) (query : List CommentRow)
    (by_parent : List Replies)
    → IsAfter n query
    → p ≤ n
    → length query ≤ fuel
    → get p by_parent ≡ some t
    → t.indent ≡ indent
    → descendants (suc fuel) (group query by_parent) hidden (replies p indent query)
      ≡ subtrees p indent hidden query
descendants-replies fuel n p indent t hidden [] by_parent o l f h i =
    replies_nil fuel p indent hidden by_parent
descendants-replies zero n p indent t hidden (row ∷ query) by_parent o l f h i =
    absurd (omega arith)
descendants-replies (suc fuel) n p indent t hidden (row ∷ query) by_parent o l f h i =
    let bp = add_to (get row.parentid by_parent) row by_parent in
    let others =
      descendants-replies (suc fuel) row.commentid p indent (grow p t row) hidden query bp o.1
        (omega (arith, o.0)) (omega arith) (get-add_to p row t by_parent (omega (arith, o.0)) h)
        (grow-indent p t row ∙ i) in
    elim (Bool-cases (row.parentid == p)) [
      | inl e ↦
          let at : get row.parentid by_parent ≡ some t = ground arith in
          let item : Replies = record {
            parentid = row.commentid;
            indent = t.indent + 1;
            comments = [];
          } in
          let new = get-add_to_new row t by_parent at in
          let own =
            descendants-replies fuel row.commentid row.commentid (indent + 1) item
              (hidden || row.hidden) query bp o.1 (omega arith) (omega arith) new
              (ap (λ k. k + 1) i) in
          let kept = get-group row.commentid row.commentid item query bp o.1 (omega arith) new in
          rw
            (
              replies_hit p indent row query e,
              subtrees_hit p indent hidden row query e,
              group_cons row query by_parent,
              descendants_cons (suc fuel) (group query bp) hidden (show indent row)
                  (replies p indent query),
              kept,
              i,
              own,
              others,
            )
            refl
      | inr e ↦
          rw
            (
              replies_miss p indent row query e,
              subtrees_miss p indent hidden row query e,
              group_cons row query by_parent,
            )
            others
    ]

descendants-reverse :
    (fuel : ℕ) (by_parent : List Replies) (hidden : Bool) (cs : List Shown)
    → descendants (suc fuel) by_parent hidden (reverse cs)
      ≡ reverse (descendants (suc fuel) by_parent hidden cs)
unfolding descendants
descendants-reverse fuel by_parent hidden cs = map-reverse _ cs

abbrev bp0 : List Replies
bp0 = record { parentid = 0; indent = 0; comments = [] } ∷ []

-- The trees of the top level, as `thread` computes them.
descendants-top :
    (query : List CommentRow)
    → IsAfter 0 query
    → let G = group query bp0 in
      descendants (suc (length query)) G false (comments_of (get 0 G)) ≡ subtrees 0 0 false query
descendants-top query o =
    let root : Replies = record { parentid = 0; indent = 0; comments = [] } in
    rw (get-group 0 0 root query bp0 o (omega arith) refl) (
      descendants-replies (length query) 0 0 0 root false query bp0 o (omega arith) (omega arith)
        refl refl)

-- The comments are shown in the order of the forest of their replies: every comment that a chain of shown
-- comments links to the top level is there once, directly below it are its replies with their own, one
-- step further in, in the order of their ids, and it counts as hidden if it or a comment above it in the
-- chain is; only the order of the trees of the top level is reversed, when the caller asks for it. The
-- ids of the rows are positive and ascend, as the queries order them.
pub thread-subtrees :
    (query : List CommentRow) (reverse_top_level : Bool)
    → IsAfter 0 query
    → let trees = subtrees 0 0 false query in
      thread query reverse_top_level ≡ flatten (if reverse_top_level then reverse trees else trees)
unfolding thread
thread-subtrees query false o = ap flatten (descendants-top query o)
thread-subtrees query true o = ap flatten (
    descendants-reverse (length query) (group query bp0) false
      (comments_of (get 0 (group query bp0)))
    ∙ ap reverse (descendants-top query o))
