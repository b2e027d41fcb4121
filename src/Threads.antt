-- ===== src/Threads.antt =====
-- `thread` of weasyl/comment.py: the display order of comments. A parent of 0 stands for none, since no
-- comment has that id; names, texts and times go with a comment unchanged and are left out.
pub mod Loop
pub mod Order
use weasyl.Prelude.{
  ℕ, zero, suc, ◌+◌, Bool, true, false, ◌||◌, Option, none, some, List, [], ◌∷◌, ◌++◌, map, reverse,
  ◌==◌, if◌then◌else◌, length,
}

-- A row of the query of `select`.
pub record CommentRow : Type 0 where
  pub commentid : ℕ
  pub parentid : ℕ
  pub userid : ℕ
  pub hidden : Bool

-- An entry of the result.
pub record Shown : Type 0 where
  pub commentid : ℕ
  pub userid : ℕ
  pub indent : ℕ
  pub hidden : Bool

-- An item of the dict `by_parent`: the replies to a comment, and their indent, which is one more than
-- the indent that the source keeps there.
pub record Replies : Type 0 where
  pub parentid : ℕ
  pub indent : ℕ
  pub comments : List Shown

-- `by_parent.get(parentid)`, the append to its list, and the new item of a comment.
abbrev pub get : ℕ → List Replies → Option Replies
get id [] = none
get id (t ∷ by_parent) = if t.parentid == id then some t else get id by_parent

abbrev pub append : ℕ → Shown → List Replies → List Replies
append id c [] = []
append id c (t ∷ by_parent) =
    if t.parentid == id
    then record t { comments = t.comments ++ c ∷ [] } ∷ by_parent
    else t ∷ append id c by_parent

abbrev pub put : Replies → List Replies → List Replies
put item [] = item ∷ []
put item (t ∷ by_parent) =
    if t.parentid == item.parentid then item ∷ by_parent else t ∷ put item by_parent

abbrev pub show : ℕ → CommentRow → Shown
show indent row = record {
  commentid = row.commentid;
  userid = row.userid;
  indent = indent;
  hidden = row.hidden;
}

-- One round of the loop over the rows.
abbrev pub add_to : Option Replies → CommentRow → List Replies → List Replies
add_to none row by_parent = by_parent
add_to (some t) row by_parent =
    put (record { parentid = row.commentid; indent = t.indent + 1; comments = [] })
      (append row.parentid (show t.indent row) by_parent)

unfoldable pub group : List CommentRow → List Replies → List Replies
group [] by_parent = by_parent
group (row ∷ query) by_parent = group query (add_to (get row.parentid by_parent) row by_parent)

abbrev pub comments_of : Option Replies → List Shown
comments_of none = []
comments_of (some t) = t.comments

abbrev pub flatten : List (List Shown) → List Shown
flatten [] = []
flatten (xs ∷ xss) = xs ++ flatten xss

-- `_add_with_descendants`: what it adds for each of the comments. The fuel is at least the depth.
unfoldable pub descendants : ℕ → List Replies → Bool → List Shown → List (List Shown)
descendants zero by_parent hidden comments = []
descendants (suc fuel) by_parent hidden comments =
    map
      (λ c.
        let h = hidden || c.hidden in
        record c { hidden = h }
        ∷ flatten (descendants fuel by_parent h (comments_of (get c.commentid by_parent))))
      comments

-- `thread`
unfoldable pub thread : List CommentRow → Bool → List Shown
thread query reverse_top_level =
    let by_parent = group query (record { parentid = 0; indent = 0; comments = [] } ∷ []) in
    let top = comments_of (get 0 by_parent) in
    flatten (
      descendants (suc (length query)) by_parent false
        (if reverse_top_level then reverse top else top))
