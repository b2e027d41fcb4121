-- ===== src/Comments/Cleared.antt =====
-- What the removal of a comment changes.
use weasyl.Prelude.{
  ◌≡◌, refl, ap, ◌∙◌, inl, inr, ℕ, arith, Bool, true, false, not, ◌&&◌, ◌||◌, some, List, [], ◌∷◌,
  ◌==◌, Bool-cases, Option-cases,
}
use weasyl.Sql.{exists, select, first, update, elem}
use weasyl.Sql.Rows.{select-delete_other}
use weasyl.Sql.Laws.{first-found, exists-delete_implied}
use weasyl.Database.{Notification, ok}
use weasyl.Comments.{
  Feature, shout, submit, char, journal, siteupdate, Comment, CommentDb, table, set_table, is_shout,
}
use weasyl.Comments.Removal.{
  recursive_ids, is_of_feature, comment_remove, is_visible, is_owner, hide_comment, remove_found,
  remove_comment,
}
use weasyl.Comments.Replies.{IsBelow, RepliesFollow, elem-recursive_ids}

-- Who may remove a comment: the owner of the post, a moderator, and its author while no reply shows.
abbrev pub may_remove : ℕ → Feature → Comment → CommentDb → Bool
may_remove userid feature c db =
    is_owner feature c.targetid userid db.site
    || (elem userid db.site.mods
        || (userid == c.userid
            && not (exists (λ r. r.parentid == c.commentid && not r.hidden) (table feature db))))

is_visible-commentid :
    (feature : Feature) (commentid : ℕ) (r : Comment)
    → is_visible feature commentid r ≡ true
    → r.commentid ≡ commentid
is_visible-commentid shout commentid r h = ground arith
is_visible-commentid submit commentid r h = ground arith
is_visible-commentid char commentid r h = ground arith
is_visible-commentid journal commentid r h = ground arith
is_visible-commentid siteupdate commentid r h = ground arith

visible-commentid :
    (feature : Feature) (commentid : ℕ) (rows : List Comment) (c : Comment)
    → first (is_visible feature commentid) rows ≡ some c
    → c.commentid ≡ commentid
visible-commentid feature commentid rows c h =
    is_visible-commentid feature commentid c (first-found (is_visible feature commentid) rows c h)

remove_found-ok :
    (userid : ℕ) (feature : Feature) (c : Comment) (db : CommentDb) (target : ℕ)
    → (remove_found userid feature c db).0 ≡ ok target
    → (may_remove userid feature c db ≡ true)
      × ((remove_found userid feature c db).1
          ≡ hide_comment feature userid c.commentid (comment_remove c.commentid feature db))
unfolding remove_found
remove_found-ok userid feature c db target h =
    let owns = is_owner feature c.targetid userid db.site in
    let is_mod = elem userid db.site.mods in
    let has_replies = exists (λ r. r.parentid == c.commentid && not r.hidden) (table feature db) in
    elim (Bool-cases (not (owns || is_mod) && not (userid == c.userid))) [
      | inl e ↦ absurd (ground arith)
      | inr e ↦ elim (Bool-cases (not (owns || is_mod) && has_replies)) [
        | inl k ↦ absurd (ground arith)
        | inr k ↦ (ground arith, rw (e, k) refl)
      ]
    ]

remove_comment-ok :
    (userid : ℕ) (feature : Feature) (commentid : ℕ) (db : CommentDb) (target : ℕ)
    → (remove_comment userid feature commentid db).0 ≡ ok target
    → (c : Comment) × (first (is_visible feature commentid) (table feature db) ≡ some c)
      × ((remove_found userid feature c db).0 ≡ ok target)
      × ((remove_comment userid feature commentid db).1 ≡ (remove_found userid feature c db).1)
unfolding remove_comment
remove_comment-ok userid feature commentid db target h = elim (Bool-cases (is_shout feature)) [
  | inl e ↦ ground arith
  | inr e ↦ elim (Option-cases (first (is_visible feature commentid) (table feature db))) [
    | inl k ↦ ground arith
    | inr (c, k) ↦ (c, k, ground arith, ground arith)
  ]
]

-- What the statements keep of the rest of the state.
site-hide :
    (feature : Feature) (userid commentid : ℕ) (db : CommentDb)
    → (hide_comment feature userid commentid db).site ≡ db.site
unfolding hide_comment
site-hide shout userid commentid db = refl
site-hide submit userid commentid db = refl
site-hide char userid commentid db = refl
site-hide journal userid commentid db = refl
site-hide siteupdate userid commentid db = refl

table-set_table :
    (feature : Feature) (rows : List Comment) (db : CommentDb)
    → table feature (set_table feature rows db) ≡ rows
table-set_table shout rows db = refl
table-set_table submit rows db = refl
table-set_table char rows db = refl
table-set_table journal rows db = refl
table-set_table siteupdate rows db = refl

no_visible :
    (userid commentid : ℕ) (rows : List Comment)
    → exists
        (λ c. c.commentid == commentid && not c.hidden)
        (update
          (λ c. c.commentid == commentid && not c.hidden)
          (λ c. record c { hidden = true; hidden_by = userid })
          rows)
      ≡ false
no_visible userid commentid [] = refl
no_visible userid commentid (c ∷ rows) = ground (arith, no_visible userid commentid rows)

hidden-hide :
    (feature : Feature) (userid commentid : ℕ) (db : CommentDb)
    → exists
        (λ c. c.commentid == commentid && not c.hidden)
        (table feature (hide_comment feature userid commentid db))
      ≡ false
unfolding hide_comment
hidden-hide feature userid commentid db =
    rw (table-set_table feature _ db) (no_visible userid commentid (table feature db))

is_cleared :
    (feature : Feature) (ids : List ℕ) (id : ℕ)
    → elem id ids ≡ true
    → (n : Notification) → (is_of_feature feature n && n.targetid == id) ≡ true
    → (is_of_feature feature n && elem n.targetid ids) ≡ true
is_cleared feature ids id h n k = let e : n.targetid ≡ id = ground arith in rw (e, h) (ground arith)

-- The notifications that `comment_remove` leaves.
comment_remove-clears :
    (feature : Feature) (commentid id : ℕ) (db : CommentDb)
    → RepliesFollow (table feature db)
    → IsBelow (table feature db) commentid id
    → exists
        (λ n. is_of_feature feature n && n.targetid == id)
        (comment_remove commentid feature db).site.welcome
      ≡ false
unfolding comment_remove
comment_remove-clears feature commentid id db o b =
    let ids = recursive_ids commentid (table feature db) in
    exists-delete_implied (λ n. is_of_feature feature n && elem n.targetid ids)
      (λ n. is_of_feature feature n && n.targetid == id) db.site.welcome
      (is_cleared feature ids id (elem-recursive_ids (table feature db) commentid id o b))

comment_remove-others :
    (feature : Feature) (commentid : ℕ) (db : CommentDb)
    → select (λ n. not (is_of_feature feature n)) (comment_remove commentid feature db).site.welcome
      ≡ select (λ n. not (is_of_feature feature n)) db.site.welcome
unfolding comment_remove
comment_remove-others feature commentid db =
    let ids = recursive_ids commentid (table feature db) in
    select-delete_other (λ n. is_of_feature feature n && elem n.targetid ids)
      (λ n. not (is_of_feature feature n)) db.site.welcome (λ n k. ground arith)

-- A comment that `remove` removes without an error showed before, and the user may remove it: as the
-- owner of the post, as a moderator, or as the author of a comment to which no reply shows. Afterwards no
-- comment with its id shows. No notification of the feature's comments and replies is left about the comment
-- `id`, which is any of it and the replies in the chains below it, shown or hidden, and the notifications of
-- all other types are as before. Every reply of the table has a greater id than its parent.
pub remove_comment_lem :
    (userid : ℕ) (feature : Feature) (commentid target id : ℕ) (db : CommentDb)
    → RepliesFollow (table feature db)
    → (remove_comment userid feature commentid db).0 ≡ ok target
    → IsBelow (table feature db) commentid id
    → let after = (remove_comment userid feature commentid db).1 in
      ((c : Comment) × (first (is_visible feature commentid) (table feature db) ≡ some c)
        × (may_remove userid feature c db ≡ true))
      × (exists (λ c. c.commentid == commentid && not c.hidden) (table feature after) ≡ false)
      × (exists (λ n. is_of_feature feature n && n.targetid == id) after.site.welcome ≡ false)
      × (select (λ n. not (is_of_feature feature n)) after.site.welcome
          ≡ select (λ n. not (is_of_feature feature n)) db.site.welcome)
remove_comment_lem userid feature commentid target id db o h b =
    let (c, found, done, same) = remove_comment-ok userid feature commentid db target h in
    let (allowed, end) = remove_found-ok userid feature c db target done in
    let i = visible-commentid feature commentid (table feature db) c found in
    let after : (remove_comment userid feature commentid db).1
        ≡ hide_comment feature userid commentid (comment_remove commentid feature db) =
      same ∙ end ∙ ap (λ k. hide_comment feature userid k (comment_remove k feature db)) i in
    let kept = site-hide feature userid commentid (comment_remove commentid feature db) in
    (
      (c, found, allowed),
      rw after (hidden-hide feature userid commentid (comment_remove commentid feature db)),
      rw (after, kept) (comment_remove-clears feature commentid id db o b),
      rw (after, kept) (comment_remove-others feature commentid db),
    )
