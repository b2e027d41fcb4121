-- ===== src/Comments/Removal.antt =====
-- `remove` of weasyl/comment.py and of weasyl/shout.py, and `comment_remove` of weasyl/welcome.py.
use weasyl.Prelude.{
  ℕ, zero, suc, ◌+◌, Bool, true, false, not, ◌&&◌, ◌||◌, none, some, List, [], ◌∷◌, ◌++◌, map, ◌==◌,
  ltb, if◌then◌else◌,
}
use weasyl.Sql.{exists, select, first, update, elem}
use weasyl.Database.{
  Db, ActionOn, Notification, pure, raise, raise_if, modify, ◌>>◌, unexpected, record_missing,
  shout_record_missing, insufficient_permissions,
}
use weasyl.Welcome.{clear}
use weasyl.Comments.{
  Feature, shout, submit, char, journal, Comment, CommentDb, table, set_table, is_shout,
  comment_code,
}

-- The greatest id of a table.
unfoldable pub last_id : List Comment → ℕ
last_id [] = 0
last_id (c ∷ rows) = let rest = last_id rows in if ltb rest c.commentid then c.commentid else rest

-- `WITH RECURSIVE rc`: the rounds of the query from the rows of one round, which end with the round that
-- finds no row. A reply has a greater id than its parent, so that as many rounds as the greatest id are
-- enough.
unfoldable pub recursive_rows : ℕ → List Comment → List ℕ → List ℕ
recursive_rows zero rows ids = []
recursive_rows (suc fuel) rows [] = []
recursive_rows (suc fuel) rows (id ∷ ids) =
    (id ∷ ids)
    ++ recursive_rows fuel rows
        (map (λ c. c.commentid) (select (λ c. elem c.parentid (id ∷ ids)) rows))

unfoldable pub recursive_ids : ℕ → List Comment → List ℕ
recursive_ids commentid rows =
    recursive_rows (suc (last_id rows)) rows
      (map (λ c. c.commentid) (select (λ c. c.commentid == commentid) rows))

-- `type IN (comment_code, reply_code)`
abbrev pub is_of_feature : Feature → Notification → Bool
is_of_feature feature n = n.type == comment_code feature || n.type == comment_code feature + 5

-- `welcome.comment_remove`
unfoldable pub comment_remove : ℕ → Feature → CommentDb → CommentDb
unfolding recursive_ids
comment_remove commentid feature db =
    let ids = recursive_ids commentid (table feature db) in
    record db { site = clear (λ n. is_of_feature feature n && elem n.targetid ids) db.site }

-- The row that `remove` reads.
abbrev pub is_visible : Feature → ℕ → Comment → Bool
is_visible shout commentid c =
    c.commentid == commentid && (not (c.target_user == 0) && not c.hidden)
is_visible submit commentid c = c.commentid == commentid && (not (c.targetid == 0) && not c.hidden)
is_visible _ commentid c = c.commentid == commentid && not c.hidden

-- The owner of the post, which is nobody for a site update.
abbrev pub is_owner : Feature → ℕ → ℕ → Db → Bool
is_owner submit target userid db = elim (first (λ s. s.submitid == target) db.submissions) [
  | none ↦ false
  | some s ↦ userid == s.userid
]
is_owner char target userid db = elim (first (λ p. p.id == target) db.characters) [
  | none ↦ false
  | some p ↦ userid == p.userid
]
is_owner journal target userid db = elim (first (λ p. p.id == target) db.journals) [
  | none ↦ false
  | some p ↦ userid == p.userid
]
is_owner _ target userid db = false

-- `UPDATE … SET settings = settings || 'h', hidden_by = … WHERE commentid = … AND settings !~ 'h'`
unfoldable pub hide_comment : Feature → ℕ → ℕ → CommentDb → CommentDb
hide_comment feature userid commentid db =
    set_table feature
      (update (λ c. c.commentid == commentid && not c.hidden)
        (λ c. record c { hidden = true; hidden_by = userid }) (table feature db))
      db

-- `remove` of weasyl/comment.py, from the row that it reads.
unfoldable pub remove_found : ℕ → Feature → Comment → ActionOn CommentDb ℕ
unfolding comment_remove hide_comment
remove_found userid feature c db =
    let is_privileged = is_owner feature c.targetid userid db.site || elem userid db.site.mods in
    (raise_if (not is_privileged && not (userid == c.userid)) insufficient_permissions
        >> raise_if
            (not is_privileged
              && exists (λ r. r.parentid == c.commentid && not r.hidden) (table feature db))
            insufficient_permissions
        >> modify (comment_remove c.commentid feature)
        >> modify (hide_comment feature userid c.commentid)
        >> pure c.targetid)
      db

unfoldable pub remove_comment : ℕ → Feature → ℕ → ActionOn CommentDb ℕ
unfolding remove_found
remove_comment userid feature commentid db =
    if is_shout feature
    then raise unexpected db
    else elim (first (is_visible feature commentid) (table feature db)) [
      | none ↦ raise record_missing db
      | some c ↦ remove_found userid feature c db
    ]

-- `remove` of weasyl/shout.py. Its test for replies counts the hidden ones too, and the replies to a
-- staff note keep their notifications.
unfoldable pub remove_found_shout : ℕ → Comment → ActionOn CommentDb ℕ
unfolding comment_remove hide_comment
remove_found_shout userid c db =
    let is_mod = elem userid db.site.mods in
    let is_privileged = userid == c.target_user || is_mod in
    (raise_if (c.staff_note && not is_mod) shout_record_missing
        >> raise_if (not is_privileged && not (userid == c.userid)) insufficient_permissions
        >> raise_if (not is_privileged && exists (λ r. r.parentid == c.commentid) db.comments)
            insufficient_permissions
        >> modify (λ db. if c.staff_note then db else comment_remove c.commentid shout db)
        >> modify (hide_comment shout userid c.commentid)
        >> pure c.target_user)
      db

unfoldable pub remove_shout : ℕ → ℕ → ActionOn CommentDb ℕ
unfolding remove_found_shout
remove_shout userid commentid db = elim (first (is_visible shout commentid) db.comments) [
  | none ↦ raise shout_record_missing db
  | some c ↦ remove_found_shout userid c db
]
