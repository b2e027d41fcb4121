-- ===== src/Comments/Insertion.antt =====
-- `insert` of weasyl/comment.py, with `comment_insert` and `commentreply_insert` of weasyl/welcome.py.
use weasyl.Prelude.{
  ℕ, ◌+◌, Bool, false, not, ◌&&◌, Option, none, some, List, [], ◌∷◌, ◌++◌, ◌==◌, if◌then◌else◌,
}
use weasyl.Sql.{first, insert, delete, elem}
use weasyl.Database
use weasyl.Database.{
  Db, ActionOn, Submission, Post, pure, raise, raise_if, gets, modify, ◌>>=◌, ◌>>◌, unexpected,
  comment_invalid, submission_record_missing, page_owner_ignored_you, you_ignored_page_owner,
  reply_recipient_ignored_you, you_ignored_reply_recipient,
}
use weasyl.Ignores
use weasyl.Friends
use weasyl.Favorites
use weasyl.Welcome.{notify, submission_owner}
use weasyl.Comments.{
  Feature, submit, char, journal, siteupdate, CommentDb, table, set_table, comment_code,
  comment_note, on_site,
}

-- The four ids of a call: the one that is not 0 is the target.
pub record Target : Type 0 where
  pub submitid : ℕ
  pub charid : ℕ
  pub journalid : ℕ
  pub updateid : ℕ

abbrev flag : ℕ → ℕ
flag id = if id == 0 then 0 else 1

-- The two first guards of `insert`.
abbrev pub feature_of : Target → Option (Feature × ℕ)
feature_of t =
    if flag t.submitid + flag t.charid + flag t.journalid + flag t.updateid == 1
    then some (
        if not (t.submitid == 0)
        then (submit, t.submitid)
        else if not (t.charid == 0)
        then (char, t.charid)
        else if not (t.journalid == 0)
        then (journal, t.journalid)
        else (siteupdate, t.updateid))
    else none

-- `parentuserid`, 0 where there is no parent.
unfoldable pub parent_user : Feature → ℕ → ℕ → ActionOn CommentDb ℕ
parent_user feature target parentid db =
    if parentid == 0
    then pure 0 db
    else elim (first (λ c. c.commentid == parentid && c.targetid == target) (table feature db)) [
      | none ↦ raise unexpected db
      | some c ↦ pure c.userid db
    ]

-- The owner of a post that is not hidden, and whether it is for friends only.
abbrev pub visible_submission : Option Submission → Option (ℕ × Bool)
visible_submission none = none
visible_submission (some s) = some (s.userid, s.friends_only)

abbrev pub visible_post : Option Post → Option (ℕ × Bool)
visible_post none = none
visible_post (some p) = some (p.userid, p.friends_only)

abbrev pub visible_target : Feature → ℕ → Db → Option (ℕ × Bool)
visible_target submit target db =
    visible_submission (first (λ s. s.submitid == target && not s.hidden) db.submissions)
visible_target char target db =
    visible_post (first (λ p. p.id == target && not p.hidden) db.characters)
visible_target journal target db =
    visible_post (first (λ p. p.id == target && not p.hidden) db.journals)
visible_target _ target db = none

-- `otherid`: the owner of the target, after the permission checks.
unfoldable pub target_owner : ℕ → Feature → ℕ → ActionOn CommentDb ℕ
target_owner userid siteupdate target db = elim (first (λ u. u.updateid == target) db.siteupdates) [
  | none ↦ raise submission_record_missing db
  | some u ↦ if u.userid == 0 then raise submission_record_missing db else pure u.userid db
]
target_owner userid feature target db = elim (visible_target feature target db.site) [
  | none ↦ raise submission_record_missing db
  | some (owner, for_friends) ↦
      (raise_if (for_friends && not (Friends.check userid owner db.site)) submission_record_missing
          >> raise_if (Ignores.check owner userid db.site) page_owner_ignored_you
          >> raise_if (Ignores.check userid owner db.site) you_ignored_page_owner
          >> pure owner)
        db
]

-- `set(…)`, `add` and `discard` on the users to notify. Their order is that of the notifications alone.
abbrev pub add_once : ℕ → List ℕ → List ℕ
add_once other notified = if elem other notified then notified else notified ++ other ∷ []

abbrev pub as_set : List ℕ → List ℕ → List ℕ
as_set [] notified = notified
as_set (other ∷ others) notified = as_set others (add_once other notified)

abbrev pub discard : ℕ → List ℕ → List ℕ
discard userid = delete (λ other. other == userid)

-- `filter(can_notify, find_owners(submitid))`
unfoldable pub collectors : ℕ → Feature → ℕ → ActionOn CommentDb (List ℕ)
unfolding on_site
collectors userid submit target db =
    on_site (Favorites.notifiable userid (Favorites.find_owners Database.submit target db.site)) db
collectors userid _ target db = pure [] db

-- The type of a notification of a comment on a submission, to its owner or to a collector.
abbrev pub submission_code : ℕ → Option ℕ → ℕ
submission_code otherid none = 4050
submission_code otherid (some owner) = if owner == otherid then 4020 else 4050

-- `welcome.comment_insert`
unfoldable pub comment_insert : ℕ → ℕ → ℕ → Feature → ℕ → Db → Db
comment_insert userid commentid otherid submit target db =
    notify
      (comment_note (submission_code otherid (submission_owner target db)) userid commentid otherid
        target db)
      db
comment_insert userid commentid otherid feature target db =
    notify (comment_note (comment_code feature) userid commentid otherid target db) db

unfoldable pub comment_insert_all : ℕ → ℕ → List ℕ → Feature → ℕ → Db → Db
unfolding comment_insert
comment_insert_all userid commentid [] feature target db = db
comment_insert_all userid commentid (other ∷ notified) feature target db =
    comment_insert_all userid commentid notified feature target
      (comment_insert userid commentid other feature target db)

-- `welcome.commentreply_insert`
unfoldable pub commentreply_insert : ℕ → ℕ → ℕ → ℕ → Feature → Db → Db
commentreply_insert userid commentid otherid parentid feature db =
    notify (comment_note (comment_code feature + 5) userid commentid otherid parentid db) db

-- `INSERT INTO …`, of the row that gets the id `commentid`.
unfoldable pub insert_row : ℕ → Feature → ℕ → ℕ → ℕ → CommentDb → CommentDb
insert_row userid feature target parentid commentid db =
    set_table feature
      (insert
        (record {
          commentid = commentid;
          userid = userid;
          target_user = 0;
          targetid = target;
          parentid = parentid;
          hidden = false;
          staff_note = false;
          hidden_by = 0;
        })
        (table feature db))
      db

-- The notifications of a comment.
unfoldable pub insert_notifications : ℕ → Feature → ℕ → ℕ → ℕ → ℕ → ℕ → ActionOn CommentDb Unit
unfolding collectors comment_insert_all commentreply_insert
insert_notifications userid feature target parentid parentuserid otherid commentid =
    if not (parentid == 0) && not (userid == parentuserid)
    then modify (λ db. record db {
      site = commentreply_insert userid commentid parentuserid parentid feature db.site;
    })
    else if parentid == 0
    then (collectors userid feature target >>= λ others.
        let notified = discard userid (add_once otherid (as_set others [])) in
        modify (λ db. record db {
          site = comment_insert_all userid commentid notified feature target db.site;
        }))
    else pure tt

-- `insert`, of a comment that gets the id `commentid`. The flag says that the content is empty.
unfoldable pub insert_on : ℕ → Feature → ℕ → ℕ → Bool → ℕ → ActionOn CommentDb ℕ
unfolding parent_user target_owner insert_row insert_notifications
insert_on userid feature target parentid is_blank commentid = do
  raise_if is_blank comment_invalid
  parentuserid ← parent_user feature target parentid
  otherid ← target_owner userid feature target
  raise_if (← gets (λ db. Ignores.check parentuserid userid db.site)) reply_recipient_ignored_you
  raise_if (← gets (λ db. Ignores.check userid parentuserid db.site)) you_ignored_reply_recipient
  modify (insert_row userid feature target parentid commentid)
  insert_notifications userid feature target parentid parentuserid otherid commentid
  pure commentid

unfoldable pub insert_comment : ℕ → Target → ℕ → Bool → ℕ → ActionOn CommentDb ℕ
unfolding insert_on
insert_comment userid target parentid is_blank commentid db = elim (feature_of target) [
  | none ↦ raise unexpected db
  | some (feature, id) ↦ insert_on userid feature id parentid is_blank commentid db
]
