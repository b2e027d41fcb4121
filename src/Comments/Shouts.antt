-- ===== src/Comments/Shouts.antt =====
-- `insert` and `count_staff_notes` of weasyl/shout.py, and `count` of weasyl/comment.py.
use weasyl.Prelude.{ℕ, Bool, true, false, not, ◌&&◌, ◌||◌, none, some, ◌==◌, if◌then◌else◌}
use weasyl.Sql.{first, count, insert, elem}
use weasyl.Database.{
  Db, ActionOn, has, pure, raise, raise_if, gets, modify, ◌>>=◌, ◌>>◌, unexpected, comment_invalid,
  page_owner_ignored_you, you_ignored_page_owner, reply_recipient_ignored_you,
  you_ignored_reply_recipient, insufficient_action_permissions,
}
use weasyl.Ignores
use weasyl.Friends
use weasyl.Watches.{get_config}
use weasyl.Welcome.{notify}
use weasyl.Comments.{Feature, CommentDb, table, comment_note, on_site, login_of}

abbrev same_flag : Bool → Bool → Bool
same_flag true b = b
same_flag false b = not b

-- `parentuserid`, 0 where there is no parent.
unfoldable pub parent_shouter : ℕ → ℕ → Bool → ActionOn CommentDb ℕ
parent_shouter target_user parentid staffnotes db =
    if parentid == 0
    then pure 0 db
    else elim (first
        (λ c.
          c.commentid == parentid
          && (c.target_user == target_user && same_flag c.staff_note staffnotes))
        db.comments) [ none ↦ raise unexpected db | some c ↦ pure c.userid db ]

-- The test of the target, which is not made for staff notes.
unfoldable pub expect_vouched : ℕ → Bool → ActionOn CommentDb Unit
expect_vouched target_user staffnotes =
    if target_user == 0
    then raise unexpected
    else login_of target_user >>= λ login.
        raise_if (not login.is_vouched_for && not staffnotes) unexpected

-- The checks that moderators skip.
unfoldable pub may_shout : ℕ → ℕ → ℕ → ActionOn CommentDb Unit
unfolding on_site
may_shout userid target_user parentuserid = do
  raise_if (← gets (λ db. Ignores.check target_user userid db.site)) page_owner_ignored_you
  raise_if (← gets (λ db. Ignores.check userid target_user db.site)) you_ignored_page_owner
  raise_if (← gets (λ db. Ignores.check parentuserid userid db.site)) reply_recipient_ignored_you
  raise_if (← gets (λ db. Ignores.check userid parentuserid db.site)) you_ignored_reply_recipient
  login ← login_of target_user
  config ← on_site (get_config target_user)
  friends ← gets (λ db. Friends.check userid target_user db.site)
  raise_if (login.is_banned || (has b'w' config || (has b'x' config && not friends)))
      insufficient_action_permissions

-- `welcome.shout_insert` and `welcome.shoutreply_insert`
unfoldable pub shout_insert : ℕ → ℕ → ℕ → Db → Db
shout_insert userid commentid otherid db =
    notify (comment_note 4010 userid commentid otherid 0 db) db

unfoldable pub shoutreply_insert : ℕ → ℕ → ℕ → ℕ → Bool → Db → Db
shoutreply_insert userid commentid otherid parentid staffnote db =
    notify (comment_note (if staffnote then 4016 else 4015) userid commentid otherid parentid db) db

-- The notification of a shout.
unfoldable pub shout_notifications : ℕ → ℕ → ℕ → ℕ → Bool → ℕ → Db → Db
unfolding shout_insert shoutreply_insert
shout_notifications userid target_user parentid parentuserid staffnotes commentid db =
    if not (parentid == 0) && not (userid == parentuserid)
    then (if not staffnotes || elem parentuserid db.mods
        then shoutreply_insert userid commentid parentuserid parentid staffnotes db
        else db)
    else if not staffnotes && not (userid == target_user)
    then shout_insert userid commentid target_user db
    else db

unfoldable pub insert_shout_row : ℕ → ℕ → ℕ → Bool → ℕ → CommentDb → CommentDb
insert_shout_row userid target_user parentid staffnotes commentid db = record db {
  comments =
      insert
        (record {
          commentid = commentid;
          userid = userid;
          target_user = target_user;
          targetid = 0;
          parentid = parentid;
          hidden = false;
          staff_note = staffnotes;
          hidden_by = 0;
        })
        db.comments;
}

-- `insert`, of a shout that gets the id `commentid`. The flag says that the content is empty.
unfoldable pub insert_shout : ℕ → ℕ → ℕ → Bool → Bool → ℕ → ActionOn CommentDb ℕ
unfolding expect_vouched parent_shouter may_shout insert_shout_row shout_notifications
insert_shout userid target_user parentid is_blank staffnotes commentid = do
  raise_if is_blank comment_invalid
  expect_vouched target_user staffnotes
  parentuserid ← parent_shouter target_user parentid staffnotes
  is_mod ← gets (λ db. elem userid db.site.mods)
  if is_mod then pure tt else may_shout userid target_user parentuserid
  modify (insert_shout_row userid target_user parentid staffnotes commentid)
  modify (λ db. record db {
    site =
        shout_notifications userid target_user parentid parentuserid staffnotes commentid db.site;
  })
  pure commentid

-- `count_staff_notes`
unfoldable pub count_staff_notes : ℕ → CommentDb → ℕ
count_staff_notes ownerid db = count (λ c. c.staff_note && c.target_user == ownerid) db.comments

-- `count`, of the comments on a submission, a journal or a character.
unfoldable pub count_comments : ℕ → Feature → CommentDb → ℕ
count_comments id feature db = count (λ c. c.targetid == id) (table feature db)
