-- ===== src/Comments.antt =====
-- weasyl/comment.py and weasyl/shout.py: the comments on posts and the shouts on profiles, with the
-- notifications that weasyl/welcome.py writes for them. Texts and times are left out, and so are the
-- caches of page headers and of the last site update.
pub mod Insertion
pub mod Removal
pub mod Shouts
pub mod Replies
pub mod Cleared
use weasyl.Prelude.{ℕ, Bool, true, false, Option, none, some, List, ◌==◌, if◌then◌else◌}
use weasyl.Sql.{first}
use weasyl.Database.{Db, Action, ActionOn, Notification, raise, pure, type_error}

-- What is commented on, with `shout` for a profile.
pub data Feature : Type 0 where
  shout submit char journal siteupdate : Feature

-- A row of `comments`, whose target is a profile or a submission, or of `charcomment`,
-- `journalcomment` or `siteupdatecomment`. Zero stands for NULL in a column of ids. `hidden` is
-- `settings ~ 'h'`, or `hidden_at IS NOT NULL`, and `staff_note` is `settings ~ 's'`.
pub record Comment : Type 0 where
  pub commentid : ℕ
  pub userid : ℕ
  pub target_user : ℕ
  pub targetid : ℕ
  pub parentid : ℕ
  pub hidden : Bool
  pub staff_note : Bool
  pub hidden_by : ℕ

pub record SiteUpdate : Type 0 where
  pub updateid : ℕ
  pub userid : ℕ

-- What `_get_all_config` reads of `login` and of the bans.
pub record Login : Type 0 where
  pub userid : ℕ
  pub is_banned : Bool
  pub is_vouched_for : Bool

pub record CommentDb : Type 0 where
  pub site : Db
  pub comments : List Comment
  pub charcomments : List Comment
  pub journalcomments : List Comment
  pub siteupdatecomments : List Comment
  pub siteupdates : List SiteUpdate
  pub logins : List Login

-- The table that holds the comments on a feature, and its replacement.
abbrev pub table : Feature → CommentDb → List Comment
table shout db = db.comments
table submit db = db.comments
table char db = db.charcomments
table journal db = db.journalcomments
table siteupdate db = db.siteupdatecomments

abbrev pub set_table : Feature → List Comment → CommentDb → CommentDb
set_table shout rows db = record db { comments = rows }
set_table submit rows db = record db { comments = rows }
set_table char rows db = record db { charcomments = rows }
set_table journal rows db = record db { journalcomments = rows }
set_table siteupdate rows db = record db { siteupdatecomments = rows }

-- `feature == 'shout'`
abbrev pub is_shout : Feature → Bool
is_shout shout = true
is_shout _ = false

-- The type of the notifications of comments on a feature; that of replies is 5 more.
abbrev pub comment_code : Feature → ℕ
comment_code shout = 4010
comment_code submit = 4020
comment_code char = 4040
comment_code journal = 4030
comment_code siteupdate = 4060

-- A call on the tables of the whole site.
unfoldable pub on_site : {A : Type 0} → Action A → ActionOn CommentDb A
on_site action db = let (r, site) = action db.site in (r, record db { site = site })

-- `_get_all_config`, of a user who exists.
pub login_of : ℕ → ActionOn CommentDb Login
login_of userid db = elim (first (λ l. l.userid == userid) db.logins) [
  | none ↦ raise type_error db
  | some l ↦ pure l db
]

-- A notification about the comment `commentid`, from `userid` to `otherid`.
abbrev pub comment_note : ℕ → ℕ → ℕ → ℕ → ℕ → Db → Notification
comment_note type userid commentid otherid referid db = record {
  userid = otherid;
  otherid = userid;
  referid = referid;
  targetid = commentid;
  unixtime = db.now;
  type = type;
}
