-- ===== src/Announcements.antt =====
-- weasyl/welcome.py: the notifications of new posts and of streams.
pub mod Friends
use weasyl.Prelude.{
  ℕ, ◌+◌, Bool, true, false, not, ◌&&◌, ◌||◌, Option, none, some, List, [], ◌∷◌, ◌++◌, map, ◌==◌,
  leb, if◌then◌else◌,
}
use weasyl.Sql.{exists, select}
use weasyl.Database.{WatchRow, Notification, Db, has}
use weasyl.Watches.{views_rating, joined, befriended, list_followed}
use weasyl.Folders.{submission_has_folder_flag}
use weasyl.Welcome.{notify, target_note, clear, submission_owner}

-- `_insert`, where `referid` is 0 in every call.
pub insert_all : ℕ → ℕ → ℕ → List ℕ → Db → Db
insert_all sender targetid type notify_users db = record db {
  welcome = db.welcome ++ map (λ userid. target_note type userid sender targetid db) notify_users;
}

-- `targetid = … AND tagid IN (SELECT tagid FROM blocktag …)`
abbrev pub is_blocked : ℕ → ℕ → ℕ → Db → Bool
is_blocked userid submitid rating db =
    exists
      (λ t.
        t.targetid == submitid
        && exists (λ b. b.userid == userid && (b.tagid == t.tagid && leb b.rating rating))
            db.blocktags)
      db.submission_tags

-- The clauses of the query of `submission_insert`.
abbrev pub wants_submission : ℕ → ℕ → ℕ → Bool → Db → WatchRow → Bool
wants_submission userid submitid rating friends_only db wu =
    wu.otherid == userid
    && (has b's' wu.settings
        && ((if friends_only then befriended wu.userid wu.otherid db else true)
            && (joined wu.userid (λ pr. views_rating rating pr.config) db
                && not (is_blocked wu.userid submitid rating db))))

-- `submission_insert`
pub submission_insert : ℕ → ℕ → ℕ → Bool → Db → Db
submission_insert userid submitid rating friends_only db =
    if submission_has_folder_flag submitid b'n' db
    then db
    else insert_all userid submitid 2010
        (map (λ wu. wu.userid)
          (select (wants_submission userid submitid rating friends_only db) db.watches))
        db

-- `character_insert` and `journal_insert`
pub character_insert : ℕ → ℕ → ℕ → Bool → Db → Db
character_insert userid charid rating friends_only db =
    insert_all userid charid 2050 (list_followed userid b'f' rating friends_only db) db

pub journal_insert : ℕ → ℕ → ℕ → Bool → Db → Db
journal_insert userid journalid rating friends_only db =
    insert_all userid journalid 1010 (list_followed userid b'j' rating friends_only db) db

-- `stream_insert`, with the default rating 10 of `list_followed`.
pub stream_insert : ℕ → ℕ → Db → Db
stream_insert userid status db =
    let cleared = clear (λ n. n.otherid == userid && (n.type == 3070 || n.type == 3075)) db in
    if status == b'n'
    then insert_all userid 0 3075 (list_followed userid b't' 10 false cleared) cleared
    else if status == b'l'
    then insert_all userid 0 3070 (list_followed userid b't' 10 false cleared) cleared
    else cleared
