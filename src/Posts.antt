-- ===== src/Posts.antt =====
-- `remove` of weasyl/submission.py, weasyl/character.py and weasyl/journal.py, with the removal of their
-- notifications in weasyl/welcome.py, and the removals of weasyl/message.py. The caches are left out.
pub mod News
pub mod Removed
use weasyl.Prelude.{
  ℕ, Bool, true, false, not, ◌&&◌, ◌||◌, Option, none, some, List, [], ◌∷◌, map, ◌==◌, ltb,
  if◌then◌else◌,
}
use weasyl.Sql.{exists, select, update, elem}
use weasyl.Database.{
  FavoriteType, submit, char, journal, Submission, Post, FriendRow, accepted, pending, Notification,
  Db, ActionOn, pure, raise_if, modify, ◌>>◌, insufficient_permissions,
}
use weasyl.Welcome.{clear}
use weasyl.Friends.{is_pending}
use weasyl.SearchTags.Associate.{get_ownerid}
use weasyl.Comments
use weasyl.Comments.{Comment, CommentDb}

-- The ids of the comments on a post.
abbrev pub comments_on : FavoriteType → CommentDb → List Comment
comments_on submit db = db.comments
comments_on char db = db.charcomments
comments_on journal db = db.journalcomments

abbrev pub comment_ids : FavoriteType → ℕ → CommentDb → List ℕ
comment_ids feature id db =
    map (λ c. c.commentid) (select (λ c. c.targetid == id) (comments_on feature db))

-- The four conditions of `_queries_for_submission_notifications`, and those of `character_remove` and of
-- `journal_remove`; `ids` are those of the comments on the post.
abbrev pub is_about : FavoriteType → ℕ → List ℕ → Notification → Bool
is_about submit id ids n =
    (n.targetid == id && elem n.type (2010 ∷ 2030 ∷ []))
    || ((n.otherid == id && n.type == 3140)
        || (((n.targetid == id && n.type == 3030)
              || (n.referid == id && elem n.type (3020 ∷ 3050 ∷ 4050 ∷ [])))
            || (elem n.targetid ids && elem n.type (4020 ∷ 4025 ∷ []))))
is_about char id ids n =
    (n.targetid == id && n.type == 2050)
    || ((n.referid == id && n.type == 3100)
        || (elem n.targetid ids && elem n.type (4040 ∷ 4045 ∷ [])))
is_about journal id ids n =
    (n.targetid == id && n.type == 1010)
    || ((n.referid == id && n.type == 3110)
        || (elem n.targetid ids && elem n.type (4030 ∷ 4035 ∷ [])))

-- `submission_remove`, `character_remove`, whose three statements are one here, and `journal_remove`
unfoldable pub post_remove : FavoriteType → ℕ → CommentDb → CommentDb
post_remove feature id db = record db {
  site = clear (is_about feature id (comment_ids feature id db)) db.site;
}

-- `submission_became_friends_only`: the users who keep the notifications are the owner's friends.
abbrev pub befriends : ℕ → ℕ → FriendRow → Bool
befriends userid ownerid row =
    ((row.userid == userid && row.otherid == ownerid)
      || (row.otherid == userid && row.userid == ownerid))
    && not (is_pending row.settings)

unfoldable pub submission_became_friends_only : ℕ → ℕ → CommentDb → CommentDb
submission_became_friends_only submitid ownerid db = record db {
  site =
      clear
        (λ n.
          not (exists (befriends n.userid ownerid) db.site.friends)
          && is_about submit submitid (comment_ids submit submitid db) n)
        db.site;
}

-- `… WHERE … AND NOT hidden`
abbrev pub is_shown_submission : ℕ → Submission → Bool
is_shown_submission id s = s.submitid == id && not s.hidden

abbrev pub is_shown_post : ℕ → Post → Bool
is_shown_post id p = p.id == id && not p.hidden

-- Whether the `UPDATE` finds a row, and what it does.
unfoldable pub is_shown : FavoriteType → ℕ → Db → Bool
is_shown submit id db = exists (is_shown_submission id) db.submissions
is_shown char id db = exists (is_shown_post id) db.characters
is_shown journal id db = exists (is_shown_post id) db.journals

unfoldable pub hide_post : FavoriteType → ℕ → Db → Db
hide_post submit id db = record db {
  submissions = update (is_shown_submission id) (λ s. record s { hidden = true }) db.submissions;
}
hide_post char id db = record db {
  characters = update (is_shown_post id) (λ p. record p { hidden = true }) db.characters;
}
hide_post journal id db = record db {
  journals = update (is_shown_post id) (λ p. record p { hidden = true }) db.journals;
}

abbrev pub is_author : ℕ → Option ℕ → Bool
is_author userid none = false
is_author userid (some owner) = userid == owner

-- `remove`
unfoldable pub remove_post : FavoriteType → ℕ → ℕ → ActionOn CommentDb (Option ℕ)
unfolding post_remove is_shown hide_post
remove_post feature userid id db =
    let owner = get_ownerid feature id db.site in
    (raise_if (not (elem userid db.site.mods) && not (is_author userid owner))
          insufficient_permissions
        >> modify (λ db.
          if is_shown feature id db.site
          then post_remove feature id (record db { site = hide_post feature id db.site })
          else db)
        >> pure owner)
      db

-- `remove_all_before` and `remove_all_submissions` of weasyl/message.py, with the types of
-- `_NOTIFICATIONS_PAGE_TYPES`.
abbrev pub notifications_page_types : List ℕ
notifications_page_types =
    1010 ∷ 3010 ∷ 3020 ∷ 3100 ∷ 3110 ∷ 3050 ∷ 3030 ∷ 3035 ∷ 3070 ∷ 3075 ∷ 3080 ∷ 3085 ∷ 3140 ∷ 4010
    ∷ 4015 ∷ 4016 ∷ 4020 ∷ 4025 ∷ 4050 ∷ 4030 ∷ 4035 ∷ 4060 ∷ 4065 ∷ 4040 ∷ 4045 ∷ []

unfoldable pub remove_all_before : ℕ → ℕ → Db → Db
remove_all_before userid before =
    clear
      (λ n. n.userid == userid && (elem n.type notifications_page_types && ltb n.unixtime before))

unfoldable pub remove_all_submissions : ℕ → ℕ → Db → Db
remove_all_submissions userid only_before = clear (λ n.
    n.userid == userid && (elem n.type (2010 ∷ 2030 ∷ 2050 ∷ []) && ltb n.unixtime only_before))
