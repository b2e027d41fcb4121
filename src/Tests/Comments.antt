-- ===== src/Tests/Comments.antt =====
-- weasyl/comment.py, and the removal of a submission, on small inputs.
use weasyl.Prelude.{
  ◌⊎◌, ◌||◌, ◌≡◌, refl, ℕ, arith, Bool, true, false, not, ◌&&◌, none, some, List, [], ◌∷◌, reverse,
  ◌==◌,
}
use weasyl.Sql.{elem, exists, select, first}
use weasyl.Database.{Notification, ok, err, insufficient_permissions}
use weasyl.Prelude.Int.{pos}
use weasyl.Comments.{submit, Comment, CommentDb}
use weasyl.Comments.Insertion.{Target, insert_comment}
use weasyl.Comments.Removal.{is_visible, is_of_feature, last_id, recursive_rows, remove_comment}
use weasyl.Comments.Replies.{itself, reply}
use weasyl.Comments.Cleared.{may_remove, remove_comment_lem}
use weasyl.Favorites.{find_owners, notifiable, allows_notifs, can_notify}
use weasyl.Ignores.{check}
use weasyl.Welcome.{submission_owner}
use weasyl.Database
use weasyl.SearchTags.Associate.{get_ownerid}
use weasyl.Posts.{is_shown, is_author, remove_post}
use weasyl.Posts.News.{is_news}
use weasyl.Posts.Removed.{remove_post_lem}
use weasyl.Threads
use weasyl.Threads.{CommentRow, thread, group, descendants}
use weasyl.Threads.Order.{subtrees, thread-subtrees}
use weasyl.Tests.Users.{site}

-- Comment 7 answers comment 3, which is hidden, and comment 9 is at the top again.
abbrev query : List CommentRow
query =
    record { commentid = 3; parentid = 0; userid = 1; hidden = true }
    ∷ record { commentid = 4; parentid = 0; userid = 2; hidden = false }
    ∷ record { commentid = 7; parentid = 3; userid = 2; hidden = false }
    ∷ record { commentid = 8; parentid = 5; userid = 2; hidden = false }
    ∷ []

abbrev entry : ℕ → ℕ → ℕ → Bool → Threads.Shown
entry commentid userid indent hidden = record {
  commentid = commentid;
  userid = userid;
  indent = indent;
  hidden = hidden;
}

thread-query : thread query true ≡ entry 4 2 0 false ∷ entry 3 1 0 true ∷ entry 7 2 1 true ∷ []
unfolding thread group descendants
thread-query = refl

thread-subtrees_example : thread query true ≡ Threads.flatten (reverse (subtrees 0 0 false query))
thread-subtrees_example =
    thread-subtrees query true (omega arith, (omega arith, (omega arith, (omega arith, tt))))

-- User 1 owns submission 5, user 4 has collected it, and user 2 comments on it, as comment 11, which
-- user 1 answers.
abbrev pub commented : CommentDb
commented = record {
  site = record site {
    submissions =
        record {
          submitid = 5;
          userid = 1;
          rating = 10;
          hidden = false;
          friends_only = false;
          favorites = pos 0;
          folderid = none;
          subtype = 1010;
          browse_excluded = false;
        }
        ∷ [];
    collections = record { userid = 4; submitid = 5; unixtime = 1; settings = [] } ∷ [];
    profiles =
        record {
          userid = 4;
          config = [];
          allow_collection_requests = true;
          allow_collection_notifs = true;
        }
        ∷ [];
  };
  comments = [];
  charcomments = [];
  journalcomments = [];
  siteupdatecomments = [];
  siteupdates = [];
  logins = [];
}

abbrev on_five : Target
on_five = record { submitid = 5; charid = 0; journalid = 0; updateid = 0 }

abbrev row_of : ℕ → ℕ → ℕ → Bool → ℕ → Comment
row_of commentid userid parentid hidden hidden_by = record {
  commentid = commentid;
  userid = userid;
  target_user = 0;
  targetid = 5;
  parentid = parentid;
  hidden = hidden;
  staff_note = false;
  hidden_by = hidden_by;
}

abbrev note_of : ℕ → ℕ → ℕ → ℕ → ℕ → Notification
note_of type userid otherid referid targetid = record {
  userid = userid;
  otherid = otherid;
  referid = referid;
  targetid = targetid;
  unixtime = 1000;
  type = type;
}

-- The state after both comments.
abbrev replied : CommentDb
replied = record commented {
  site = record commented.site {
    welcome = note_of 4050 4 2 5 11 ∷ note_of 4020 1 2 5 11 ∷ note_of 4025 2 1 11 12 ∷ [];
  };
  comments = row_of 11 2 0 false 0 ∷ row_of 12 1 11 false 0 ∷ [];
}

insert_comment-replied :
    insert_comment 1 on_five 11 false 12 (insert_comment 2 on_five 0 false 11 commented).1
    ≡ (ok 12, replied)
unfolding insert_comment submission_owner find_owners notifiable allows_notifs can_notify check
insert_comment-replied = refl

-- The author cannot remove a comment with a reply.
remove_comment-author : (remove_comment 2 submit 11 replied).0 ≡ err insufficient_permissions
unfolding remove_comment recursive_rows last_id
remove_comment-author = refl

-- The moderator can. The notification of the collector stays.
remove_comment-mod : remove_comment 9 submit 11 replied ≡ (
  ok 5,
  record replied {
    site = record replied.site { welcome = note_of 4050 4 2 5 11 ∷ [] };
    comments = row_of 11 2 0 true 9 ∷ row_of 12 1 11 false 0 ∷ [];
  },
)
unfolding remove_comment recursive_rows last_id
remove_comment-mod = refl

remove_comment-replied : (remove_comment 9 submit 11 replied).0 ≡ ok 5
unfolding remove_comment recursive_rows last_id
remove_comment-replied = refl

remove_comment_lem_example :
    let after = (remove_comment 9 submit 11 replied).1 in
    ((c : Comment) × (first (is_visible submit 11) replied.comments ≡ some c)
      × (may_remove 9 submit c replied ≡ true))
    × (exists (λ c. c.commentid == 11 && not c.hidden) after.comments ≡ false)
    × (exists (λ n. is_of_feature submit n && n.targetid == 12) after.site.welcome ≡ false)
    × (select (λ n. not (is_of_feature submit n)) after.site.welcome
        ≡ select (λ n. not (is_of_feature submit n)) replied.site.welcome)
remove_comment_lem_example =
    remove_comment_lem 9 submit 11 5 12 replied (omega arith, (omega arith, tt))
      remove_comment-replied (reply 11 12 (itself (row_of 11 2 0 false 0) refl) refl)

-- The author removes the submission, which takes the notifications of its comments along.
remove_post-replied : (remove_post Database.submit 1 5 replied).0 ≡ ok (some 1)
unfolding remove_post get_ownerid
remove_post-replied = refl

remove_post_lem_example :
    let after = (remove_post Database.submit 1 5 replied).1 in
    let news = is_news Database.submit 5 replied in
    (some 1 ≡ get_ownerid Database.submit 5 replied.site)
    × (elem 1 replied.site.mods || is_author 1 (some 1) ≡ true)
    × (((is_shown Database.submit 5 replied.site ≡ true)
          × (is_shown Database.submit 5 after.site ≡ false)
          × (exists news after.site.welcome ≡ false)
          × (select (λ n. not (news n)) after.site.welcome
              ≡ select (λ n. not (news n)) replied.site.welcome))
        ⊎ ((is_shown Database.submit 5 replied.site ≡ false) × (after ≡ replied)))
remove_post_lem_example = remove_post_lem Database.submit 1 5 (some 1) replied remove_post-replied
