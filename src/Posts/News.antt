-- ===== src/Posts/News.antt =====
-- The notifications about a post that go with it, by their types and the columns that name the post.
use weasyl.Prelude.{
  ◌≡◌, refl, arith, ℕ, Bool, true, false, ◌&&◌, ◌||◌, List, [], ◌∷◌, ◌==◌, any, map,
}
use weasyl.Sql.{exists, select, elem}
use weasyl.Database.{FavoriteType, submit, char, journal, Notification}
use weasyl.Comments.{Comment, CommentDb}
use weasyl.Posts.{comments_on, comment_ids, is_about}

-- The column in which a notification names the post that it is about, or the comment on it.
pub data Place : Type 0 where
  in_targetid in_referid in_otherid of_comment : Place

-- The types of the notifications about a post that go with it, as weasyl/welcome.py lists them above its
-- functions, and 3140, which weasyl/message.py calls tag changes. 2010, 2050 and 1010 are posts, 2030 is a
-- collected submission and 3030 an offered one, 3020, 3050, 3100 and 3110 are favorites, 4050 is a comment on a
-- collected submission, and the others are comments and replies. Requests to collect a submission, 3035, are
-- not among them.
abbrev pub news_types : FavoriteType → List (ℕ × Place)
news_types submit =
    (2010, in_targetid)
    ∷ (2030, in_targetid)
    ∷ (3140, in_otherid)
    ∷ (3030, in_targetid)
    ∷ (3020, in_referid)
    ∷ (3050, in_referid)
    ∷ (4050, in_referid)
    ∷ (4020, of_comment)
    ∷ (4025, of_comment)
    ∷ []
news_types char =
    (2050, in_targetid) ∷ (3100, in_referid) ∷ (4040, of_comment) ∷ (4045, of_comment) ∷ []
news_types journal =
    (1010, in_targetid) ∷ (3110, in_referid) ∷ (4030, of_comment) ∷ (4035, of_comment) ∷ []

-- There is a comment on the post with the id.
abbrev pub is_comment_on : FavoriteType → ℕ → ℕ → CommentDb → Bool
is_comment_on feature id commentid db =
    exists (λ c. c.commentid == commentid && c.targetid == id) (comments_on feature db)

abbrev pub names_post : FavoriteType → ℕ → CommentDb → Notification → Place → Bool
names_post feature id db n in_targetid = n.targetid == id
names_post feature id db n in_referid = n.referid == id
names_post feature id db n in_otherid = n.otherid == id
names_post feature id db n of_comment = is_comment_on feature id n.targetid db

-- The notification has one of the types, and names the post in the column of its type.
abbrev pub is_news : FavoriteType → ℕ → CommentDb → Notification → Bool
is_news feature id db n =
    any (λ (type, place). names_post feature id db n place && n.type == type) (news_types feature)

elem-comment_ids :
    (id commentid : ℕ) (comments : List Comment)
    → elem commentid (map (λ c. c.commentid) (select (λ c. c.targetid == id) comments))
      ≡ exists (λ c. c.commentid == commentid && c.targetid == id) comments
elem-comment_ids id commentid [] = refl
elem-comment_ids id commentid (c ∷ comments) =
    ground (arith, elem-comment_ids id commentid comments)

-- The types of one column together, or each with its column.
by_column :
    (t o r c a b d e f g h k l : Bool)
    → (t && (a || (b || false))
        || (o && d || ((t && e || r && (f || (g || (h || false)))) || c && (k || (l || false)))))
      ≡ (t && a
          || (t && b
              || (o && d
                  || (t && e
                      || (r && f || (r && g || (r && h || (c && k || (c && l || false)))))))))
by_column true true r c a b d e f g h k l = ground arith
by_column true false r c a b d e f g h k l = ground arith
by_column false true r c a b d e f g h k l = ground arith
by_column false false r c a b d e f g h k l = ground arith

pub is_about-news :
    (feature : FavoriteType) (id : ℕ) (db : CommentDb) (n : Notification)
    → is_about feature id (comment_ids feature id db) n ≡ is_news feature id db n
is_about-news submit id db n = rw (elem-comment_ids id n.targetid db.comments) (
    by_column (n.targetid == id) (n.otherid == id) (n.referid == id)
      (is_comment_on submit id n.targetid db) (n.type == 2010) (n.type == 2030) (n.type == 3140)
      (n.type == 3030) (n.type == 3020) (n.type == 3050) (n.type == 4050) (n.type == 4020)
      (n.type == 4025))
is_about-news char id db n = rw (elem-comment_ids id n.targetid db.charcomments) (ground arith)
is_about-news journal id db n =
    rw (elem-comment_ids id n.targetid db.journalcomments) (ground arith)
