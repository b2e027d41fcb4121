-- ===== src/Posts/Removed.antt =====
-- What the removal of a post changes.
use weasyl.Prelude.{
  ◌≡◌, ◌⊎◌, refl, sym, ◌∙◌, inl, inr, arith, ℕ, Bool, true, false, not, ◌&&◌, ◌||◌, Option, List,
  [], ◌∷◌, if◌then◌else◌, Bool-cases,
}
use weasyl.Sql.{exists, select, delete, update, elem}
use weasyl.Sql.Laws.{exists-delete_implied}
use weasyl.Sql.Rows.{select-delete_other}
use weasyl.Database.{FavoriteType, submit, char, journal, Db, ok}
use weasyl.SearchTags.Associate.{get_ownerid}
use weasyl.Comments.{CommentDb}
use weasyl.Posts.News.{is_news, is_about-news}
use weasyl.Posts.{
  comment_ids, is_about, post_remove, is_shown_submission, is_shown_post, is_shown, hide_post,
  is_author, remove_post,
}

none_shown :
    {R : Type 0} (p : R → Bool) (f : R → R) (rows : List R)
    → ((r : R) → p (f r) ≡ false)
    → exists p (update p f rows) ≡ false
none_shown p f [] h = refl
none_shown p f (r ∷ rows) h = ground (arith, h r, none_shown p f rows h)

shown-hide :
    (feature : FavoriteType) (id : ℕ) (db : Db)
    → is_shown feature id (hide_post feature id db) ≡ false
unfolding is_shown hide_post
shown-hide submit id db =
    none_shown (is_shown_submission id) (λ s. record s { hidden = true }) db.submissions
      (λ s. ground arith)
shown-hide char id db =
    none_shown (is_shown_post id) (λ p. record p { hidden = true }) db.characters
      (λ p. ground arith)
shown-hide journal id db =
    none_shown (is_shown_post id) (λ p. record p { hidden = true }) db.journals (λ p. ground arith)

-- What `hide_post` and `post_remove` leave of the other tables.
welcome-hide :
    (feature : FavoriteType) (id : ℕ) (db : Db) → (hide_post feature id db).welcome ≡ db.welcome
unfolding hide_post
welcome-hide submit id db = refl
welcome-hide char id db = refl
welcome-hide journal id db = refl

shown-post_remove :
    (feature : FavoriteType) (id : ℕ) (db : CommentDb)
    → is_shown feature id (post_remove feature id db).site ≡ is_shown feature id db.site
unfolding is_shown post_remove
shown-post_remove submit id db = refl
shown-post_remove char id db = refl
shown-post_remove journal id db = refl

comments-site :
    (feature : FavoriteType) (id : ℕ) (site : Db) (db : CommentDb)
    → comment_ids feature id (record db { site = site }) ≡ comment_ids feature id db
comments-site submit id site db = refl
comments-site char id site db = refl
comments-site journal id site db = refl

-- The state after a removal.
abbrev removed : FavoriteType → ℕ → CommentDb → CommentDb
removed feature id db = post_remove feature id (record db { site = hide_post feature id db.site })

removed-welcome :
    (feature : FavoriteType) (id : ℕ) (db : CommentDb)
    → (removed feature id db).site.welcome
      ≡ delete (is_about feature id (comment_ids feature id db)) db.site.welcome
unfolding post_remove
removed-welcome feature id db =
    rw (comments-site feature id (hide_post feature id db.site) db, welcome-hide feature id db.site)
      refl

remove_post-ok :
    (feature : FavoriteType) (userid id : ℕ) (owner : Option ℕ) (db : CommentDb)
    → (remove_post feature userid id db).0 ≡ ok owner
    → (owner ≡ get_ownerid feature id db.site)
      × (elem userid db.site.mods || is_author userid owner ≡ true)
      × ((remove_post feature userid id db).1
          ≡ (if is_shown feature id db.site then removed feature id db else db))
unfolding remove_post
remove_post-ok feature userid id owner db h =
    let author = is_author userid (get_ownerid feature id db.site) in
    elim (Bool-cases (not (elem userid db.site.mods) && not author)) [
      | inl e ↦ absurd (ground arith)
      | inr e ↦
          let same : get_ownerid feature id db.site ≡ owner = ground arith in
          (sym same, rw (sym same) (ground arith), rw e refl)
    ]

-- Only the author of a post and moderators can remove it without an error, and the author is returned. If the
-- post showed before, it does not show afterwards, no notification is left that has one of the types that go
-- with such a post and names it, or a comment on it, in the column of its type, and every other notification is
-- as before: a request to collect a submission (3035) stays. If the post did not show, nothing changes.
pub remove_post_lem :
    (feature : FavoriteType) (userid id : ℕ) (owner : Option ℕ) (db : CommentDb)
    → (remove_post feature userid id db).0 ≡ ok owner
    → let after = (remove_post feature userid id db).1 in
      let news = is_news feature id db in
      (owner ≡ get_ownerid feature id db.site)
      × (elem userid db.site.mods || is_author userid owner ≡ true)
      × (((is_shown feature id db.site ≡ true)
            × (is_shown feature id after.site ≡ false)
            × (exists news after.site.welcome ≡ false)
            × (select (λ n. not (news n)) after.site.welcome
                ≡ select (λ n. not (news n)) db.site.welcome))
          ⊎ ((is_shown feature id db.site ≡ false) × (after ≡ db)))
remove_post_lem feature userid id owner db h =
    let (same, allowed, end) = remove_post-ok feature userid id owner db h in
    let about = is_about feature id (comment_ids feature id db) in
    let news = is_news feature id db in
    let hidden =
      shown-post_remove feature id (record db { site = hide_post feature id db.site })
      ∙ shown-hide feature id db.site in
    (
      same,
      allowed,
      elim (Bool-cases (is_shown feature id db.site)) [
        | inl e ↦ inl (
          e,
          rw (end, e) hidden,
          rw (end, e, removed-welcome feature id db)
              (exists-delete_implied about news db.site.welcome
                (λ n k. is_about-news feature id db n ∙ k)),
          rw (end, e, removed-welcome feature id db)
              (select-delete_other about (λ n. not (news n)) db.site.welcome
                (λ n k. is_about-news feature id db n ∙ not_true (news n) k)),
        )
        | inr e ↦ inr (e, rw (end, e) refl)
      ],
    )
  where
    not_true : (b : Bool) → not b ≡ true → b ≡ false
    not_true b k = ground arith
