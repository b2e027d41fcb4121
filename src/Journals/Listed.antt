-- ===== src/Journals/Listed.antt =====
-- The conditions of the listings and the checks of the views agree.
use weasyl.Prelude.{
  ◌≡◌, refl, sym, ◌∙◌, ◌↔◌, inl, inr, arith, Bool, true, false, not, ◌&&◌, ◌||◌, some, ◌==◌, ltb,
  if◌then◌else◌, Bool-cases,
}
use weasyl.Sql.{first}
use weasyl.Database.{Post, Db, ok}
use weasyl.Ignores
use weasyl.Friends
use weasyl.BlockedTags.{check_blocked}
use weasyl.SearchTags.Tables.{Tagging}
use weasyl.Journals.{
  Kind, character, journal, feature, posts, Reader, is_mod, check_post, select_post_and_check,
  is_listed, fits_friends, fits_ignores, fits_tags,
}

-- The row is the one with its id.
abbrev pub IsRow : Kind → Tagging → Post → Type 0
IsRow kind t j =
    (first (λ k. k.id == j.id) (posts kind t.site) ≡ some j) × ((j.userid == 0) ≡ false)

-- The conditions of the listing are the checks of the view.
friends-check :
    (r : Reader) (j : Post) (db : Db)
    → (r.userid == 0) ≡ false
    → (j.userid == 0) ≡ false
    → fits_friends r j db ≡ not (j.friends_only && not (Friends.check r.userid j.userid db))
unfolding Friends.check
friends-check r j db h k = ground arith

ignores-check :
    (r : Reader) (j : Post) (db : Db)
    → (r.userid == 0) ≡ false
    → (j.userid == 0) ≡ false
    → fits_ignores r j db ≡ not (Ignores.check r.userid j.userid db)
unfolding Ignores.check
ignores-check r j db h k = ground arith

tags-check :
    (kind : Kind) (r : Reader) (j : Post) (t : Tagging)
    → (r.userid == 0) ≡ false
    → IsRow kind t j
    → fits_tags kind r j t ≡ not (check_blocked r.userid (feature kind) j.id t)
unfolding check_blocked
tags-check character r j t h k = rw (h, k.0) (ground arith)
tags-check journal r j t h k = rw (h, k.0) (ground arith)

-- A guest passes the checks that ask for a user.
guest-checks :
    (kind : Kind) (r : Reader) (j : Post) (t : Tagging)
    → (r.userid == 0) ≡ true
    → (Friends.check r.userid j.userid t.site ≡ false)
      × (Ignores.check r.userid j.userid t.site ≡ false)
      × (check_blocked r.userid (feature kind) j.id t ≡ false)
unfolding Friends.check Ignores.check check_blocked
guest-checks kind r j t h = (rw h refl, rw h refl, rw h refl)

-- The checks in one test.
abbrev passes : Kind → Reader → Post → Tagging → Bool
passes kind r j t =
    not j.hidden
    && (not (ltb r.rating j.rating && ((not (r.userid == j.userid) && not (is_mod r t)) || r.sfw))
        && (not (j.friends_only && not (Friends.check r.userid j.userid t.site))
            && (not (Ignores.check r.userid j.userid t.site)
                && not (check_blocked r.userid (feature kind) j.id t))))

check_post-ok :
    (kind : Kind) (r : Reader) (ignore : Bool) (j : Post) (t : Tagging)
    → passes kind r j t ≡ true
    → check_post kind r ignore j t ≡ ok j
unfolding check_post
check_post-ok kind r ignore j t h = ground arith

check_post-passes :
    (kind : Kind) (r : Reader) (j : Post) (t : Tagging)
    → check_post kind r true j t ≡ ok j
    → passes kind r j t ≡ true
unfolding check_post
check_post-passes kind r j t h = ground arith

listed-passes :
    (kind : Kind) (r : Reader) (j : Post) (t : Tagging)
    → IsRow kind t j
    → is_listed kind r t j ≡ true
    → passes kind r j t ≡ true
unfolding is_listed
listed-passes kind r j t k h = elim (Bool-cases (r.userid == 0)) [
  | inl e ↦ let (f, i, b) = guest-checks kind r j t e in ground arith
  | inr e ↦
      let f = friends-check r j t.site e k.1 in
      let i = ignores-check r j t.site e k.1 in let b = tags-check kind r j t e k in ground arith
]

passes-listed :
    (kind : Kind) (r : Reader) (j : Post) (t : Tagging)
    → IsRow kind t j
    → is_mod r t ≡ false
    → passes kind r j t ≡ true
    → is_listed kind r t j ≡ true
unfolding is_listed
passes-listed kind r j t k m h = elim (Bool-cases (r.userid == 0)) [
  | inl e ↦ let (f, i, b) = guest-checks kind r j t e in ground arith
  | inr e ↦
      let f = friends-check r j t.site e k.1 in
      let i = ignores-check r j t.site e k.1 in let b = tags-check kind r j t e k in ground arith
]

select_post_and_check_row :
    (kind : Kind) (r : Reader) (j : Post) (anyway : Bool) (t : Tagging)
    → IsRow kind t j
    → select_post_and_check kind r j.id true anyway t
      ≡ (if is_mod r t && anyway then ok j else check_post kind r true j t)
unfolding select_post_and_check
select_post_and_check_row kind r j anyway t k = rw (select_post_and_check, k.0) refl

pub listed-viewable :
    (kind : Kind) (r : Reader) (j : Post) (anyway : Bool) (t : Tagging)
    → IsRow kind t j
    → is_listed kind r t j ≡ true
    → select_post_and_check kind r j.id true anyway t ≡ ok j
listed-viewable kind r j anyway t k h =
    let c = check_post-ok kind r true j t (listed-passes kind r j t k h) in
    rw (select_post_and_check_row kind r j anyway t k, c) (ground arith)

-- A reader who is no moderator may view a journal or a character exactly if the page lists it, leaving aside
-- which page it is on: the conditions of the query and the checks of the view agree on hidden posts, ratings in and out of
-- SFW mode, posts for friends, ignored users and blocked tags. The post is the row with its id, and its
-- author's id is positive.
pub is_listed_iff :
    (kind : Kind) (r : Reader) (j : Post) (anyway : Bool) (t : Tagging)
    → IsRow kind t j
    → is_mod r t ≡ false
    → (is_listed kind r t j ≡ true) ↔ (select_post_and_check kind r j.id true anyway t ≡ ok j)
is_listed_iff kind r j anyway t k m = (
  listed-viewable kind r j anyway t k,
  λ h. passes-listed kind r j t k m (
      check_post-passes kind r j t
        (sym (rw (select_post_and_check_row kind r j anyway t k, m) refl) ∙ h)),
)
