-- ===== src/Tests/Journals.antt =====
-- weasyl/journal.py on a small table.
use weasyl.Prelude.{◌≡◌, ◌↔◌, refl, ℕ, Bool, true, false, none, [], ◌∷◌, All}
use weasyl.Database.{Post, ok, err, tag_blocked}
use weasyl.Pagination.{first_page, next_filter, paginate}
use weasyl.SearchTags.Tables.{Tagging}
use weasyl.Friends
use weasyl.Ignores
use weasyl.BlockedTags.{check_blocked}
use weasyl.Journals.{journal, Reader, check_post, select_post_and_check, is_listed, select_page}
use weasyl.Journals.Listed.{is_listed_iff}
use weasyl.Journals.Pages.{select_page-viewable}
use weasyl.Tests.Users.{site}
use weasyl.Tests.Tags.{tagged}

abbrev journal_of : ℕ → ℕ → ℕ → Bool → Post
journal_of id userid rating friends_only = record {
  id = id;
  userid = userid;
  rating = rating;
  hidden = false;
  friends_only = friends_only;
}

-- Journal 3 has the tag 5, which user 4 blocks from the rating 30 on, and journal 2 is for friends of user 1.
abbrev with_journals : Tagging
with_journals = record tagged {
  site = record site {
    journals = journal_of 1 1 10 false ∷ journal_of 2 1 10 true ∷ journal_of 3 2 30 false ∷ [];
    blocktags = record { userid = 4; tagid = 5; rating = 30 } ∷ [];
  };
  journal_tags = record { targetid = 3; tagid = 5; settings = []; added_by = none } ∷ [];
}

abbrev reader : Reader
reader = record { userid = 4; rating = 40; sfw = false }

select_page-reader :
    (select_page journal reader 2 first_page with_journals).items ≡ journal_of 1 1 10 false ∷ []
unfolding select_page paginate
select_page-reader = refl

select_post_and_check-reader :
    select_post_and_check journal reader 3 true false with_journals ≡ err tag_blocked
unfolding select_post_and_check check_post Friends.check Ignores.check check_blocked
select_post_and_check-reader = refl

is_listed_iff_example : (is_listed journal reader with_journals (journal_of 2 1 10 true) ≡ true) ↔ (
    select_post_and_check journal reader 2 true false with_journals ≡ ok (journal_of 2 1 10 true))
is_listed_iff_example =
    is_listed_iff journal reader (journal_of 2 1 10 true) false with_journals (refl, refl) refl

select_page-viewable_example :
    All
      (λ j. select_post_and_check journal reader j.id true false with_journals ≡ ok j)
      (select_page journal reader 2 (next_filter 3) with_journals).items
select_page-viewable_example =
    select_page-viewable journal reader 2 (next_filter 3) false with_journals
      ((refl, refl), ((refl, refl), ((refl, refl), tt)))
