-- ===== src/BlockedTags.antt =====
-- weasyl/blocktag.py: the tags that a user blocks. A row holds the lowest rating for which its tag is
-- blocked. The cache of `select_ids` and the list of titles are left out.
pub mod Writes
use weasyl.Prelude.{
  ℕ, Bool, false, not, ◌&&◌, Option, none, some, List, ◌==◌, leb, any, if◌then◌else◌,
}
use weasyl.Sql.{exists, select, first, elem}
use weasyl.Database.{FavoriteType, submit, char, journal, Submission, Post, TagRow, BlocktagRow, Db}
use weasyl.SearchTags.Tables.{Tagging, tags_of}

-- The author and the rating of a post.
abbrev submission_facts : Option Submission → Option (ℕ × ℕ)
submission_facts none = none
submission_facts (some s) = some (s.userid, s.rating)

abbrev post_facts : Option Post → Option (ℕ × ℕ)
post_facts none = none
post_facts (some p) = some (p.userid, p.rating)

abbrev pub facts : FavoriteType → ℕ → Db → Option (ℕ × ℕ)
facts submit id db = submission_facts (first (λ s. s.submitid == id) db.submissions)
facts char id db = post_facts (first (λ p. p.id == id) db.characters)
facts journal id db = post_facts (first (λ p. p.id == id) db.journals)

-- `tagid IN (SELECT tagid FROM blocktag WHERE userid = … AND rating <= content.rating)`
abbrev pub blocks_tag : ℕ → ℕ → ℕ → List BlocktagRow → Bool
blocks_tag userid rating tagid rows =
    exists (λ b. b.userid == userid && (leb b.rating rating && b.tagid == tagid)) rows

-- A tag of the post is blocked for its rating.
abbrev pub has_blocked : ℕ → ℕ → ℕ → List TagRow → List BlocktagRow → Bool
has_blocked userid rating id tags rows =
    exists (λ row. row.targetid == id && blocks_tag userid rating row.tagid rows) tags

-- `check`, where the kind and the id stand for the three ids.
unfoldable pub check_blocked : ℕ → FavoriteType → ℕ → Tagging → Bool
check_blocked userid feature id t = if userid == 0 then false else elim (facts feature id t.site) [
  | none ↦ false
  | some (owner, rating) ↦
      not (owner == userid) && has_blocked userid rating id (tags_of feature t) t.site.blocktags
]

-- `check_list`, of the rows of `select_ids`.
unfoldable pub check_list : ℕ → List ℕ → List BlocktagRow → Bool
check_list rating tags blocked_tags =
    any (λ b. leb b.rating rating && elem b.tagid tags) blocked_tags

-- `select_ids`
unfoldable pub select_ids : ℕ → Db → List BlocktagRow
select_ids userid db = select (λ b. b.userid == userid) db.blocktags
