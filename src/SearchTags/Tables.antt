-- ===== src/SearchTags/Tables.antt =====
-- The state of weasyl/searchtag.py and weasyl/blocktag.py: tables of libweasyl/models/tables.py, beside
-- those that other modules share.
use weasyl.Prelude.{ℕ, Bool, List}
use weasyl.Database.{Str, FavoriteType, submit, char, journal, TagRow, Db}

-- `searchtag`
pub record TagName : Type 0 where
  pub tagid : ℕ
  pub title : Str

-- The three tables of `_tag_suggestion_feedback_table` as one, with the kind of post.
pub record FeedbackRow : Type 0 where
  pub feature : FavoriteType
  pub targetid : ℕ
  pub tagid : ℕ
  pub userid : ℕ
  pub incorrect : Bool
  pub unwanted : Bool
  pub abusive : Bool

-- `submission_tags`: the tags of a submission in one array.
pub record TagArray : Type 0 where
  pub submitid : ℕ
  pub tags : List ℕ

-- `tag_updates`
pub record TagUpdate : Type 0 where
  pub submitid : ℕ
  pub userid : ℕ
  pub added : List Str
  pub removed : List Str

-- `user_restricted_tags` and `globally_restricted_tags`, where the user is the one who added the
-- tag, and `artist_preferred_tags` and `artist_optout_tags`, whose column is called `targetid`.
pub record UserTag : Type 0 where
  pub tagid : ℕ
  pub userid : ℕ

-- The tables that the tags of the database are kept in.
pub record Tagging : Type 0 where
  pub site : Db
  -- `searchmapchar` and `searchmapjournal`; `searchmapsubmit` is in `site`.
  pub char_tags : List TagRow
  pub journal_tags : List TagRow
  pub names : List TagName
  -- the id that the sequence of `searchtag` gives next
  pub next_tagid : ℕ
  pub feedback : List FeedbackRow
  pub arrays : List TagArray
  pub updates : List TagUpdate
  pub user_restricted : List UserTag
  pub globally_restricted : List UserTag
  pub preferred : List UserTag
  pub optout : List UserTag
  -- the users with `profile.can_suggest_tags`
  pub suggesters : List ℕ

-- The table of a `TaggableTarget`, read and written.
abbrev pub tags_of : FavoriteType → Tagging → List TagRow
tags_of submit t = t.site.submission_tags
tags_of char t = t.char_tags
tags_of journal t = t.journal_tags

abbrev pub set_tags : FavoriteType → List TagRow → Tagging → Tagging
set_tags submit rows t = record t { site = record t.site { submission_tags = rows } }
set_tags char rows t = record t { char_tags = rows }
set_tags journal rows t = record t { journal_tags = rows }
