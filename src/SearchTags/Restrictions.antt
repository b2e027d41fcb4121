-- ===== src/SearchTags/Restrictions.antt =====
-- Lists of tags that weasyl/searchtag.py keeps for a user: the tags that nobody may suggest for the
-- user's posts, and the preferred and opted-out tags of commissions. The tags of a post as a reader
-- gets them.
pub mod Replaced
use weasyl.Prelude.{
  ℕ, Bool, true, false, not, ◌&&◌, Option, none, some, List, [], ◌∷◌, ◌==◌, ltb, if◌then◌else◌,
  length, map,
}
use weasyl.Prelude.Strings.{sorted}
use weasyl.Sql.{exists, select, delete, insert_new, elem}
use weasyl.Database.{
  Str, FavoriteType, TagRow, ActionOn, Fault, raise, modify, ◌>>=◌, serializable_retry,
  too_many_preference_tags,
}
use weasyl.SearchTags.Tables.{TagName, UserTag, Tagging, tags_of}
use weasyl.SearchTags.Names.{get_or_create_many}
use weasyl.SearchTags.Associate.{is_of, is_artist, is_added_by}

abbrev pub is_user_tag : ℕ → ℕ → UserTag → Bool
is_user_tag userid tagid r = r.userid == userid && r.tagid == tagid

abbrev pub is_dropped : ℕ → List ℕ → UserTag → Bool
is_dropped userid tagids r = r.userid == userid && not (elem r.tagid tagids)

unfoldable pub add_tags : ℕ → List ℕ → List UserTag → List UserTag
add_tags userid [] rows = rows
add_tags userid (tagid ∷ tagids) rows =
    add_tags userid tagids
      (insert_new (is_user_tag userid tagid) (record { tagid = tagid; userid = userid }) rows)

-- The two statements on a table of one user's tags.
unfoldable pub replace_tags : ℕ → List ℕ → List UserTag → List UserTag
replace_tags userid tagids rows = add_tags userid tagids (delete (is_dropped userid tagids) rows)

-- `edit_user_tag_restrictions`
unfoldable pub edit_user_tag_restrictions : List Fault → ℕ → List Str → ActionOn Tagging Unit
edit_user_tag_restrictions faults userid tags t =
    let (tagids, t') = get_or_create_many tags t in
    serializable_retry faults
      (modify (λ t. record t { user_restricted = replace_tags userid tagids t.user_restricted })) t'

-- `edit_global_tag_restrictions`; the tag alone is the key.
unfoldable pub add_global_tags : ℕ → List ℕ → List UserTag → List UserTag
add_global_tags userid [] rows = rows
add_global_tags userid (tagid ∷ tagids) rows =
    add_global_tags userid tagids
      (insert_new (λ r. r.tagid == tagid) (record { tagid = tagid; userid = userid }) rows)

unfoldable pub edit_global_tag_restrictions : List Fault → ℕ → List Str → ActionOn Tagging Unit
edit_global_tag_restrictions faults userid tags t =
    let (tagids, t') = get_or_create_many tags t in
    serializable_retry faults
      (modify (λ t. record t {
        globally_restricted =
            add_global_tags userid tagids
              (delete (λ r. not (elem r.tagid tagids)) t.globally_restricted);
      }))
      t'

abbrev pub max_preferred_tags : ℕ
max_preferred_tags = 50

-- `_set_commission_tags`, for either table.
pub data CommissionTable : Type 0 where
  preferred_tags optout_tags : CommissionTable

abbrev pub set_commission_rows : CommissionTable → ℕ → List ℕ → Tagging → Tagging
set_commission_rows preferred_tags userid tagids t = record t {
  preferred = replace_tags userid tagids t.preferred;
}
set_commission_rows optout_tags userid tagids t = record t {
  optout = replace_tags userid tagids t.optout;
}

unfoldable pub set_commission_tags :
    List Fault → ℕ → List Str → CommissionTable → ActionOn Tagging Unit
set_commission_tags faults userid tag_names table t =
    let (tagids, t') = get_or_create_many tag_names t in
    serializable_retry faults (modify (set_commission_rows table userid tagids)) t'

unfoldable pub set_commission_preferred_tags : List Fault → ℕ → List Str → ActionOn Tagging Unit
set_commission_preferred_tags faults userid tag_names t =
    if ltb max_preferred_tags (length tag_names)
    then raise too_many_preference_tags t
    else set_commission_tags faults userid tag_names preferred_tags t

unfoldable pub set_commission_optout_tags : List Fault → ℕ → List Str → ActionOn Tagging Unit
set_commission_optout_tags faults userid tag_names t =
    set_commission_tags faults userid tag_names optout_tags t

-- `select_grouped`: the title of a tag, if `searchtag` has it, in one of the lists.
pub record GroupedTags : Type 0 where
  pub artist : List Str
  pub suggested : List Str
  pub own_suggested : List Str

abbrev titles_of : (TagRow → Bool) → List TagRow → List TagName → List Str
titles_of p [] names = []
titles_of p (r ∷ rows) names =
    if p r
    then titles_with (map (λ row. row.title) (select (λ row. row.tagid == r.tagid) names))
        (titles_of p rows names)
    else titles_of p rows names
  where
    titles_with : List Str → List Str → List Str
    titles_with [] rest = rest
    titles_with (x ∷ xs) rest = x ∷ titles_with xs rest

pub select_grouped : ℕ → FavoriteType → ℕ → Tagging → GroupedTags
select_grouped userid feature target t =
    let rows = select (is_of target) (tags_of feature t) in
    record {
      artist = sorted (titles_of is_artist rows t.names);
      suggested = sorted (titles_of (λ r. not (is_artist r)) rows t.names);
      own_suggested =
          sorted (titles_of (λ r. not (is_artist r) && is_added_by userid r) rows t.names);
    }
