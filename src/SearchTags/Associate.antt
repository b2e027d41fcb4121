-- ===== src/SearchTags/Associate.antt =====
-- Setting and suggesting the tags of a post: `associate` and `_set_suggested_tags` of
-- weasyl/searchtag.py. The log files are left out.
pub mod Rows
pub mod Effects
pub mod Arrays
pub mod Owned
use weasyl.Prelude.{
  ℕ, Bool, true, false, not, ◌&&◌, ◌||◌, Option, none, some, List, [], ◌∷◌, ◌++◌, map, ◌==◌,
  if◌then◌else◌,
}
use weasyl.Prelude.Strings.{sorted}
use weasyl.Sql.{exists, select, first, delete, update, insert, insert_new, elem}
use weasyl.Database.{
  Str, has, FavoriteType, submit, char, journal, Submission, Post, TagRow, Db, ActionOn, Fault,
  pure, raise, raise_if, modify, ◌>>◌, serializable_retry, target_record_missing,
  insufficient_permissions, content_owner_ignored_you,
}
use weasyl.Ignores
use weasyl.SearchTags.Tables.{UserTag, TagArray, Tagging, tags_of, set_tags}
use weasyl.SearchTags.Names.{get_or_create_many, titles}
use weasyl.SearchTags.Patterns.{is_restricted}

abbrev post_owner : Option Post → Option ℕ
post_owner none = none
post_owner (some p) = some p.userid

abbrev submission_userid : Option Submission → Option ℕ
submission_userid none = none
submission_userid (some s) = some s.userid

-- `_get_ownerid`, which is `d.get_ownerid`.
unfoldable pub get_ownerid : FavoriteType → ℕ → Db → Option ℕ
get_ownerid submit id db = submission_userid (first (λ s. s.submitid == id) db.submissions)
get_ownerid char id db = post_owner (first (λ p. p.id == id) db.characters)
get_ownerid journal id db = post_owner (first (λ p. p.id == id) db.journals)

abbrev pub is_of : ℕ → TagRow → Bool
is_of target r = r.targetid == target

abbrev pub is_tag : ℕ → ℕ → TagRow → Bool
is_tag target tagid r = r.targetid == target && r.tagid == tagid

-- `settings ~ 'a'`
abbrev pub is_artist : TagRow → Bool
is_artist r = has b'a' r.settings

abbrev pub is_added_by : ℕ → TagRow → Bool
is_added_by userid r = elim r.added_by [ none ↦ false | some u ↦ u == userid ]

-- The `removed` and the `added` of the statement of `associate`.
abbrev pub drops_artist : ℕ → List ℕ → TagRow → Bool
drops_artist target tagids r = is_of target r && (is_artist r && not (elem r.tagid tagids))

abbrev pub adds_artist : List TagRow → ℕ → ℕ → Bool
adds_artist rows target tagid = not (exists (λ r. is_tag target tagid r && is_artist r) rows)

abbrev pub approve : ℕ → TagRow → TagRow
approve userid r = record r { settings = r.settings ++ b'a' ∷ []; added_by = some userid }

-- `INSERT … ON CONFLICT (targetid, tagid) DO UPDATE … WHERE ct.settings !~ 'a'`
abbrev pub set_artist_tag : ℕ → ℕ → ℕ → List TagRow → List TagRow
set_artist_tag userid target tagid rows =
    if exists (is_tag target tagid) rows
    then update (λ r. is_tag target tagid r && not (is_artist r)) (approve userid) rows
    else insert
        (record { targetid = target; tagid = tagid; settings = b'a' ∷ []; added_by = some userid })
        rows

pub set_artist_tags : ℕ → ℕ → List ℕ → List TagRow → List TagRow
set_artist_tags userid target [] rows = rows
set_artist_tags userid target (tagid ∷ tagids) rows =
    set_artist_tags userid target tagids (set_artist_tag userid target tagid rows)

pub associate_rows : ℕ → ℕ → List ℕ → List TagRow → List TagRow
associate_rows userid target tagids rows =
    set_artist_tags userid target tagids (delete (drops_artist target tagids) rows)

-- `INSERT INTO tag_updates …`, for a submission only.
abbrev pub tagids_of : (TagRow → Bool) → List TagRow → List ℕ
tagids_of p rows = map (λ r. r.tagid) (select p rows)

abbrev pub add_history : FavoriteType → ℕ → ℕ → List ℕ → List ℕ → Tagging → Tagging
add_history submit target userid added removed t = record t {
  updates =
      insert
        (record {
          submitid = target;
          userid = userid;
          added = titles added t;
          removed = titles removed t;
        })
        t.updates;
}
add_history _ target userid added removed t = t

-- `_update_submission_tags`
abbrev pub set_array : List ℕ → TagArray → TagArray
set_array tags a = record a { tags = tags }

unfoldable pub update_submission_tags : ℕ → Tagging → Tagging
update_submission_tags submitid t =
    let tags = tagids_of (is_of submitid) t.site.submission_tags in
    record t {
      arrays =
          if exists (λ a. a.submitid == submitid) t.arrays
          then update (λ a. a.submitid == submitid) (set_array tags) t.arrays
          else insert (record { submitid = submitid; tags = tags }) t.arrays;
    }

abbrev pub update_array : FavoriteType → ℕ → Tagging → Tagging
update_array submit target t = update_submission_tags target t
update_array _ target t = t

-- The `transaction` of `associate`.
abbrev pub keep : (ℕ → Bool) → List ℕ → List ℕ
keep p [] = []
keep p (x ∷ xs) = if p x then x ∷ keep p xs else keep p xs

unfoldable pub associate_transaction : ℕ → FavoriteType → ℕ → List ℕ → ActionOn Tagging Unit
associate_transaction userid feature target tagids t =
    let rows = tags_of feature t in
    modify (update_array feature target) (
      add_history feature target userid (keep (adds_artist rows target) tagids)
        (tagids_of (drops_artist target tagids) rows)
        (set_tags feature (associate_rows userid target tagids rows) t))

-- The statement of `_set_suggested_tags`, in the same way.
abbrev pub drops_suggested : ℕ → ℕ → List ℕ → TagRow → Bool
drops_suggested userid target tagids r =
    is_of target r && (not (is_artist r) && (is_added_by userid r && not (elem r.tagid tagids)))

pub suggest_tags : ℕ → ℕ → List ℕ → List TagRow → List TagRow
suggest_tags userid target [] rows = rows
suggest_tags userid target (tagid ∷ tagids) rows = suggest_tags userid target tagids (
    insert_new (is_tag target tagid)
      (record { targetid = target; tagid = tagid; settings = []; added_by = some userid }) rows)

pub suggest_rows : ℕ → ℕ → List ℕ → List TagRow → List TagRow
suggest_rows userid target tagids rows =
    suggest_tags userid target tagids (delete (drops_suggested userid target tagids) rows)

unfoldable pub suggest_transaction : ℕ → FavoriteType → ℕ → List ℕ → ActionOn Tagging Unit
suggest_transaction userid feature target tagids t =
    let rows = tags_of feature t in
    modify (update_array feature target) (
      add_history feature target userid
        (keep (λ tagid. not (exists (is_tag target tagid) rows)) tagids)
        (tagids_of (drops_suggested userid target tagids) rows)
        (set_tags feature (suggest_rows userid target tagids rows) t))

-- `query_user_restricted_tags` and `_query_global_restricted_tags`, past their caches.
abbrev pub tagids : (UserTag → Bool) → List UserTag → List ℕ
tagids p rows = map (λ r. r.tagid) (select p rows)

pub restricted_patterns : ℕ → Tagging → List Str
restricted_patterns ownerid t =
    titles (tagids (λ r. r.userid == ownerid) t.user_restricted) t
    ++ titles (tagids (λ r. true) t.globally_restricted) t

abbrev pub keep_names : (Str → Bool) → List Str → List Str
keep_names p [] = []
keep_names p (x ∷ xs) = if p x then x ∷ keep_names p xs else keep_names p xs

-- `_set_suggested_tags`; the names are a set, as a list.
unfoldable pub set_suggested_tags :
    List Fault → ℕ → FavoriteType → ℕ → ℕ → List Str → ActionOn Tagging (List Str)
set_suggested_tags faults userid feature target ownerid tag_names t =
    let patterns = restricted_patterns ownerid t in
    (raise_if (not (elem userid t.suggesters)) insufficient_permissions
        >> raise_if (Ignores.check ownerid userid t.site) content_owner_ignored_you
        >> (λ t.
            let (ids, t') =
              get_or_create_many (keep_names (λ name. not (is_restricted patterns name)) tag_names)
                t in
            (serializable_retry faults (suggest_transaction userid feature target ids)
                >> pure (sorted (keep_names (is_restricted patterns) tag_names)))
              t'))
      t

-- `associate`, behind the checks.
unfoldable pub set_owned_tags :
    List Fault → ℕ → FavoriteType → ℕ → List Str → ActionOn Tagging (List Str)
set_owned_tags faults userid feature target tag_names t =
    let (ids, t') = get_or_create_many tag_names t in
    (serializable_retry faults (associate_transaction userid feature target ids) >> pure []) t'

abbrev pub may_edit : ℕ → ℕ → Db → Bool
may_edit userid ownerid db = userid == ownerid || elem userid db.mods

-- `associate`
unfoldable pub associate :
    List Fault → ℕ → FavoriteType → ℕ → List Str → ActionOn Tagging (List Str)
associate faults userid feature target tag_names t = elim (get_ownerid feature target t.site) [
  | none ↦ raise target_record_missing t
  | some ownerid ↦
      if ownerid == 0
      then raise target_record_missing t
      else if may_edit userid ownerid t.site
      then set_owned_tags faults userid feature target tag_names t
      else set_suggested_tags faults userid feature target ownerid tag_names t
]
