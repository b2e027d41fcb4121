-- ===== src/SearchTags/Suggestions.antt =====
-- Suggested tags in weasyl/searchtag.py: approving and rejecting them, undoing that, and the feedback
-- to them. Every id of a tag is positive.
pub mod Undo
use weasyl.Prelude.{
  ℕ, Bool, true, false, not, ◌&&◌, ◌||◌, Option, none, some, List, [], ◌∷◌, ◌++◌, ◌==◌,
  if◌then◌else◌,
}
use weasyl.Sql.{exists, first, delete, update, insert, insert_new, elem}
use weasyl.Forms.Text.{filter}
use weasyl.Database.{
  Str, FavoriteType, submit, char, journal, TagRow, Db, ActionOn, Result, ok, err, pure, raise,
  raise_if, modify, ◌>>=◌, ◌>>◌, transaction, target_record_missing, insufficient_permissions,
  unexpected, integrity_error, type_error,
}
use weasyl.SearchTags.Tables.{FeedbackRow, Tagging, tags_of, set_tags}
use weasyl.SearchTags.Names.{get_id, get_or_create_many}
use weasyl.SearchTags.Associate.{get_ownerid, is_tag, is_artist, approve, may_edit}
use weasyl.SearchTags.Tokens.{Aead, undo_token_create, undo_token_validate}

pub data SuggestionAction : Type 0 where
  reject_tag approve_tag : SuggestionAction

pub data SuggestionActionResult : Type 0 where
  failure : SuggestionActionResult
  success : Option Str → SuggestionActionResult

abbrev is_feature : FavoriteType → FavoriteType → Bool
is_feature submit submit = true
is_feature char char = true
is_feature journal journal = true
is_feature _ _ = false

abbrev pub is_feedback : FavoriteType → ℕ → ℕ → ℕ → FeedbackRow → Bool
is_feedback feature target tagid userid r =
    is_feature feature r.feature
    && (r.targetid == target && (r.tagid == tagid && r.userid == userid))

-- What is answered where no suggestion is left: it was rejected, or never made; or it was approved.
abbrev pub answer_absent : SuggestionAction → SuggestionActionResult
answer_absent approve_tag = failure
answer_absent reject_tag = success none

abbrev pub answer_approved : SuggestionAction → SuggestionActionResult
answer_approved approve_tag = success none
answer_approved reject_tag = failure

-- The `UPDATE` of an approval.
abbrev pub approve_rows : ℕ → ℕ → ℕ → List TagRow → List TagRow
approve_rows userid target tagid rows =
    update (λ r. is_tag target tagid r && not (is_artist r)) (approve userid) rows

abbrev pub no_feedback : FavoriteType → ℕ → ℕ → ℕ → FeedbackRow
no_feedback feature target tagid userid = record {
  feature = feature;
  targetid = target;
  tagid = tagid;
  userid = userid;
  incorrect = false;
  unwanted = false;
  abusive = false;
}

-- The two branches that write.
unfoldable pub settle : ℕ → FavoriteType → ℕ → ℕ → SuggestionAction → Tagging → Tagging
settle userid feature target tagid approve_tag t =
    set_tags feature (approve_rows userid target tagid (tags_of feature t)) t
settle userid feature target tagid reject_tag t =
    let t' = set_tags feature (delete (is_tag target tagid) (tags_of feature t)) t in
    record t' {
      feedback =
          insert_new (is_feedback feature target tagid userid)
            (no_feedback feature target tagid userid) t'.feedback;
    }

abbrev pub created_token : Aead → Str → ℕ → FavoriteType → ℕ → ℕ → Option ℕ → Result (Option Str)
created_token key nonce now feature target tagid none = ok none
created_token key nonce now feature target tagid (some added_by) =
    elim (undo_token_create key nonce now feature target tagid added_by) [
      | ok token ↦ ok (some token)
      | err e ↦ err e
    ]

abbrev pub find_tag : FavoriteType → ℕ → Option ℕ → Tagging → Option TagRow
find_tag feature target none t = none
find_tag feature target (some tagid) t = first (is_tag target tagid) (tags_of feature t)

-- `suggestion_arbitrate`, behind the checks of the owner.
unfoldable pub arbitrate_found :
    Aead
    → Str
    → ℕ
    → ℕ
    → FavoriteType
    → ℕ
    → SuggestionAction
    → Option TagRow
    → ActionOn Tagging SuggestionActionResult
arbitrate_found key nonce now userid feature target action none t = pure (answer_absent action) t
arbitrate_found key nonce now userid feature target action (some check) t =
    if is_artist check
    then pure (answer_approved action) t
    else elim (created_token key nonce now feature target check.tagid check.added_by) [
      | err e ↦ raise e t
      | ok token ↦ (ok (success token), settle userid feature target check.tagid action t)
    ]

abbrev pub may_settle : ℕ → Option ℕ → Db → Bool
may_settle userid none db = false
may_settle userid (some ownerid) db = not (ownerid == 0) && may_edit userid ownerid db

abbrev pub is_missing : Option ℕ → Bool
is_missing none = true
is_missing (some ownerid) = ownerid == 0

-- `suggestion_arbitrate`
unfoldable pub suggestion_arbitrate :
    Aead
    → Str
    → ℕ
    → ℕ
    → FavoriteType
    → ℕ
    → Str
    → SuggestionAction
    → ActionOn Tagging SuggestionActionResult
suggestion_arbitrate key nonce now userid feature target tag_name action t =
    let ownerid = get_ownerid feature target t.site in
    if is_missing ownerid
    then raise target_record_missing t
    else if not (may_settle userid ownerid t.site)
    then raise insufficient_permissions t
    else arbitrate_found key nonce now userid feature target action
        (find_tag feature target (get_id tag_name t) t) t

-- `replace(settings, 'a', '')`, and the row that the undo leaves.
abbrev pub restore : ℕ → TagRow → TagRow
restore added_by r = record r {
  settings = filter (λ c. not (c == b'a')) r.settings;
  added_by = some added_by;
}

abbrev pub restore_rows : ℕ → ℕ → ℕ → List TagRow → List TagRow
restore_rows added_by target tagid rows =
    if exists (is_tag target tagid) rows
    then update (is_tag target tagid) (restore added_by) rows
    else insert
        (record { targetid = target; tagid = tagid; settings = []; added_by = some added_by }) rows

unfoldable pub undo : ℕ → FavoriteType → ℕ → ℕ → ℕ → Tagging → Tagging
undo userid feature target tagid added_by t =
    let t' = set_tags feature (restore_rows added_by target tagid (tags_of feature t)) t in
    record t' { feedback = delete (is_feedback feature target tagid userid) t'.feedback }

-- `suggestion_action_undo`
unfoldable pub suggestion_action_undo :
    Aead → ℕ → ℕ → FavoriteType → ℕ → Str → Str → ActionOn Tagging Unit
suggestion_action_undo key now userid feature target tag_name undo_token t =
    elim (get_id tag_name t) [
      | none ↦ raise unexpected t
      | some tagid ↦ elim (undo_token_validate key now feature target tagid undo_token) [
        | err e ↦ raise e t
        | ok restore_added_by ↦
            if not (may_settle userid (get_ownerid feature target t.site) t.site)
            then raise unexpected t
            else modify (undo userid feature target tagid restore_added_by) t
      ]
    ]

pub record SuggestionFeedback : Type 0 where
  pub incorrect : Bool
  pub unwanted : Bool
  pub abusive : Bool

abbrev pub set_feedback : SuggestionFeedback → FeedbackRow → FeedbackRow
set_feedback f r = record r { incorrect = f.incorrect; unwanted = f.unwanted; abusive = f.abusive }

pub upsert_feedback :
    FavoriteType → ℕ → ℕ → ℕ → SuggestionFeedback → List FeedbackRow → List FeedbackRow
upsert_feedback feature target tagid userid feedback rows =
    if exists (is_feedback feature target tagid userid) rows
    then update (is_feedback feature target tagid userid) (set_feedback feedback) rows
    else insert (set_feedback feedback (no_feedback feature target tagid userid)) rows

-- `userid != ownerid and userid not in staff.MODS`, negated.
abbrev pub may_review : ℕ → Option ℕ → Db → Bool
may_review userid none db = elem userid db.mods
may_review userid (some ownerid) db = may_edit userid ownerid db

abbrev set_first_feedback :
    ℕ → FavoriteType → ℕ → SuggestionFeedback → List ℕ → ActionOn Tagging Unit
set_first_feedback userid feature target feedback [] t = raise type_error t
set_first_feedback userid feature target feedback (tagid ∷ ids) t =
    modify
      (λ t. record t { feedback = upsert_feedback feature target tagid userid feedback t.feedback })
      t

-- `set_tag_feedback`. A moderator's feedback to a post that is not there fails at the reference to the
-- post.
pub set_tag_feedback : ℕ → FavoriteType → ℕ → Str → SuggestionFeedback → ActionOn Tagging Unit
set_tag_feedback userid feature target tag_name feedback t =
    let ownerid = get_ownerid feature target t.site in
    if not (may_review userid ownerid t.site)
    then raise unexpected t
    else let (ids, t') = get_or_create_many (tag_name ∷ []) t in
      elim ownerid [
        | none ↦ raise integrity_error t'
        | some _ ↦ set_first_feedback userid feature target feedback ids t'
      ]
