-- ===== src/SearchTags/Suggestions/Undo.antt =====
-- Undoing the approval or the rejection of a suggested tag brings the suggestion back.
use weasyl.Prelude.{
  ℕ, ◌+◌, ◌≤◌, ◌≡◌, refl, subst, ◌∙◌, true, false, not, ◌&&◌, Option, some, none, List, [], ◌∷◌,
  arith, length, Bool-cases, inl, inr,
}
use weasyl.Sql.{exists, select, first, delete, update}
use weasyl.Sql.Laws.{
  first-exists, first-exists_no, first-insert, exists-delete_implied, exists-update,
}
use weasyl.Sql.Rows.{select-insert_no, select-delete_other, select-update_other}
use weasyl.Database.{Str, FavoriteType, submit, char, journal, TagRow, Db, ok}
use weasyl.SearchTags.Tables.{Tagging, tags_of}
use weasyl.SearchTags.Names.{get_id}
use weasyl.SearchTags.Associate.{get_ownerid, is_tag, is_artist, approve}
use weasyl.SearchTags.Tokens.{Aead, undo_token_create, undo_token_validate}
use weasyl.SearchTags.Tokens.Seal.{Opens, undo_token_validate-create}
use weasyl.SearchTags.Suggestions.{
  SuggestionAction, approve_tag, reject_tag, success, approve_rows, restore, restore_rows, settle,
  undo, arbitrate_found, may_settle, is_missing, suggestion_arbitrate, suggestion_action_undo,
}

-- A suggestion of a user.
abbrev pub suggestion : ℕ → ℕ → ℕ → TagRow
suggestion target tagid added_by = record {
  targetid = target;
  tagid = tagid;
  settings = [];
  added_by = some added_by;
}

module _ (userid added_by target tagid : ℕ) where
  approved-first :
      (rows : List TagRow)
      → first (is_tag target tagid) rows ≡ some (suggestion target tagid added_by)
      → first
          (is_tag target tagid)
          (update (is_tag target tagid) (restore added_by) (approve_rows userid target tagid rows))
        ≡ some (suggestion target tagid added_by)
  approved-first [] e = cc
  approved-first (r ∷ rows) e = elim (Bool-cases (is_tag target tagid r)) [
    | inl is ↦
        let same : suggestion target tagid added_by ≡ r = ground arith in
        subst
          (λ r.
            first (is_tag target tagid) (
              update (is_tag target tagid) (restore added_by)
                (approve_rows userid target tagid (r ∷ rows)))
            ≡ some (suggestion target tagid added_by))
          same (ground arith)
    | inr other ↦ ground (arith, approved-first rows)
  ]

  approved-exists :
      (rows : List TagRow)
      → exists (is_tag target tagid) (approve_rows userid target tagid rows)
        ≡ exists (is_tag target tagid) rows
  approved-exists rows =
      exists-update (λ r. is_tag target tagid r && not (is_artist r)) (is_tag target tagid)
        (approve userid) rows (λ r h. refl)

  -- After an approval.
  pub restore-approve :
      (rows : List TagRow)
      → first (is_tag target tagid) rows ≡ some (suggestion target tagid added_by)
      → first
          (is_tag target tagid)
          (restore_rows added_by target tagid (approve_rows userid target tagid rows))
        ≡ some (suggestion target tagid added_by)
  restore-approve rows e =
      rw
        (
          approved-exists rows,
          first-exists (is_tag target tagid) rows (suggestion target tagid added_by) e,
        )
        (approved-first rows e)

  -- After a rejection.
  pub restore-reject :
      (rows : List TagRow)
      → first
          (is_tag target tagid)
          (restore_rows added_by target tagid (delete (is_tag target tagid) rows))
        ≡ some (suggestion target tagid added_by)
  restore-reject rows =
      let p = is_tag target tagid in
      let gone = exists-delete_implied p p rows (λ r h. h) in
      rw gone (
        first-insert p (suggestion target tagid added_by) (delete p rows)
        ∙ rw (first-exists_no p (delete p rows) gone) (ground arith))

  restore-others :
      (rows : List TagRow)
      → select (λ r. not (is_tag target tagid r)) (restore_rows added_by target tagid rows)
        ≡ select (λ r. not (is_tag target tagid r)) rows
  restore-others rows = elim (Bool-cases (exists (is_tag target tagid) rows)) [
    | inl e ↦ rw e (
        select-update_other (is_tag target tagid) (λ r. not (is_tag target tagid r))
          (restore added_by) rows (λ r h. (ground arith, ground arith)))
    | inr e ↦ rw e (
        select-insert_no (λ r. not (is_tag target tagid r)) (suggestion target tagid added_by) rows
          (ground arith))
  ]

  pub restore-approve_others :
      (rows : List TagRow)
      → select
          (λ r. not (is_tag target tagid r))
          (restore_rows added_by target tagid (approve_rows userid target tagid rows))
        ≡ select (λ r. not (is_tag target tagid r)) rows
  restore-approve_others rows =
      restore-others (approve_rows userid target tagid rows)
      ∙ select-update_other (λ r. is_tag target tagid r && not (is_artist r))
          (λ r. not (is_tag target tagid r)) (approve userid) rows
          (λ r h. (ground arith, ground arith))

  pub restore-reject_others :
      (rows : List TagRow)
      → select
          (λ r. not (is_tag target tagid r))
          (restore_rows added_by target tagid (delete (is_tag target tagid) rows))
        ≡ select (λ r. not (is_tag target tagid r)) rows
  restore-reject_others rows =
      restore-others (delete (is_tag target tagid) rows)
      ∙ select-delete_other (is_tag target tagid) (λ r. not (is_tag target tagid r)) rows
          (λ r h. ground arith)

-- The suggestion is there, and the other rows are the same, in the same order.
abbrev pub IsRestored : FavoriteType → ℕ → ℕ → ℕ → Tagging → Tagging → Type 0
IsRestored feature target tagid added_by before after =
    (first (is_tag target tagid) (tags_of feature after) ≡ some (suggestion target tagid added_by))
    × (select (λ r. not (is_tag target tagid r)) (tags_of feature after)
        ≡ select (λ r. not (is_tag target tagid r)) (tags_of feature before))

undo-settle :
    (userid added_by target tagid : ℕ) (feature : FavoriteType) (action : SuggestionAction)
    (t : Tagging)
    → first (is_tag target tagid) (tags_of feature t) ≡ some (suggestion target tagid added_by)
    → IsRestored feature target tagid added_by t
        (undo userid feature target tagid added_by (settle userid feature target tagid action t))
unfolding undo settle
undo-settle userid added_by target tagid submit approve_tag t e = (
  restore-approve userid added_by target tagid (tags_of submit t) e,
  restore-approve_others userid added_by target tagid (tags_of submit t),
)
undo-settle userid added_by target tagid char approve_tag t e = (
  restore-approve userid added_by target tagid (tags_of char t) e,
  restore-approve_others userid added_by target tagid (tags_of char t),
)
undo-settle userid added_by target tagid journal approve_tag t e = (
  restore-approve userid added_by target tagid (tags_of journal t) e,
  restore-approve_others userid added_by target tagid (tags_of journal t),
)
undo-settle userid added_by target tagid submit reject_tag t e = (
  restore-reject userid added_by target tagid (tags_of submit t),
  restore-reject_others userid added_by target tagid (tags_of submit t),
)
undo-settle userid added_by target tagid char reject_tag t e = (
  restore-reject userid added_by target tagid (tags_of char t),
  restore-reject_others userid added_by target tagid (tags_of char t),
)
undo-settle userid added_by target tagid journal reject_tag t e = (
  restore-reject userid added_by target tagid (tags_of journal t),
  restore-reject_others userid added_by target tagid (tags_of journal t),
)

-- Settling a suggestion changes neither owners nor names.
may_settle-mods :
    (u : ℕ) (o : Option ℕ) (rows : List TagRow) (db : Db)
    → may_settle u o (record db { submission_tags = rows }) ≡ may_settle u o db
may_settle-mods u none rows db = refl
may_settle-mods u (some o) rows db = refl

may_settle-tags :
    (u id : ℕ) (f : FavoriteType) (rows : List TagRow) (db : Db)
    → may_settle u
        (get_ownerid f id (record db { submission_tags = rows }))
        (record db { submission_tags = rows })
      ≡ may_settle u (get_ownerid f id db) db
unfolding get_ownerid
may_settle-tags u id submit rows db = may_settle-mods u (get_ownerid submit id db) rows db
may_settle-tags u id char rows db = may_settle-mods u (get_ownerid char id db) rows db
may_settle-tags u id journal rows db = may_settle-mods u (get_ownerid journal id db) rows db

settle-may_settle :
    (userid u target tagid id : ℕ) (feature f : FavoriteType) (action : SuggestionAction)
    (t : Tagging)
    → may_settle u
        (get_ownerid f id (settle userid feature target tagid action t).site)
        (settle userid feature target tagid action t).site
      ≡ may_settle u (get_ownerid f id t.site) t.site
unfolding settle
settle-may_settle userid u target tagid id submit f approve_tag t =
    may_settle-tags u id f (approve_rows userid target tagid (tags_of submit t)) t.site
settle-may_settle userid u target tagid id submit f reject_tag t =
    may_settle-tags u id f (delete (is_tag target tagid) (tags_of submit t)) t.site
settle-may_settle userid u target tagid id char f approve_tag t = refl
settle-may_settle userid u target tagid id char f reject_tag t = refl
settle-may_settle userid u target tagid id journal f approve_tag t = refl
settle-may_settle userid u target tagid id journal f reject_tag t = refl

settle-id :
    (userid target tagid : ℕ) (feature : FavoriteType) (action : SuggestionAction) (name : Str)
    (t : Tagging)
    → get_id name (settle userid feature target tagid action t) ≡ get_id name t
unfolding settle get_id
settle-id userid target tagid submit approve_tag name t = refl
settle-id userid target tagid submit reject_tag name t = refl
settle-id userid target tagid char approve_tag name t = refl
settle-id userid target tagid char reject_tag name t = refl
settle-id userid target tagid journal approve_tag name t = refl
settle-id userid target tagid journal reject_tag name t = refl

owned-found :
    (userid : ℕ) (o : Option ℕ) (db : Db) → may_settle userid o db ≡ true → is_missing o ≡ false
owned-found userid none db h = cc
owned-found userid (some o) db h = ground arith

module _ (key : Aead) (nonce : Str) (now later userid : ℕ) (feature : FavoriteType) (target : ℕ)
    (name : Str) (action : SuggestionAction) (t : Tagging) (tagid added_by : ℕ) (token : Str) where
  suggestion_arbitrate-settle :
      may_settle userid (get_ownerid feature target t.site) t.site ≡ true
      → get_id name t ≡ some tagid
      → first (is_tag target tagid) (tags_of feature t) ≡ some (suggestion target tagid added_by)
      → undo_token_create key nonce now feature target tagid added_by ≡ ok token
      → suggestion_arbitrate key nonce now userid feature target name action t
        ≡ (ok (success (some token)), settle userid feature target tagid action t)
  unfolding suggestion_arbitrate settle arbitrate_found
  suggestion_arbitrate-settle owner id found made =
      rw
        (
          suggestion_arbitrate,
          owned-found userid (get_ownerid feature target t.site) t.site owner,
          owner,
          id,
          found,
          arbitrate_found,
          made,
        )
        refl

  suggestion_action_undo-undo :
      (t' : Tagging)
      → may_settle userid (get_ownerid feature target t'.site) t'.site ≡ true
      → get_id name t' ≡ some tagid
      → undo_token_validate key later feature target tagid token ≡ ok added_by
      → suggestion_action_undo key later userid feature target name token t'
        ≡ (ok tt, undo userid feature target tagid added_by t')
  unfolding suggestion_action_undo undo
  suggestion_action_undo-undo t' owner id valid = rw (suggestion_action_undo, id, valid, owner) refl

-- Where the owner of a post or a moderator approves or rejects a user's suggestion, the call answers
-- with the token that it made, and the same person then undoes that with the token not more than 60
-- seconds later and by a clock that is at most two seconds behind: the undo succeeds, the suggestion
-- is back with its user, and every other row of the table is as before. The suggestion is a row
-- without settings, the first of its post and tag, and the tag has a name that `searchtag` knows. The cipher opens what it
-- sealed, with a tag of 16 bytes, the nonce has 12 bytes, and the token's numbers fit 32 bits.
pub suggestion_action_undo-suggestion_arbitrate :
    (key : Aead) (opens : Opens key) (nonce : Str) (now later userid : ℕ) (feature : FavoriteType)
    (target : ℕ) (name : Str) (action : SuggestionAction) (t : Tagging) (tagid added_by : ℕ)
    (token : Str)
    → length nonce ≡ 12
    → later ≤ now + 60
    → now ≤ later + 2
    → may_settle userid (get_ownerid feature target t.site) t.site ≡ true
    → get_id name t ≡ some tagid
    → first (is_tag target tagid) (tags_of feature t) ≡ some (suggestion target tagid added_by)
    → undo_token_create key nonce now feature target tagid added_by ≡ ok token
    → let (answer, settled) =
        suggestion_arbitrate key nonce now userid feature target name action t in
      let (undone, after) =
        suggestion_action_undo key later userid feature target name token settled in
      (answer ≡ ok (success (some token)))
      × (undone ≡ ok tt)
      × IsRestored feature target tagid added_by t after
suggestion_action_undo-suggestion_arbitrate key opens nonce now later userid feature target name
      action t tagid added_by token size early late owner id found made =
    let settled = settle userid feature target tagid action t in
    let valid : undo_token_validate key later feature target tagid token ≡ ok added_by =
      undo_token_validate-create key opens nonce now later feature target tagid added_by token size
        made
      ∙ ground arith in
    let undone =
      suggestion_action_undo-undo key nonce now later userid feature target name action t tagid
        added_by token settled
        (settle-may_settle userid userid target tagid target feature feature action t ∙ owner)
        (settle-id userid target tagid feature action name t ∙ id) valid in
    rw
      (
        suggestion_arbitrate-settle key nonce now later userid feature target name action t tagid
            added_by token owner id found made,
        undone,
      )
      (refl, refl, undo-settle userid added_by target tagid feature action t found)
