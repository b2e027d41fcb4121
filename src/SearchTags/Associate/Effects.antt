-- ===== src/SearchTags/Associate/Effects.antt =====
-- What `associate` and `_set_suggested_tags` change.
use weasyl.Prelude.{
  ℕ, ◌≡◌, refl, ap, ◌∙◌, true, false, not, some, List, [], ◌∷◌, arith, ◌==◌, Bool-cases,
  Option-cases, inl, inr,
}
use weasyl.Prelude.Strings.{sorted}
use weasyl.Sql.{select, elem}
use weasyl.Database.{Str, FavoriteType, submit, char, journal, Fault, pure, serializable_retry}
use weasyl.Database.Keeps.{bind-keeps, serializable_retry-keeps}
use weasyl.Ignores
use weasyl.SearchTags.Tables.{Tagging, tags_of}
use weasyl.SearchTags.Names.{get_or_create_many, create_names, create_name, get_ids}
use weasyl.SearchTags.Associate.{
  get_ownerid, associate_transaction, suggest_transaction, set_suggested_tags, set_owned_tags,
  may_edit, associate, keep_names, restricted_patterns, update_submission_tags,
}
use weasyl.SearchTags.Patterns.{is_restricted}
use weasyl.SearchTags.Associate.Rows.{is_kept, suggest_rows-kept}

-- New names leave the tags of posts alone.
pub create_names-site :
    (f : FavoriteType) (names : List Str) (t : Tagging)
    → tags_of f (create_names names t) ≡ tags_of f t
unfolding create_names
create_names-site f [] t = refl
create_names-site f (name ∷ names) t = create_names-site f names (create_name name t) ∙ one f
  where
    one : (f : FavoriteType) → tags_of f (create_name name t) ≡ tags_of f t
    one submit = ground arith
    one char = ground arith
    one journal = ground arith

-- The tables of tags after a suggestion.
suggest_transaction-tags :
    (userid target : ℕ) (feature f : FavoriteType) (ids : List ℕ) (t : Tagging)
    → select (is_kept userid) (tags_of f (suggest_transaction userid feature target ids t).1)
      ≡ select (is_kept userid) (tags_of f t)
unfolding suggest_transaction update_submission_tags
suggest_transaction-tags userid target submit submit ids t =
    suggest_rows-kept userid target ids (tags_of submit t)
suggest_transaction-tags userid target char char ids t =
    suggest_rows-kept userid target ids (tags_of char t)
suggest_transaction-tags userid target journal journal ids t =
    suggest_rows-kept userid target ids (tags_of journal t)
suggest_transaction-tags userid target submit char ids t = refl
suggest_transaction-tags userid target submit journal ids t = refl
suggest_transaction-tags userid target char submit ids t = refl
suggest_transaction-tags userid target char journal ids t = refl
suggest_transaction-tags userid target journal submit ids t = refl
suggest_transaction-tags userid target journal char ids t = refl

-- A property of the state that new names and the transaction of a suggestion keep.
module _ (P : Tagging → Type 0)
    (named : (names : List Str) (t : Tagging) → P t → P (create_names names t)) where
  set_suggested_tags-keeps :
      (faults : List Fault) (userid : ℕ) (feature : FavoriteType) (target ownerid : ℕ)
      (names : List Str) (t : Tagging)
      → ((ids : List ℕ) (t : Tagging) → P t → P (suggest_transaction userid feature target ids t).1)
      → P t
      → P (set_suggested_tags faults userid feature target ownerid names t).1
  unfolding set_suggested_tags get_or_create_many
  set_suggested_tags-keeps faults userid feature target ownerid names t step h =
      let kept =
        keep_names (λ name. not (is_restricted (restricted_patterns ownerid t) name)) names in
      let t' = create_names kept t in
      let h' = named kept t h in
      let action = suggest_transaction userid feature target (get_ids kept t') in
      elim (Bool-cases (elem userid t.suggesters)) [
        | inl e ↦ rw e (elim (Bool-cases (Ignores.check ownerid userid t.site)) [
          | inl ignored ↦ rw ignored h
          | inr fine ↦ rw fine (
              bind-keeps P {A = Unit} {B = List Str} (serializable_retry faults action)
                (λ _.
                  pure (sorted (keep_names (is_restricted (restricted_patterns ownerid t)) names)))
                t' (serializable_retry-keeps P faults action t' h' (step (get_ids kept t') t' h'))
                (λ _ t h. h))
        ])
        | inr e ↦ rw e h
      ]

  set_owned_tags-keeps :
      (faults : List Fault) (userid : ℕ) (feature : FavoriteType) (target : ℕ) (names : List Str)
      (t : Tagging)
      → ((ids : List ℕ) (t : Tagging)
          → P t
          → P (associate_transaction userid feature target ids t).1)
      → P t
      → P (set_owned_tags faults userid feature target names t).1
  unfolding set_owned_tags get_or_create_many
  set_owned_tags-keeps faults userid feature target names t step h =
      let t' = create_names names t in
      let h' = named names t h in
      let action = associate_transaction userid feature target (get_ids names t') in
      bind-keeps P {A = Unit} {B = List Str} (serializable_retry faults action) (λ _. pure []) t'
        (serializable_retry-keeps P faults action t' h' (step (get_ids names t') t' h'))
        (λ _ t h. h)

  pub associate-keeps :
      (faults : List Fault) (userid : ℕ) (feature : FavoriteType) (target : ℕ) (names : List Str)
      (t : Tagging)
      → ((ownerid : ℕ)
          → get_ownerid feature target t.site ≡ some ownerid
          → may_edit userid ownerid t.site ≡ true
          → (ids : List ℕ) (t : Tagging) → P t
          → P (associate_transaction userid feature target ids t).1)
      → ((ids : List ℕ) (t : Tagging) → P t → P (suggest_transaction userid feature target ids t).1)
      → P t
      → P (associate faults userid feature target names t).1
  unfolding associate
  associate-keeps faults userid feature target names t owned suggested h =
      elim (Option-cases (get_ownerid feature target t.site)) [
        | inl e ↦ rw (associate, e) h
        | inr (ownerid, e) ↦
            rw (associate, e)
              (elim (Bool-cases (ownerid == 0)) [
                | inl zero ↦ rw zero h
                | inr other ↦ rw other (elim (Bool-cases (may_edit userid ownerid t.site)) [
                  | inl may ↦ rw may (
                      set_owned_tags-keeps faults userid feature target names t
                        (owned ownerid e may) h)
                  | inr may ↦ rw may (
                      set_suggested_tags-keeps faults userid feature target ownerid names t
                        suggested h)
                ])
              ])
      ]

-- Someone who is neither the owner of the post that `associate` is called on, which is there, nor a
-- moderator changes no tag, of any post, that its artist or a moderator set, and no suggestion of
-- somebody else, whatever the call returns and however the database fails it.
pub associate-is_kept :
    (faults : List Fault) (userid : ℕ) (feature : FavoriteType) (target : ℕ) (names : List Str)
    (t : Tagging) (f : FavoriteType) (ownerid : ℕ)
    → get_ownerid feature target t.site ≡ some ownerid
    → may_edit userid ownerid t.site ≡ false
    → select (is_kept userid) (tags_of f (associate faults userid feature target names t).1)
      ≡ select (is_kept userid) (tags_of f t)
associate-is_kept faults userid feature target names t f ownerid owner other =
    associate-keeps
      (λ t'. select (is_kept userid) (tags_of f t') ≡ select (is_kept userid) (tags_of f t))
      (λ names t' h. ap (select (is_kept userid)) (create_names-site f names t') ∙ h) faults userid
      feature target names t (λ id e may. absurd (ground (arith, owner, e, may, other)))
      (λ ids t' h. suggest_transaction-tags userid target feature f ids t' ∙ h) refl
