-- ===== src/SearchTags/Associate/Arrays.antt =====
-- The array of a submission in `submission_tags` follows its rows in `searchmapsubmit`.
use weasyl.Prelude.{
  ℕ, ◌≡◌, ◌⊎◌, refl, sym, subst, Bool, true, false, not, ◌||◌, List, [], ◌∷◌, map, arith, ◌==◌,
  if◌then◌else◌, all, Bool-cases, inl, inr, ==_iff,
}
use weasyl.Prelude.Strings.{same, same_refl}
use weasyl.Sql.{exists, select, update, insert}
use weasyl.Database.{Str, FavoriteType, submit, char, journal, TagRow, Fault}
use weasyl.SearchTags.Tables.{TagArray, Tagging, tags_of}
use weasyl.SearchTags.Names.{create_names, create_name, is_titled}
use weasyl.SearchTags.Associate.{
  is_of, associate_rows, suggest_rows, associate_transaction, suggest_transaction, associate,
  tagids_of, update_submission_tags, set_array,
}
use weasyl.SearchTags.Associate.Rows.{suggest_rows-other, associate_rows-other}
use weasyl.SearchTags.Associate.Effects.{associate-keeps}
use weasyl.Sql.All.{all-update, all-insert, all_implied, all_none}

-- The array, if there is one, has the ids of the rows.
abbrev pub is_synced : List TagRow → ℕ → TagArray → Bool
is_synced rows id a = not (a.submitid == id) || same a.tags (tagids_of (is_of id) rows)

abbrev pub IsSynced : List TagRow → List TagArray → Type 0
IsSynced rows arrays = (id : ℕ) → all (is_synced rows id) arrays ≡ true

-- A statement on the rows of one submission, and `_update_submission_tags` for it.
abbrev update_arrays : ℕ → List TagRow → List TagArray → List TagArray
update_arrays target rows arrays =
    let tags = tagids_of (is_of target) rows in
    if exists (λ a. a.submitid == target) arrays
    then update (λ a. a.submitid == target) (set_array tags) arrays
    else insert (record { submitid = target; tags = tags }) arrays

all-const_true : (arrays : List TagArray) → all (λ a. true) arrays ≡ true
all-const_true [] = refl
all-const_true (a ∷ arrays) = rw (all-const_true arrays) refl

update_arrays-own :
    (target : ℕ) (rows : List TagRow) (arrays : List TagArray)
    → all (is_synced rows target) (update_arrays target rows arrays) ≡ true
update_arrays-own target rows arrays =
    let tags = tagids_of (is_of target) rows in
    elim (Bool-cases (exists (λ a. a.submitid == target) arrays)) [
      | inl e ↦ rw e (
          all-update (λ a. true) (is_synced rows target) (λ a. a.submitid == target)
            (set_array tags) arrays (λ a _. ground (arith, same_refl tags)) (all-const_true arrays))
      | inr e ↦ rw e (
          all-insert (is_synced rows target) (record { submitid = target; tags = tags }) arrays
            (all_implied (λ a. not (a.submitid == target)) (is_synced rows target) arrays
              (λ a h. ground arith) (all_none (λ a. a.submitid == target) arrays e))
            (ground (arith, same_refl tags)))
    ]

update_arrays-other :
    (target other : ℕ) (rows rows' : List TagRow) (arrays : List TagArray)
    → (target == other) ≡ false
    → all (is_synced rows' other) arrays ≡ true
    → all (is_synced rows' other) (update_arrays target rows' arrays) ≡ true
update_arrays-other target other rows rows' arrays ne h =
    elim (Bool-cases (exists (λ a. a.submitid == target) arrays)) [
      | inl e ↦ rw e (
          all-update (is_synced rows' other) (is_synced rows' other) (λ a. a.submitid == target)
            (set_array (tagids_of (is_of target) rows')) arrays (λ a h. ground arith) h)
      | inr e ↦ rw e (
          all-insert (is_synced rows' other)
            (record { submitid = target; tags = tagids_of (is_of target) rows' }) arrays h
            (ground arith))
    ]

update_arrays-IsSynced :
    (target : ℕ) (rows rows' : List TagRow) (arrays : List TagArray)
    → ((other : ℕ)
        → (target == other) ≡ false
        → select (is_of other) rows' ≡ select (is_of other) rows)
    → IsSynced rows arrays
    → IsSynced rows' (update_arrays target rows' arrays)
update_arrays-IsSynced target rows rows' arrays others synced id =
    elim (Bool-cases (target == id)) [
      | inl e ↦
          subst (λ x. all (is_synced rows' x) (update_arrays target rows' arrays) ≡ true)
            ((==_iff target id).0 e) (update_arrays-own target rows' arrays)
      | inr e ↦
          let same_rows : select (is_of id) rows ≡ select (is_of id) rows' = sym (others id e) in
          update_arrays-other target id rows rows' arrays e (
            subst
              (λ x.
                all (λ a. not (a.submitid == id) || same a.tags (map (λ r. r.tagid) x)) arrays
                ≡ true)
              same_rows (synced id))
    ]

abbrev pub AreSynced : Tagging → Type 0
AreSynced t = IsSynced t.site.submission_tags t.arrays

create_names-AreSynced :
    (names : List Str) (t : Tagging) → AreSynced t → AreSynced (create_names names t)
unfolding create_names
create_names-AreSynced [] t h = h
create_names-AreSynced (name ∷ names) t h =
    create_names-AreSynced names (create_name name t)
      (one (Bool-cases (exists (is_titled name) t.names)))
  where
    one :
        ((exists (is_titled name) t.names ≡ true) ⊎ (exists (is_titled name) t.names ≡ false))
        → AreSynced (create_name name t)
    one (inl e) = rw e h
    one (inr e) = rw e h

associate_transaction-AreSynced :
    (userid target : ℕ) (feature : FavoriteType) (ids : List ℕ) (t : Tagging)
    → AreSynced t
    → AreSynced (associate_transaction userid feature target ids t).1
unfolding associate_transaction update_submission_tags
associate_transaction-AreSynced userid target submit ids t h =
    update_arrays-IsSynced target (tags_of submit t)
      (associate_rows userid target ids (tags_of submit t)) t.arrays
      (λ other e. associate_rows-other userid target other ids (tags_of submit t) e) h
associate_transaction-AreSynced userid target char ids t h = h
associate_transaction-AreSynced userid target journal ids t h = h

suggest_transaction-AreSynced :
    (userid target : ℕ) (feature : FavoriteType) (ids : List ℕ) (t : Tagging)
    → AreSynced t
    → AreSynced (suggest_transaction userid feature target ids t).1
unfolding suggest_transaction update_submission_tags
suggest_transaction-AreSynced userid target submit ids t h =
    update_arrays-IsSynced target (tags_of submit t)
      (suggest_rows userid target ids (tags_of submit t)) t.arrays
      (λ other e. suggest_rows-other userid target other ids (tags_of submit t) e) h
suggest_transaction-AreSynced userid target char ids t h = h
suggest_transaction-AreSynced userid target journal ids t h = h

-- Where every array of `submission_tags` has the ids of the rows of its submission, in the order of
-- the rows, it still has them after a call of `associate`, whoever calls it on which post, whatever
-- it returns and however the database fails it.
pub associate-AreSynced :
    (faults : List Fault) (userid : ℕ) (feature : FavoriteType) (target : ℕ) (names : List Str)
    (t : Tagging)
    → AreSynced t
    → AreSynced (associate faults userid feature target names t).1
associate-AreSynced faults userid feature target names t h =
    associate-keeps AreSynced create_names-AreSynced faults userid feature target names t
      (λ _ _ _ ids t h. associate_transaction-AreSynced userid target feature ids t h)
      (λ ids t h. suggest_transaction-AreSynced userid target feature ids t h) h
