-- ===== src/SearchTags/Associate/Owned.antt =====
-- The tags that the owner of a post, or a moderator, sets.
use weasyl.Prelude.{ℕ, ◌≡◌, refl, ap, ◌∙◌, Bool, true, false, some, List, [], ◌∷◌, arith, ◌==◌, all}
use weasyl.Prelude.Strings.{same_refl}
use weasyl.Sql.{exists, elem}
use weasyl.Sql.Laws.{exists-insert}
use weasyl.Database.{
  Str, FavoriteType, submit, char, journal, ActionOn, Fault, Result, ok, err, pure, ◌>>◌,
  serializable_retry,
}
use weasyl.Database.Retry.{gets_through, serializable_retry_lem}
use weasyl.SearchTags.Tables.{Tagging, tags_of}
use weasyl.SearchTags.Names.{
  get_or_create_many, create_names, create_name, get_ids, get_id, is_titled,
}
use weasyl.SearchTags.Associate.{
  get_ownerid, associate_transaction, set_owned_tags, may_edit, associate, update_submission_tags,
}
use weasyl.SearchTags.Associate.Rows.{is_artist_tag, associate_rows-artist}

-- Every given name is in `searchtag` afterwards.
abbrev pub is_known : Tagging → Str → Bool
is_known t name = exists (is_titled name) t.names

create_name-known : (name : Str) (t : Tagging) → is_known (create_name name t) name ≡ true
create_name-known name t = ground (
  arith,
  same_refl name,
  exists-insert (is_titled name) (record { tagid = t.next_tagid; title = name }) t.names,
)

create_name-keeps :
    (name other : Str) (t : Tagging)
    → is_known t other ≡ true
    → is_known (create_name name t) other ≡ true
create_name-keeps name other t h =
    ground (
      arith,
      exists-insert (is_titled other) (record { tagid = t.next_tagid; title = name }) t.names,
    )

create_names-keeps :
    (names : List Str) (other : Str) (t : Tagging)
    → is_known t other ≡ true
    → is_known (create_names names t) other ≡ true
unfolding create_names
create_names-keeps [] other t h = h
create_names-keeps (name ∷ names) other t h =
    create_names-keeps names other (create_name name t) (create_name-keeps name other t h)

create_names-known :
    (names : List Str) (t : Tagging) → all (is_known (create_names names t)) names ≡ true
unfolding create_names
create_names-known [] t = refl
create_names-known (name ∷ names) t =
    rw (create_names-keeps names name (create_name name t) (create_name-known name t))
      (create_names-known names (create_name name t))

get_ids-names :
    (names : List Str) (t t' : Tagging) → t.names ≡ t'.names → get_ids names t ≡ get_ids names t'
unfolding get_ids get_id
get_ids-names [] t t' e = refl
get_ids-names (name ∷ names) t t' e = rw (get_ids-names names t t' e, e) refl

-- What the transaction of `associate` leaves.
abbrev HasTags : FavoriteType → ℕ → List Str → Tagging → Type 0
HasTags feature target names t =
    (all (is_known t) names ≡ true)
    × ((tagid : ℕ)
        → exists (is_artist_tag target tagid) (tags_of feature t) ≡ elem tagid (get_ids names t))

associate_transaction-tags :
    (userid target : ℕ) (feature : FavoriteType) (names : List Str) (t : Tagging)
    → all (is_known t) names ≡ true
    → HasTags feature target names
        (associate_transaction userid feature target (get_ids names t) t).1
unfolding associate_transaction update_submission_tags
associate_transaction-tags userid target submit names t h = (
  h,
  λ tagid.
      associate_rows-artist userid target tagid (get_ids names t) (tags_of submit t)
      ∙ ap (elem tagid) (get_ids-names names t _ refl),
)
associate_transaction-tags userid target char names t h = (
  h,
  λ tagid.
      associate_rows-artist userid target tagid (get_ids names t) (tags_of char t)
      ∙ ap (elem tagid) (get_ids-names names t _ refl),
)
associate_transaction-tags userid target journal names t h = (
  h,
  λ tagid.
      associate_rows-artist userid target tagid (get_ids names t) (tags_of journal t)
      ∙ ap (elem tagid) (get_ids-names names t _ refl),
)

then_pure :
    {S B : Type 0} (m : ActionOn S Unit) (b : B) (s s' : S)
    → m s ≡ (ok tt, s')
    → (m >> pure b) s ≡ (ok b, s')
then_pure {S} {B} m b s s' e =
    ap (λ x. elim x.0 as (λ _. Result B × S) [ ok a ↦ (ok b, x.1) | err e ↦ (err e, x.1) ]) e

set_owned_tags_lem :
    (faults : List Fault) (userid : ℕ) (feature : FavoriteType) (target : ℕ) (names : List Str)
    (t : Tagging)
    → gets_through faults ≡ true
    → let known = create_names names t in
      set_owned_tags faults userid feature target names t
      ≡ (ok [], (associate_transaction userid feature target (get_ids names known) known).1)
unfolding set_owned_tags get_or_create_many
set_owned_tags_lem faults userid feature target names t through =
    let known = create_names names t in
    let action = associate_transaction userid feature target (get_ids names known) in
    then_pure {B = List Str} (serializable_retry faults action) [] known (action known).1 (
      serializable_retry_lem faults action known
      ∙ rw through (unfold associate_transaction in refl))

associate-owned :
    (faults : List Fault) (userid : ℕ) (feature : FavoriteType) (target : ℕ) (names : List Str)
    (t : Tagging) (ownerid : ℕ)
    → get_ownerid feature target t.site ≡ some ownerid
    → (ownerid == 0) ≡ false
    → may_edit userid ownerid t.site ≡ true
    → associate faults userid feature target names t
      ≡ set_owned_tags faults userid feature target names t
unfolding associate
associate-owned faults userid feature target names t ownerid owned nonzero may =
    rw (associate, owned, nonzero, may) refl

-- Where the owner of a post, who is not 0, or a moderator calls `associate` and the database gets the
-- transaction through, the call returns no names that were left out; afterwards every given name is
-- a tag that `searchtag` knows, and the tags of the post that an artist or a moderator set are
-- exactly those whose names were given.
pub associate-artist :
    (faults : List Fault) (userid : ℕ) (feature : FavoriteType) (target : ℕ) (names : List Str)
    (t : Tagging) (ownerid : ℕ)
    → get_ownerid feature target t.site ≡ some ownerid
    → (ownerid == 0) ≡ false
    → may_edit userid ownerid t.site ≡ true
    → gets_through faults ≡ true
    → let (r, t') = associate faults userid feature target names t in
      (r ≡ ok [])
      × (all (is_known t') names ≡ true)
      × ((tagid : ℕ)
          → exists (is_artist_tag target tagid) (tags_of feature t')
            ≡ elem tagid (get_ids names t'))
associate-artist faults userid feature target names t ownerid owned nonzero may through =
    let known = create_names names t in
    let done =
      associate_transaction-tags userid target feature names known (create_names-known names t) in
    rw
      (
        associate-owned faults userid feature target names t ownerid owned nonzero may,
        set_owned_tags_lem faults userid feature target names t through,
      )
      (refl, done.0, done.1)
