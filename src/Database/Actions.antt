-- ===== src/Database/Actions.antt =====
-- Calls that read and write the tables and may raise. What was written outside a transaction stays
-- written when a later statement raises.
use weasyl.Prelude.{
  ◌≡◌, ◌⊎◌, refl, inl, inr, ℕ, ◌+◌, Bool, true, false, not, ◌||◌, List, [], ◌∷◌, ◌==◌,
  if◌then◌else◌,
}
use weasyl.Database.Tables.{Db}

-- The codes of `WeasylError`, and the `OperationalError` and
-- `MultipleResultsFound` of the database's driver, and `TypeError`.
pub data Error : Type 0 where
  ignored_you you_ignored cannot_ignore_self cannot_ignore_staff : Error
  watchuser_record_missing target_record_missing cannot_self_favorite friends_only : Error
  content_owner_ignored_you collection_unacceptable collection_exists collection_throttle : Error
  rating_exceeded folder_record_missing folder_record_exists title_invalid parentid_invalid : Error
  insufficient_permissions rating_invalid undo_expired invalid_tag struct_error : Error
  content_invalid title_too_long recipient_excessive recipient_invalid note_record_missing : Error
  record_missing shout_record_missing submission_record_missing comment_invalid : Error
  page_owner_ignored_you you_ignored_page_owner reply_recipient_ignored_you : Error
  you_ignored_reply_recipient insufficient_action_permissions : Error
  tag_too_long assertion_failed : Error
  email_invalid password_insecure forgotpassword_record_missing : Error
  journal_record_missing character_record_missing user_ignored tag_blocked : Error
  username_invalid username_too_long username_banned username_exists_error birthday_invalid : Error
  email_blacklisted logincreate_record_missing username_changed_too_recently : Error
  password_incorrect email_token_incorrect value_error attribute_error : Error
  too_many_preference_tags integrity_error unexpected operational_error multiple_results
        type_error :
      Error

pub data Result (A : Type 0) : Type 0 where
  ok : A → Result A
  err : Error → Result A

pub Result-cases :
    {A : Type 0} (r : Result A) → ((a : A) × (r ≡ ok a)) ⊎ ((e : Error) × (r ≡ err e))
Result-cases (ok a) = inl (a, refl)
Result-cases (err e) = inr (e, refl)

-- A call on a state `S`.
abbrev pub ActionOn : Type 0 → Type 0 → Type 0
ActionOn S A = S → Result A × S

-- A call on the tables that most modules share.
abbrev pub Action : Type 0 → Type 0
Action A = ActionOn Db A

module _ {S A : Type 0} where
  abbrev pub pure : A → ActionOn S A
  pure a db = (ok a, db)

  abbrev pub raise : Error → ActionOn S A
  raise e db = (err e, db)

  abbrev pub gets : (S → A) → ActionOn S A
  gets f db = (ok (f db), db)

infixl 5 ◌>>=◌ ◌>>◌
abbrev pub ◌>>=◌ : {S A B : Type 0} → ActionOn S A → (A → ActionOn S B) → ActionOn S B
◌>>=◌ m f db = let (r, db') = m db in elim r [ ok a ↦ f a db' | err e ↦ raise e db' ]

abbrev pub ◌>>◌ : {S A B : Type 0} → ActionOn S A → ActionOn S B → ActionOn S B
m >> k = m >>= λ _. k

abbrev pub raise_if : {S : Type 0} → Bool → Error → ActionOn S Unit
raise_if c e db = (if c then err e else ok tt, db)

abbrev pub modify : {S : Type 0} → (S → S) → ActionOn S Unit
modify f db = (ok tt, f db)

-- `with db.begin():`: what the action wrote is undone if it raises.
abbrev pub transaction : {S A : Type 0} → ActionOn S A → ActionOn S A
transaction action db =
    let (r, db') = action db in elim r [ ok a ↦ (ok a, db') | err e ↦ (err e, db) ]

-- How the database fails an attempt at a transaction: an `OperationalError` with the code
-- `SERIALIZATION_FAILURE`, or with another code.
pub data Fault : Type 0 where
  serialization_failure other_failure : Fault

abbrev pub is_serialization : Fault → Bool
is_serialization serialization_failure = true
is_serialization other_failure = false

-- The loop of `serializable_retry` from attempt `i` on. The database fails the attempts in the
-- list, and no attempt after those.
unfoldable pub retry_from : {S A : Type 0} → ℕ → ℕ → List Fault → ActionOn S A → ActionOn S A
retry_from limit i [] action db = transaction action db
retry_from limit i (fault ∷ faults) action db =
    if i == limit || not (is_serialization fault)
    then (err operational_error, db)
    else retry_from limit (i + 1) faults action db

abbrev pub retry_limit : ℕ
retry_limit = 16

-- `serializable_retry`, at its default limit.
unfoldable pub serializable_retry : {S A : Type 0} → List Fault → ActionOn S A → ActionOn S A
unfolding retry_from
serializable_retry faults action = retry_from retry_limit 1 faults action
