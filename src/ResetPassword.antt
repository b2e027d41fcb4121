-- ===== src/ResetPassword.antt =====
-- weasyl/resetpassword.py: the tokens that are sent by e-mail to reset a password. Times are in seconds.
-- The e-mail itself is left out.
pub mod Addresses
pub mod Tokens
pub mod InTime
use weasyl.Prelude.{
  ℕ, ◌+◌, Bool, true, false, not, ◌&&◌, ◌||◌, Option, none, some, List, [], ◌∷◌, ◌==◌, leb, ltb,
  if◌then◌else◌, length,
}
use weasyl.Prelude.Strings.{same}
use weasyl.ResetPassword.Addresses.{normalize_address}
use weasyl.Sql.{exists, select, first, count, delete, update, insert}
use weasyl.Database.{
  Str, ActionOn, pure, raise, raise_if, gets, modify, transaction, ◌>>=◌, ◌>>◌, email_invalid,
  password_insecure, forgotpassword_record_missing, integrity_error, unexpected,
}

-- SHA-256, bcrypt, and `lower` of the database under the collation "C". Nothing is assumed of them.
pub record Hashes : Type 0 where
  pub hash_token : Str → Str
  pub passhash : Str → Str
  pub lower_c : Str → Str

-- `forgotpassword`
pub record ForgotRow : Type 0 where
  pub token_sha256 : Str
  pub email : Str
  pub created_at : ℕ

-- The e-mail of a row of `login`, joined with its `profile`.
pub record Address : Type 0 where
  pub userid : ℕ
  pub email : Str

-- `authbcrypt`
pub record HashRow : Type 0 where
  pub userid : ℕ
  pub hashsum : Str

-- An event "password-reset" of `user_events`.
pub record ResetEvent : Type 0 where
  pub userid : ℕ
  pub address : Str

pub record Accounts : Type 0 where
  pub forgotten : List ForgotRow
  pub logins : List Address
  pub hashes : List HashRow
  pub events : List ResetEvent
  -- `now()`
  pub now : ℕ

-- `INTERVAL '1 hour'`
abbrev pub one_hour : ℕ
one_hour = 3600

-- `_PASSWORD`
abbrev pub min_length : ℕ
min_length = 10

abbrev pub password_secure : Str → Bool
password_secure password = leb min_length (length password)

-- `request`, with the token that `security.generate_key` made.
unfoldable pub request_reset : Hashes → Str → Str → ActionOn Accounts Unit
request_reset mail address token db = elim (normalize_address address) [
  | none ↦ raise email_invalid db
  | some email ↦
      if exists (λ f. same f.token_sha256 (mail.hash_token token)) db.forgotten
      then raise integrity_error db
      else modify
          (λ db. record db {
            forgotten =
                insert
                  (record {
                    token_sha256 = mail.hash_token token;
                    email = email;
                    created_at = db.now;
                  })
                  db.forgotten;
          })
          db
]

-- `_find_reset_target`, which returns the user.
unfoldable pub find_reset_target : Hashes → Str → List Address → Option Address
find_reset_target mail email logins =
    let matches = select (λ l. same (mail.lower_c l.email) (mail.lower_c email)) logins in
    elim (first (λ l. same l.email email) matches) [
      | some l ↦ some l
      | none ↦ first (λ l. true) matches
    ]

-- The result of `prepare`: no token, no account with the address, or the account.
pub data Prepared : Type 0 where
  expired : Prepared
  unregistered : Str → Prepared
  target : Address → Prepared

abbrev prepared_for : Str → Option Address → Prepared
prepared_for email none = unregistered email
prepared_for email (some l) = target l

abbrev pub is_token : Str → ForgotRow → Bool
is_token token_sha256 f = same f.token_sha256 token_sha256

-- `prepare`
unfoldable pub prepare : Hashes → Str → ActionOn Accounts Prepared
unfolding find_reset_target
prepare mail token db =
    let kept = delete (λ f. ltb (f.created_at + one_hour) db.now) db.forgotten in
    let db' = record db { forgotten = kept } in
    elim (first (is_token (mail.hash_token token)) kept) [
      | none ↦ pure expired db'
      | some f ↦ pure (prepared_for f.email (find_reset_target mail f.email db.logins)) db'
    ]

-- The row that `reset` deletes.
abbrev pub is_live : Str → ℕ → ForgotRow → Bool
is_live token_sha256 now f = same f.token_sha256 token_sha256 && leb now (f.created_at + one_hour)

-- The writes of `reset` once the user is known.
unfoldable pub set_password : Hashes → ℕ → Str → Str → ActionOn Accounts Unit
set_password mail userid password address db =
    (raise_if (not (count (λ h. h.userid == userid) db.hashes == 1)) unexpected
        >> modify (λ db. record db {
          hashes =
              update (λ h. h.userid == userid) (λ h. record h { hashsum = mail.passhash password })
                db.hashes;
          events = insert (record { userid = userid; address = address }) db.events;
        }))
      db

-- The rest of the transaction of `reset`, for the address of the deleted row.
unfoldable pub reset_target : Hashes → Str → Str → ℕ → Str → ActionOn Accounts Unit
unfolding find_reset_target set_password
reset_target mail email password expect_userid address db =
    elim (find_reset_target mail email db.logins) [
      | none ↦ raise forgotpassword_record_missing db
      | some match ↦
          if match.userid == expect_userid
          then set_password mail match.userid password address db
          else raise forgotpassword_record_missing db
    ]

unfoldable pub reset_transaction : Hashes → Str → Str → ℕ → Str → ActionOn Accounts Unit
unfolding reset_target
reset_transaction mail token password expect_userid address db =
    let live = is_live (mail.hash_token token) db.now in
    elim (first live db.forgotten) [
      | none ↦ raise forgotpassword_record_missing db
      | some f ↦
          reset_target mail f.email password expect_userid address
            (record db { forgotten = delete live db.forgotten })
    ]

-- `reset`
unfoldable pub reset : Hashes → Str → Str → ℕ → Str → ActionOn Accounts Unit
unfolding reset_transaction
reset mail token password expect_userid address db =
    if not (password_secure password)
    then raise password_insecure db
    else transaction (reset_transaction mail token password expect_userid address) db
