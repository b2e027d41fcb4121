-- ===== src/Accounts/SignIn.antt =====
-- `authenticate_bcrypt`, `signin`, `authenticate_account_change` and `verify_email_change` of weasyl/login.py.
-- The identifier, the address and the user agent of a session, the time of the last login, logs and caches are
-- left out.
use weasyl.Prelude.{
  ℕ, ◌+◌, Bool, true, false, not, ◌&&◌, ◌||◌, Option, none, some, ◌==◌, ltb, if◌then◌else◌,
}
use weasyl.Prelude.Strings.{same}
use weasyl.Forms.Text.{truthy}
use weasyl.Sql.{exists, first, delete, update, insert}
use weasyl.Database.{
  Str, ActionOn, ok, pure, raise, raise_if, modify, ◌>>◌, unexpected, type_error, attribute_error,
  password_incorrect, email_token_incorrect,
}
use weasyl.Users.{parse_sysname}
use weasyl.ResetPassword.{HashRow}
use weasyl.Accounts.{Services, AccountDb, LoginRow, EmailRow, two_days}

-- The results of `authenticate_bcrypt`. The flags of `InvalidCredentials` are `username_exists` and
-- `inactive_username_exists`.
pub data SignIn : Type 0 where
  success second_factor_required banned suspended : ℕ → SignIn
  invalid_credentials : Bool → Bool → SignIn

-- `former_username_exists`, for no user where `found_user` is 0.
unfoldable pub former_username_exists : Str → ℕ → AccountDb → Bool
former_username_exists sysname found_user db =
    exists (λ h. same h.login_name sysname && not (h.userid == found_user)) db.history

-- `signin`, for a request of the user `current`, who is 0 for a guest.
unfoldable pub signin : ℕ → ℕ → ActionOn AccountDb Unit
signin current userid db =
    (raise_if (not (current == 0)) unexpected
        >> modify (λ db. record db { sessions = insert userid db.sessions }))
      db

abbrev pub has_secret : Option Str → Bool
has_secret none = false
has_secret (some secret) = truthy secret

-- The end of `authenticate_bcrypt`.
unfoldable pub enter : Option ℕ → LoginRow → ActionOn AccountDb SignIn
unfolding signin
enter none l = pure (success l.userid)
enter (some current) l =
    if has_secret l.twofa_secret
    then pure (second_factor_required l.userid)
    else signin current l.userid >> pure (success l.userid)

-- The branch of a suspension.
unfoldable pub check_suspension : Option ℕ → LoginRow → ActionOn AccountDb SignIn
unfolding enter
check_suspension request l db = elim (first (λ x. x.userid == l.userid) db.suspensions) [
  | none ↦ enter request l db
  | some suspension ↦
      if ltb suspension.release db.now
      then enter request l
          (record db { suspensions = delete (λ x. x.userid == l.userid) db.suspensions })
      else pure (suspended l.userid) db
]

-- The checks once the login and its hash are known; the configuration of a user is joined with `profile`.
unfoldable pub check_password :
    Services → Option ℕ → Str → LoginRow → HashRow → ActionOn AccountDb SignIn
unfolding check_suspension
check_password s request password l h db =
    if not (exists (λ p. p.userid == l.userid) db.profiles)
    then raise type_error db
    else if not (s.checkpw password h.hashsum)
    then pure (invalid_credentials true (former_username_exists l.login_name l.userid db)) db
    else if exists (λ userid. userid == l.userid) db.bans
    then pure (banned l.userid) db
    else check_suspension request l db

unfoldable pub authenticate_sysname : Services → Option ℕ → Str → Str → ActionOn AccountDb SignIn
unfolding check_password
authenticate_sysname s request sysname password db =
    elim (first (λ l. same l.login_name sysname) db.logins) [
      | none ↦ pure (invalid_credentials false (former_username_exists sysname 0 db)) db
      | some l ↦ elim (first (λ h. h.userid == l.userid) db.hashes) [
        | none ↦ raise attribute_error db
        | some h ↦ check_password s request password l h db
      ]
    ]

-- `authenticate_bcrypt`
unfoldable pub authenticate_bcrypt : Services → Option ℕ → Str → Str → ActionOn AccountDb SignIn
unfolding authenticate_sysname
authenticate_bcrypt s request username password db = elim (parse_sysname s.unicode username) [
  | none ↦ pure (invalid_credentials false false) db
  | some sysname ↦
      if truthy password
      then authenticate_sysname s request sysname password db
      else pure (invalid_credentials false false) db
]

-- `authenticate_account_change`
unfoldable pub authenticate_account_change : Services → ℕ → Str → ActionOn AccountDb Str
authenticate_account_change s userid password db =
    elim (first (λ l. l.userid == userid) db.logins) [
      | none ↦ raise attribute_error db
      | some l ↦ elim (first (λ h. h.userid == userid) db.hashes) [
        | none ↦ raise attribute_error db
        | some h ↦
            if s.checkpw password h.hashsum then (ok l.email, db) else raise password_incorrect db
      ]
    ]

-- `verify_email_change`
abbrev pub is_change : ℕ → Str → EmailRow → Bool
is_change userid token e = e.userid == userid && same e.token token

unfoldable pub change_email : ℕ → Str → Option EmailRow → ActionOn AccountDb Str
change_email userid token none db = raise email_token_incorrect db
change_email userid token (some e) db =
    let db' : AccountDb = record db { emails = delete (is_change userid token) db.emails } in
    if not (truthy e.email) then raise email_token_incorrect db' else (
      ok e.email,
      record db' {
        logins = update (λ l. l.userid == userid) (λ l. record l { email = e.email }) db'.logins;
      },
    )

unfoldable pub verify_email_change : ℕ → Str → ActionOn AccountDb Str
unfolding change_email
verify_email_change userid token db =
    if userid == 0 || not (truthy token)
    then raise unexpected db
    else let kept = delete (λ e. ltb (e.createtimestamp + two_days) db.now) db.emails in
      change_email userid token (first (is_change userid token) kept) (record db { emails = kept })
