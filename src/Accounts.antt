-- ===== src/Accounts.antt =====
-- weasyl/login.py: how an account is asked for and verified. Times are in seconds. Columns that no modelled
-- operation reads and the limits of their lengths, e-mails, logs and caches are left out.
mod Tables
pub use Tables.*
pub mod Renaming
pub mod SignIn
pub mod Counts
pub mod Renamed
pub mod Names
pub mod Calls
pub mod Checked
pub mod Kept
pub mod SameNames
pub mod Invariant
pub mod SignUp
pub mod Deniable
pub mod Passwords
use weasyl.Prelude.{
  ℕ, ◌+◌, ◌*◌, Bool, true, false, not, ◌&&◌, ◌||◌, Option, none, some, List, [], ◌∷◌, map, reverse,
  ltb, if◌then◌else◌,
}
use weasyl.Prelude.Strings.{same, codes}
use weasyl.Forms.Text.{split}
use weasyl.Sql.{exists, first, delete, insert}
use weasyl.Database.{
  Str, ActionOn, Error, ok, err, raise, transaction, username_invalid, username_too_long,
  username_banned, username_exists_error, birthday_invalid, password_insecure, email_invalid,
  email_blacklisted, logincreate_record_missing, integrity_error, value_error,
}
use weasyl.Trie.{trie, contains_prefix_of}
use weasyl.Users
use weasyl.Users.{Unicode, Username, from_stored}
use weasyl.ResetPassword.{HashRow, password_secure}
use weasyl.ResetPassword.Addresses.{normalize_address}

-- The tables of Unicode, bcrypt, and the lines of "disposable-domains.txt". Nothing is assumed of them.
pub record Services : Type 0 where
  pub unicode : Unicode
  pub passhash : Str → Str
  -- Of the password and the hash.
  pub checkpw : Str → Str → Bool
  pub disposable : List Str

-- The number of a label of a domain, for the trie.
abbrev pub label : Str → ℕ
label [] = 0
label (c ∷ s) = 1114113 * label s + (c + 1)

-- The labels of a domain from the last one on.
abbrev pub labels : Str → List ℕ
labels domain = map label (reverse (split b'.' domain))

-- `address.rsplit("@", 1)`, the second part.
abbrev pub last_of : List Str → Str
last_of [] = []
last_of (w ∷ []) = w
last_of (w ∷ v ∷ ws) = last_of (v ∷ ws)

-- `_is_email_blacklisted`
unfoldable pub is_email_blacklisted : Services → Str → Bool
is_email_blacklisted s address =
    contains_prefix_of (labels (last_of (split b'@' address))) (trie (map labels s.disposable))

-- `INTERVAL '2 days'`
abbrev pub two_days : ℕ
two_days = 172800

-- `_delete_expired`
unfoldable pub delete_expired : AccountDb → AccountDb
delete_expired db = record db {
  pending = delete (λ r. ltb (r.created_at + two_days) db.now) db.pending;
}

-- `email_exists` and `username_exists`
unfoldable pub email_exists : Str → AccountDb → Bool
email_exists email db =
    exists (λ l. same l.email email) db.logins || exists (λ r. same r.email email) db.pending

unfoldable pub username_exists : Str → AccountDb → Bool
username_exists login_name db =
    exists (λ l. same l.login_name login_name) db.logins
    || (exists (λ alias. same alias login_name) db.aliases
        || (exists (λ r. same r.login_name login_name) db.pending
            || exists (λ h. h.active && same h.login_name login_name) db.history))

-- The form of `create`.
pub record SignUpForm : Type 0 where
  pub username : Str
  pub email : Str
  pub password : Str
  pub age : Option Str

abbrev pub is_13 : Option Str → Bool
is_13 none = false
is_13 (some age) = same age (codes "13+")

-- The codes of the errors of `Username.create`.
abbrev pub name_error : Users.UsernameError → Error
name_error Users.username_invalid = username_invalid
name_error Users.username_too_long = username_too_long
name_error Users.username_banned = username_banned

-- The row of `create`: the account, or the dummy for an e-mail that is in use.
abbrev pub pending_row : Services → Username → Str → Str → Str → AccountDb → PendingRow
pending_row s name email password token db = record {
  token = token;
  username = name.display;
  login_name = name.sysname;
  hashpass = s.passhash password;
  email = if email_exists email db then token else email;
  created_at = db.now;
  invalid = email_exists email db;
  invalid_email_addr = if email_exists email db then some email else none;
}

-- The columns of `logincreate` with a unique index.
abbrev pub clashes : PendingRow → PendingRow → Bool
clashes row r =
    same r.token row.token || (same r.login_name row.login_name || same r.email row.email)

unfoldable pub insert_pending : PendingRow → ActionOn AccountDb Unit
insert_pending row db =
    if exists (clashes row) db.pending
    then raise integrity_error db
    else (ok tt, record db { pending = insert row db.pending })

-- The rest of `create` after `_delete_expired`.
unfoldable pub create_pending : Services → Username → Str → Str → Str → ActionOn AccountDb Unit
unfolding insert_pending
create_pending s name email password token db =
    if username_exists name.sysname db
    then raise username_exists_error db
    else insert_pending (pending_row s name email password token db) db

-- `create`, with the token that `security.generate_key` made.
unfoldable pub create : Services → SignUpForm → Str → ActionOn AccountDb Unit
unfolding create_pending
create s form token db = elim (Users.create s.unicode form.username) [
  | Users.refused e ↦ raise (name_error e) db
  | Users.created name ↦
      if not (is_13 form.age)
      then raise birthday_invalid db
      else if not (password_secure form.password)
      then raise password_insecure db
      else elim (normalize_address form.email) [
        | none ↦ raise email_invalid db
        | some email ↦
            if is_email_blacklisted s email
            then raise email_blacklisted db
            else create_pending s name email form.password token (delete_expired db)
      ]
]

-- The transaction of `verify`. The names of logins and of profiles are unique.
unfoldable pub create_account : PendingRow → Username → ActionOn AccountDb Unit
create_account row username db =
    let userid = db.next_userid in
    if exists (λ l. same l.login_name username.sysname) db.logins
      || exists (λ p. same p.username username.display) db.profiles
    then raise integrity_error db
    else (
      ok tt,
      record db {
        logins =
            insert
              (record {
                userid = userid;
                login_name = username.sysname;
                email = row.email;
                twofa_secret = none;
              })
              db.logins;
        hashes = insert (record { userid = userid; hashsum = row.hashpass }) db.hashes;
        profiles = insert (record { userid = userid; username = username.display }) db.profiles;
        userinfos = insert userid db.userinfos;
        pending = delete (λ r. same r.token row.token) db.pending;
        next_userid = userid + 1;
      },
    )

unfoldable pub verify_found : Services → PendingRow → ActionOn AccountDb Unit
unfolding create_account
verify_found s row db =
    if row.invalid
    then raise logincreate_record_missing db
    else elim (from_stored s.unicode row.username) [
      | none ↦ raise value_error db
      | some username ↦ transaction (create_account row username) db
    ]

-- `verify`
unfoldable pub verify : Services → Str → ActionOn AccountDb Unit
unfolding verify_found
verify s token db =
    let db' = delete_expired db in
    elim (first (λ r. same r.token token) db'.pending) [
      | none ↦ raise logincreate_record_missing db'
      | some row ↦ verify_found s row db'
    ]
