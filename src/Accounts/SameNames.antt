-- ===== src/Accounts/SameNames.antt =====
-- Signing in and changing an address leave the names of accounts as they are.
use weasyl.Prelude.{
  ℕ, ◌+◌, refl, inl, inr, Bool-cases, Option-cases, not, ◌||◌, Option, none, some, ◌==◌, ltb, arith,
}
use weasyl.Prelude.Strings.{same}
use weasyl.Forms.Text.{truthy}
use weasyl.Sql.{exists, first, delete, update}
use weasyl.Sql.Laws.{count-update}
use weasyl.Sql.All.{all-update}
use weasyl.Database.{Str}
use weasyl.Users.{parse_sysname}
use weasyl.ResetPassword.{HashRow}
use weasyl.Accounts.{Services, AccountDb, LoginRow, EmailRow}
use weasyl.Accounts.SignIn.{
  signin, enter, check_suspension, check_password, authenticate_sysname, authenticate_bcrypt,
  is_change, change_email, verify_email_change,
}
use weasyl.Accounts.Renamed.{SameNames}
use weasyl.Accounts.Counts.{logs_in}
use weasyl.Accounts.Kept.{HasUniqueNames}

enter-same :
    (request : Option ℕ) (l : LoginRow) (db : AccountDb) → SameNames db (enter request l db).1
unfolding enter signin
enter-same none l db = (refl, refl, refl, refl, refl)
enter-same (some current) l db = ground arith

check_suspension-same :
    (request : Option ℕ) (l : LoginRow) (db : AccountDb)
    → SameNames db (check_suspension request l db).1
unfolding check_suspension
check_suspension-same request l db =
    elim (Option-cases (first (λ x. x.userid == l.userid) db.suspensions)) [
      | inl e ↦ rw (check_suspension, e) (enter-same request l db)
      | inr (x, e) ↦ elim (Bool-cases (ltb x.release db.now)) [
        | inl k ↦
            rw (check_suspension, e, k)
              (enter-same request l
                (record db { suspensions = delete (λ x. x.userid == l.userid) db.suspensions }))
        | inr k ↦ rw (check_suspension, e, k) (refl, refl, refl, refl, refl)
      ]
    ]

check_password-same :
    (s : Services) (request : Option ℕ) (password : Str) (l : LoginRow) (h : HashRow)
    (db : AccountDb)
    → SameNames db (check_password s request password l h db).1
unfolding check_password
check_password-same s request password l h db =
    let here : SameNames db db = (refl, refl, refl, refl, refl) in
    elim (Bool-cases (not (exists (λ p. p.userid == l.userid) db.profiles))) [
      | inl e ↦ rw (check_password, e) here
      | inr p ↦ elim (Bool-cases (not (s.checkpw password h.hashsum))) [
        | inl e ↦ rw (check_password, p, e) here
        | inr k ↦ elim (Bool-cases (exists (λ userid. userid == l.userid) db.bans)) [
          | inl e ↦ rw (check_password, p, k, e) here
          | inr e ↦ rw (check_password, p, k, e) (check_suspension-same request l db)
        ]
      ]
    ]

authenticate_sysname-same :
    (s : Services) (request : Option ℕ) (sysname password : Str) (db : AccountDb)
    → SameNames db (authenticate_sysname s request sysname password db).1
unfolding authenticate_sysname
authenticate_sysname-same s request sysname password db =
    let here : SameNames db db = (refl, refl, refl, refl, refl) in
    elim (Option-cases (first (λ l. same l.login_name sysname) db.logins)) [
      | inl e ↦ rw (authenticate_sysname, e) here
      | inr (l, e) ↦ elim (Option-cases (first (λ h. h.userid == l.userid) db.hashes)) [
        | inl k ↦ rw (authenticate_sysname, e, k) here
        | inr (h, k) ↦
            rw (authenticate_sysname, e, k) (check_password-same s request password l h db)
      ]
    ]

pub authenticate_bcrypt-same :
    (s : Services) (request : Option ℕ) (username password : Str) (db : AccountDb)
    → SameNames db (authenticate_bcrypt s request username password db).1
unfolding authenticate_bcrypt
authenticate_bcrypt-same s request username password db =
    let here : SameNames db db = (refl, refl, refl, refl, refl) in
    elim (Option-cases (parse_sysname s.unicode username)) [
      | inl e ↦ rw (authenticate_bcrypt, e) here
      | inr (sysname, e) ↦ elim (Bool-cases (truthy password)) [
        | inl k ↦
            rw (authenticate_bcrypt, e, k) (authenticate_sysname-same s request sysname password db)
        | inr k ↦ rw (authenticate_bcrypt, e, k) here
      ]
    ]

-- The address of a login says nothing of its name or its id.
set_email-HasUniqueNames :
    (s : Services) (userid : ℕ) (email : Str) (db : AccountDb)
    → HasUniqueNames s db
    → HasUniqueNames s (record db {
      logins = update (λ l. l.userid == userid) (λ l. record l { email = email }) db.logins;
    })
set_email-HasUniqueNames s userid email db (unique, (users, drawn), canonical) = (
  λ n. ground (
    arith,
    unique n,
    count-update (λ l. l.userid == userid) (logs_in n) (λ l. record l { email = email }) db.logins
        (λ l h. refl),
  ),
  (
    λ u. ground (
      arith,
      users u,
      count-update (λ l. l.userid == userid) (λ l. l.userid == u) (λ l. record l { email = email })
          db.logins (λ l h. refl),
    ),
    all-update (λ l. ltb l.userid db.next_userid) (λ l. ltb l.userid db.next_userid)
        (λ l. l.userid == userid) (λ l. record l { email = email }) db.logins (λ l h. ground arith)
        drawn,
  ),
  canonical,
)

change_email-HasUniqueNames :
    (s : Services) (userid : ℕ) (token : Str) (found : Option EmailRow) (db : AccountDb)
    → HasUniqueNames s db
    → HasUniqueNames s (change_email userid token found db).1
unfolding change_email
change_email-HasUniqueNames s userid token none db h = h
change_email-HasUniqueNames s userid token (some e) db h =
    elim (Bool-cases (not (truthy e.email))) [
      | inl k ↦ rw (change_email, k) h
      | inr k ↦ rw (change_email, k) (set_email-HasUniqueNames s userid e.email db h)
    ]

pub verify_email_change-HasUniqueNames :
    (s : Services) (userid : ℕ) (token : Str) (db : AccountDb)
    → HasUniqueNames s db
    → HasUniqueNames s (verify_email_change userid token db).1
unfolding verify_email_change
verify_email_change-HasUniqueNames s userid token db h =
    elim (Bool-cases (userid == 0 || not (truthy token))) [
      | inl k ↦ rw (verify_email_change, k) h
      | inr k ↦
          let kept = delete (λ e. ltb (e.createtimestamp + 172800) db.now) db.emails in
          rw (verify_email_change, k)
            (change_email-HasUniqueNames s userid token (first (is_change userid token) kept)
              (record db { emails = kept }) h)
    ]
