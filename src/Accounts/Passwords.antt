-- ===== src/Accounts/Passwords.antt =====
-- Who is let in by a password.
use weasyl.Prelude.{
  ℕ, ◌≡◌, ◌∙◌, refl, sym, ap, inl, inr, Bool-cases, Option-cases, Bool, true, false, not, Option,
  none, some, List, ◌==◌, ltb, arith,
}
use weasyl.Prelude.Strings.{same}
use weasyl.Forms.Text.{truthy}
use weasyl.Sql.{exists, first, delete, insert}
use weasyl.Sql.Laws.{first-none, exists-delete_implied}
use weasyl.Database.{Str, ok, Result}
use weasyl.Users.{parse_sysname}
use weasyl.ResetPassword.{HashRow}
use weasyl.Accounts.{Services, AccountDb, LoginRow}
use weasyl.Accounts.SignIn.{
  success, suspended, SignIn, signin, enter, check_suspension, check_password, authenticate_sysname,
  authenticate_bcrypt, has_secret,
}

-- The session of a request, and no second factor for it.
abbrev pub HasEntered : Option ℕ → LoginRow → List ℕ → List ℕ → Type 0
HasEntered none l before after = after ≡ before
HasEntered (some current) l before after =
    (has_secret l.twofa_secret ≡ false) × (after ≡ insert l.userid before)

-- A suspension of the user has ended.
abbrev pub is_over : ℕ → AccountDb → Bool
is_over userid db = elim (first (λ x. x.userid == userid) db.suspensions) [
  | none ↦ true
  | some x ↦ ltb x.release db.now
]

-- The user of the login is let in, and is neither banned nor suspended.
abbrev pub IsLetIn : Option ℕ → LoginRow → ℕ → AccountDb → AccountDb → Type 0
IsLetIn request l userid db after =
    (l.userid ≡ userid)
    × (is_over l.userid db ≡ true)
    × (exists (λ x. x.userid == l.userid) after.suspensions ≡ false)
    × HasEntered request l db.sessions after.sessions

success-userid : (u v : ℕ) → ◌≡◌ {A = Result SignIn} (ok (success u)) (ok (success v)) → u ≡ v
success-userid u v h = cc

enter-success :
    (request : Option ℕ) (l : LoginRow) (userid : ℕ) (db : AccountDb)
    → (enter request l db).0 ≡ ok (success userid)
    → (l.userid ≡ userid)
      × ((enter request l db).1.suspensions ≡ db.suspensions)
      × HasEntered request l db.sessions (enter request l db).1.sessions
unfolding enter signin
enter-success none l userid db h = (success-userid l.userid userid h, refl, refl)
enter-success (some current) l userid db h = elim (Bool-cases (has_secret l.twofa_secret)) [
  | inl e ↦ absurd (ground arith)
  | inr e ↦ elim (Bool-cases (not (current == 0))) [
    | inl k ↦ absurd (ground arith)
    | inr k ↦ ground arith
  ]
]

check_suspension-success :
    (request : Option ℕ) (l : LoginRow) (userid : ℕ) (db : AccountDb)
    → (check_suspension request l db).0 ≡ ok (success userid)
    → IsLetIn request l userid db (check_suspension request l db).1
unfolding check_suspension
check_suspension-success request l userid db h =
    elim (Option-cases (first (λ x. x.userid == l.userid) db.suspensions)) [
      | inl e ↦
          let step : check_suspension request l db ≡ enter request l db =
            rw (check_suspension, e) refl in
          let (id, kept, entered) =
            enter-success request l userid db (ap (λ x. x.0) (sym step) ∙ h) in
          rw step (
            id,
            rw (is_over, e) refl,
            rw kept (first-none (λ x. x.userid == l.userid) db.suspensions e),
            entered,
          )
      | inr (x, e) ↦ elim (Bool-cases (ltb x.release db.now)) [
        | inl k ↦
            let lifted : AccountDb = record db {
              suspensions = delete (λ x. x.userid == l.userid) db.suspensions;
            } in
            let step : check_suspension request l db ≡ enter request l lifted =
              rw (check_suspension, e, k) refl in
            let (id, kept, entered) =
              enter-success request l userid lifted (ap (λ x. x.0) (sym step) ∙ h) in
            rw step (
              id,
              rw (is_over, e) k,
              rw kept (
                  exists-delete_implied (λ x. x.userid == l.userid) (λ x. x.userid == l.userid)
                    db.suspensions (λ x h. h)),
              entered,
            )
        | inr k ↦
            let step : check_suspension request l db ≡ (ok (suspended l.userid), db) =
              rw (check_suspension, e, k) refl in
            absurd (let z = ap (λ x. x.0) (sym step) ∙ h in cc)
      ]
    ]

check_password-success :
    (s : Services) (request : Option ℕ) (password : Str) (l : LoginRow) (hash : HashRow)
    (userid : ℕ) (db : AccountDb)
    → (check_password s request password l hash db).0 ≡ ok (success userid)
    → (s.checkpw password hash.hashsum ≡ true)
      × (exists (λ u. u == l.userid) db.bans ≡ false)
      × IsLetIn request l userid db (check_password s request password l hash db).1
unfolding check_password
check_password-success s request password l hash userid db h =
    elim (Bool-cases (not (exists (λ p. p.userid == l.userid) db.profiles))) [
      | inl e ↦ absurd (ground arith)
      | inr p ↦ elim (Bool-cases (s.checkpw password hash.hashsum)) [
        | inr e ↦ absurd (ground arith)
        | inl k ↦ elim (Bool-cases (exists (λ u. u == l.userid) db.bans)) [
          | inl e ↦ absurd (ground arith)
          | inr e ↦
              let step : check_password s request password l hash db
                  ≡ check_suspension request l db =
                rw (check_password, p, k, e) refl in
              rw step
                (k, e, check_suspension-success request l userid db (ap (λ x. x.0) (sym step) ∙ h))
        ]
      ]
    ]

-- The login of a name, with the hash of its password, lets the user in.
abbrev pub IsTheirs :
    Services → Option ℕ → Str → Str → ℕ → AccountDb → AccountDb → LoginRow → HashRow → Type 0
IsTheirs s request sysname password userid db after l hash =
    (first (λ l. same l.login_name sysname) db.logins ≡ some l)
    × (first (λ h. h.userid == l.userid) db.hashes ≡ some hash)
    × (s.checkpw password hash.hashsum ≡ true)
    × (exists (λ u. u == l.userid) db.bans ≡ false)
    × IsLetIn request l userid db after

authenticate_sysname-success :
    (s : Services) (request : Option ℕ) (sysname password : Str) (userid : ℕ) (db : AccountDb)
    → (authenticate_sysname s request sysname password db).0 ≡ ok (success userid)
    → (l : LoginRow) × (hash : HashRow) × IsTheirs s request sysname password userid db
        (authenticate_sysname s request sysname password db).1
        l
        hash
unfolding authenticate_sysname
authenticate_sysname-success s request sysname password userid db h =
    elim (Option-cases (first (λ l. same l.login_name sysname) db.logins)) [
      | inl e ↦ absurd (ground arith)
      | inr (l, e) ↦ elim (Option-cases (first (λ h. h.userid == l.userid) db.hashes)) [
        | inl k ↦ absurd (ground arith)
        | inr (hash, k) ↦
            let step : authenticate_sysname s request sysname password db
                ≡ check_password s request password l hash db =
              rw (authenticate_sysname, e, k) refl in
            let (right, free, in_) =
              check_password-success s request password l hash userid db
                (ap (λ x. x.0) (sym step) ∙ h) in
            rw step (l, hash, (e, k, right, free, in_))
      ]
    ]

-- Whoever is let in by a name and a password has given the name of a login and the password of its hash, and
-- is neither banned nor suspended: a suspension has ended, and is deleted. A request gets one session of that
-- user, and only where the login asks for no second factor; without a request no session is made.
pub authenticate_bcrypt-success :
    (s : Services) (request : Option ℕ) (username password : Str) (userid : ℕ) (db : AccountDb)
    → (authenticate_bcrypt s request username password db).0 ≡ ok (success userid)
    → (sysname : Str) × (l : LoginRow) × (hash : HashRow) × (parse_sysname s.unicode username
        ≡ some sysname)
      × IsTheirs s request sysname password userid db
          (authenticate_bcrypt s request username password db).1
          l
          hash
unfolding authenticate_bcrypt
authenticate_bcrypt-success s request username password userid db h =
    elim (Option-cases (parse_sysname s.unicode username)) [
      | inl e ↦ absurd (ground arith)
      | inr (sysname, e) ↦ elim (Bool-cases (truthy password)) [
        | inr k ↦ absurd (ground arith)
        | inl k ↦
            let step : authenticate_bcrypt s request username password db
                ≡ authenticate_sysname s request sysname password db =
              rw (authenticate_bcrypt, e, k) refl in
            let (l, hash, theirs) =
              authenticate_sysname-success s request sysname password userid db
                (ap (λ x. x.0) (sym step) ∙ h) in
            rw step (sysname, l, hash, e, theirs)
      ]
    ]
