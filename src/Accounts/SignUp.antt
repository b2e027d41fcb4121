-- ===== src/Accounts/SignUp.antt =====
-- Who signs up can sign in.
use weasyl.Prelude.{
  ℕ, ◌+◌, ◌≤◌, ◌≡◌, ◌∙◌, refl, sym, ap, subst, Bool, true, false, not, ◌&&◌, none, some, List, [],
  ◌∷◌, ◌==◌, ltb, arith, ==_refl,
}
use weasyl.Prelude.Strings.{same, same_refl}
use weasyl.Forms.Text.{truthy}
use weasyl.Sql.{exists, first, delete, insert}
use weasyl.Sql.Laws.{first-insert, first-exists_no, exists-delete-false, exists-insert}
use weasyl.Database.{Str, ok}
use weasyl.Users
use weasyl.Users.{Username, from_stored, parse_sysname}
use weasyl.Users.Words.{IsAsciiFaithful, is_ascii}
use weasyl.Users.Names.{from_stored-create, parse_sysname-create}
use weasyl.ResetPassword.{HashRow, password_secure}
use weasyl.Database.Keeps.{transaction-ok}
use weasyl.ResetPassword.Addresses.{normalize_address}
use weasyl.Accounts.{
  Services, AccountDb, PendingRow, LoginRow, SignUpForm, is_13, is_email_blacklisted, two_days,
  delete_expired, email_exists, username_exists, insert_pending, create_pending, create,
  create_account, verify_found, verify,
}
use weasyl.Accounts.Deniable.{exists-clashes}
use weasyl.Accounts.SignIn.{
  success, enter, signin, check_suspension, check_password, authenticate_sysname,
  authenticate_bcrypt,
}

-- No row is about the user.
abbrev pub is_unknown : ℕ → AccountDb → Bool
is_unknown userid db =
    not (exists (λ h. h.userid == userid) db.hashes)
    && (not (exists (λ p. p.userid == userid) db.profiles)
        && (not (exists (λ u. u == userid) db.bans)
            && not (exists (λ x. x.userid == userid) db.suspensions)))

abbrev new_row : Services → Username → Str → Str → Str → AccountDb → PendingRow
new_row s name email password token db = record {
  token = token;
  username = name.display;
  login_name = name.sysname;
  hashpass = s.passhash password;
  email = email;
  created_at = db.now;
  invalid = false;
  invalid_email_addr = none;
}

create_pending-ok :
    (s : Services) (name : Username) (email password token : Str) (db : AccountDb)
    → username_exists name.sysname db ≡ false
    → email_exists email db ≡ false
    → exists (λ r. same r.token token) db.pending ≡ false
    → create_pending s name email password token db
      ≡ (ok tt, record db { pending = insert (new_row s name email password token db) db.pending })
unfolding create_pending insert_pending username_exists email_exists
create_pending-ok s name email password token db n e t =
    let row = new_row s name email password token db in
    let free =
      exists-clashes row token name.sysname email db.pending refl refl refl t (reserved n)
        (used e) in
    rw (create_pending, n, e) (rw (insert_pending, free) refl)
  where
    reserved :
        username_exists name.sysname db ≡ false
        → exists (λ r. same r.login_name name.sysname) db.pending ≡ false
    reserved n = ground arith

    used : email_exists email db ≡ false → exists (λ r. same r.email email) db.pending ≡ false
    used e = ground arith

create-ok :
    (s : Services) (form : SignUpForm) (name : Username) (email token : Str) (db : AccountDb)
    → Users.create s.unicode form.username ≡ Users.created name
    → is_13 form.age ≡ true
    → password_secure form.password ≡ true
    → normalize_address form.email ≡ some email
    → is_email_blacklisted s email ≡ false
    → create s form token db ≡ create_pending s name email form.password token (delete_expired db)
unfolding create
create-ok s form name email token db made a p m b = rw (create, made, a, p, m, b) refl

-- The only row that is about something is found, also where another condition deletes rows first.
first-insert_only :
    {R : Type 0} (p gone : R → Bool) (r : R) (rows : List R)
    → p r ≡ true
    → gone r ≡ false
    → exists p rows ≡ false
    → first p (delete gone (insert r rows)) ≡ some r
first-insert_only p gone r [] h k e = rw (k, h) refl
first-insert_only p gone r (x ∷ rows) h k e = ground (arith, first-insert_only p gone r rows h k)

first-insert_last :
    {R : Type 0} (p : R → Bool) (r : R) (rows : List R)
    → p r ≡ true
    → exists p rows ≡ false
    → first p (insert r rows) ≡ some r
first-insert_last p r rows h e = rw (first-insert p r rows, first-exists_no p rows e, h) refl

abbrev new_login : Username → Str → AccountDb → LoginRow
new_login name email db = record {
  userid = db.next_userid;
  login_name = name.sysname;
  email = email;
  twofa_secret = none;
}

-- The account that `verify` makes of a row.
abbrev with_account : PendingRow → Username → AccountDb → AccountDb
with_account row name db = record db {
  logins = insert (new_login name row.email db) db.logins;
  hashes = insert (record { userid = db.next_userid; hashsum = row.hashpass }) db.hashes;
  profiles = insert (record { userid = db.next_userid; username = name.display }) db.profiles;
  userinfos = insert db.next_userid db.userinfos;
  pending = delete (λ r. same r.token row.token) db.pending;
  next_userid = db.next_userid + 1;
}

create_account-ok :
    (row : PendingRow) (name : Username) (db : AccountDb)
    → exists (λ l. same l.login_name name.sysname) db.logins ≡ false
    → exists (λ p. same p.username name.display) db.profiles ≡ false
    → create_account row name db ≡ (ok tt, with_account row name db)
unfolding create_account
create_account-ok row name db free unused = rw (create_account, free, unused) refl

verify-ok :
    (s : Services) (row : PendingRow) (name : Username) (rows : List PendingRow) (db : AccountDb)
    → db.pending ≡ insert row rows
    → exists (λ r. same r.token row.token) rows ≡ false
    → ltb (row.created_at + two_days) db.now ≡ false
    → row.invalid ≡ false
    → from_stored s.unicode row.username ≡ some name
    → exists (λ l. same l.login_name name.sysname) db.logins ≡ false
    → exists (λ p. same p.username name.display) db.profiles ≡ false
    → verify s row.token db ≡ (ok tt, with_account row name (delete_expired db))
unfolding verify verify_found delete_expired
verify-ok s row name rows db kept new live valid stored free unused =
    let gone : PendingRow → Bool = λ r. ltb (r.created_at + two_days) db.now in
    let made = create_account-ok row name (delete_expired db) free unused in
    let found : first (λ r. same r.token row.token) (delete gone db.pending) ≡ some row =
      subst (λ rs. first (λ r. same r.token row.token) (delete gone rs) ≡ some row) (sym kept)
        (first-insert_only (λ r. same r.token row.token) gone row rows (same_refl row.token) live
          new) in
    rw (verify, found)
      (rw (verify_found, valid, stored)
        (transaction-ok (create_account row name) (delete_expired db) (ap (λ x. x.0) made)
          ∙ ap (λ x. (ok tt, x.1)) made))

password_secure-truthy : (password : Str) → password_secure password ≡ true → truthy password ≡ true
password_secure-truthy [] h = absurd (ground arith)
password_secure-truthy (c ∷ password) h = refl

-- The user of a new account is let in.
authenticate_sysname-new :
    (s : Services) (row : PendingRow) (name : Username) (password : Str) (db : AccountDb)
    → exists (λ l. same l.login_name name.sysname) db.logins ≡ false
    → is_unknown db.next_userid db ≡ true
    → s.checkpw password row.hashpass ≡ true
    → (authenticate_sysname s (some 0) name.sysname password (with_account row name db)).0
      ≡ ok (success db.next_userid)
unfolding authenticate_sysname check_password check_suspension enter signin
authenticate_sysname-new s row name password db free unknown right =
    let id = db.next_userid in
    let hash : HashRow = record { userid = id; hashsum = row.hashpass } in
    let login =
      first-insert_last (λ l. same l.login_name name.sysname) (new_login name row.email db)
        db.logins (same_refl name.sysname) free in
    let its_hash =
      first-insert_last (λ h. h.userid == id) hash db.hashes (==_refl id) (ground arith) in
    let profile : exists (λ p. p.userid == id) (with_account row name db).profiles ≡ true = ground (
      arith,
      exists-insert (λ p. p.userid == id) (record { userid = id; username = name.display })
          db.profiles,
    ) in
    let free_man : first (λ x. x.userid == id) db.suspensions ≡ none =
      first-exists_no (λ x. x.userid == id) db.suspensions (ground arith) in
    let not_banned : exists (λ u. u == id) db.bans ≡ false = ground arith in
    rw (authenticate_sysname, login, its_hash)
      (rw (check_password, profile, right, not_banned) (rw (check_suspension, free_man) refl))

-- Who signs up with a free name and address, of at least 13 years and with a long password, and opens the
-- link in the e-mail within two days, has an account, and as a guest then signs in with the name as it was
-- typed and the password. The name is of ASCII characters, the token is not in use, no row is about the user
-- id that is next, and no profile has the name. bcrypt accepts what it has hashed.
pub authenticate_bcrypt-verify-create :
    (s : Services) (faithful : IsAsciiFaithful s.unicode) (form : SignUpForm) (name : Username)
    (email token : Str) (later : ℕ) (db : AccountDb)
    → is_ascii form.username ≡ true
    → Users.create s.unicode form.username ≡ Users.created name
    → is_13 form.age ≡ true
    → password_secure form.password ≡ true
    → normalize_address form.email ≡ some email
    → is_email_blacklisted s email ≡ false
    → username_exists name.sysname db ≡ false
    → email_exists email db ≡ false
    → exists (λ r. same r.token token) db.pending ≡ false
    → exists (λ p. same p.username name.display) db.profiles ≡ false
    → is_unknown db.next_userid db ≡ true
    → s.checkpw form.password (s.passhash form.password) ≡ true
    → later ≤ db.now + two_days
    → let (created, asked) = create s form token db in
      let waited : AccountDb = record asked { now = later } in
      let (verified, made) = verify s token waited in
      (created ≡ ok tt)
      × (verified ≡ ok tt)
      × ((authenticate_bcrypt s (some 0) form.username form.password made).0
          ≡ ok (success db.next_userid))
unfolding delete_expired username_exists email_exists authenticate_bcrypt
authenticate_bcrypt-verify-create s faithful form name email token later db ascii made a p m b n e t
      d u k i =
    let kept = delete (λ r. ltb (r.created_at + two_days) db.now) db.pending in
    let row = new_row s name email form.password token db in
    let fresh =
      exists-delete-false (λ r. ltb (r.created_at + two_days) db.now) (λ r. same r.token token)
        db.pending t in
    let reserved =
      exists-delete-false (λ r. ltb (r.created_at + two_days) db.now)
        (λ r. same r.login_name name.sysname) db.pending (ground arith) in
    let used =
      exists-delete-false (λ r. ltb (r.created_at + two_days) db.now) (λ r. same r.email email)
        db.pending (ground arith) in
    let asked =
      create-ok s form name email token db made a p m b
      ∙ create_pending-ok s name email form.password token (delete_expired db) (ground arith)
          (ground arith) fresh in
    let state : AccountDb = record db { pending = insert row kept; now = later } in
    let free : exists (λ l. same l.login_name name.sysname) db.logins ≡ false = ground arith in
    let stored = (from_stored-create s.unicode faithful form.username name made).0 in
    let verified = verify-ok s row name kept state refl fresh (ground arith) refl stored free d in
    let sysname = parse_sysname-create s.unicode faithful form.username name ascii made in
    let typed = password_secure-truthy form.password p in
    rw (asked, verified)
      (
        refl,
        refl,
        rw (authenticate_bcrypt, sysname, typed)
            (authenticate_sysname-new s row name form.password (delete_expired state) free u k),
      )
