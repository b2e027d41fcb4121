-- ===== src/Tests/Accounts.antt =====
-- weasyl/login.py on small inputs. The hash of a password is the password with a letter.
use weasyl.Prelude.{
  Bool-cases, inl, inr, subst, ◌≡◌, ◌≤◌, refl, arith, true, false, none, some, List, [], ◌∷◌,
}
use weasyl.Prelude.Strings.{codes, same, same-eq}
use weasyl.Sql.{update}
use weasyl.Database.{Str, ok}
use weasyl.Forms.Text.{lower, strip}
use weasyl.Trie.{get, put, setdefault, add, add_all, trie, contains_prefix_of}
use weasyl.Users
use weasyl.Users.{
  Unicode, Username, get_sysname_unchecked, clean, check_name, parse_sysname, from_stored,
}
use weasyl.Users.Words.{IsAsciiFaithful}
use weasyl.ResetPassword.{HashRow}
use weasyl.ResetPassword.Addresses.{normalize_address}
use weasyl.Accounts.{
  LoginRow, Services, AccountDb, SignUpForm, create, verify, is_email_blacklisted, username_exists,
  email_exists, delete_expired,
}
use weasyl.Accounts.SignIn.{success, authenticate_bcrypt}
use weasyl.Accounts.Counts.{uses}
use weasyl.Accounts.Kept.{HasUniqueNames}
use weasyl.Accounts.Calls.{AccountCall, sign_up, confirm, change_name, sign_in, wait, run_accounts}
use weasyl.Accounts.Invariant.{run_accounts-HasUniqueNames}
use weasyl.Accounts.Deniable.{create-username_exists}
use weasyl.Accounts.SignUp.{authenticate_bcrypt-verify-create}
use weasyl.Accounts.Passwords.{IsTheirs, authenticate_bcrypt-success}

abbrev services : Services
services = record {
  unicode = record { nfkd = λ s. s; lower_all = lower };
  passhash = λ s. b'p' ∷ s;
  checkpw = λ password hashsum. same (b'p' ∷ password) hashsum;
  disposable = codes "mail.example" ∷ [];
}

services-IsAsciiFaithful : IsAsciiFaithful services.unicode
services-IsAsciiFaithful s h = (refl, refl)

is_email_blacklisted-below : is_email_blacklisted services (codes "ann@new.mail.example") ≡ true
unfolding is_email_blacklisted contains_prefix_of trie add_all add put get setdefault
is_email_blacklisted-below = refl

is_email_blacklisted-above : is_email_blacklisted services (codes "ann@my.example") ≡ false
unfolding is_email_blacklisted contains_prefix_of trie add_all add put get setdefault
is_email_blacklisted-above = refl

-- User 1 is Bob, who was suspended until 500.
abbrev accounts : AccountDb
accounts = record {
  pending = [];
  logins =
      record {
        userid = 1;
        login_name = codes "bob";
        email = codes "bob@web.example";
        twofa_secret = none;
      }
      ∷ [];
  hashes = record { userid = 1; hashsum = codes "pbobs password" } ∷ [];
  profiles = record { userid = 1; username = codes "Bob" } ∷ [];
  userinfos = 1 ∷ [];
  bans = [];
  sessions = [];
  suspensions = record { userid = 1; release = 500 } ∷ [];
  emails = [];
  aliases = codes "robert" ∷ [];
  history = [];
  next_userid = 2;
  now = 1000;
}

abbrev form : SignUpForm
form = record {
  username = codes "Ann-Lee";
  email = codes "ann@web.example";
  password = codes "correct horse";
  age = some (codes "13+");
}

abbrev ann : Username
ann = record { display = codes "Ann-Lee"; sysname = codes "annlee" }

create-ann : Users.create services.unicode form.username ≡ Users.created ann
unfolding Users.create clean check_name get_sysname_unchecked same
create-ann = refl

normalize_address-ann : normalize_address form.email ≡ some (codes "ann@web.example")
unfolding normalize_address strip
normalize_address-ann = refl

is_email_blacklisted-ann : is_email_blacklisted services (codes "ann@web.example") ≡ false
unfolding is_email_blacklisted contains_prefix_of trie add_all add put get setdefault
is_email_blacklisted-ann = refl

username_exists-ann : username_exists ann.sysname accounts ≡ false
unfolding username_exists same
username_exists-ann = refl

email_exists-ann : email_exists (codes "ann@web.example") accounts ≡ false
unfolding email_exists same
email_exists-ann = refl

authenticate_bcrypt-verify-create_example :
    let (created, asked) = create services form (codes "t1") accounts in
    let waited : AccountDb = record asked { now = 5000 } in
    let (verified, made) = verify services (codes "t1") waited in
    (created ≡ ok tt)
    × (verified ≡ ok tt)
    × ((authenticate_bcrypt services (some 0) form.username form.password made).0 ≡ ok (success 2))
unfolding same
authenticate_bcrypt-verify-create_example =
    authenticate_bcrypt-verify-create services services-IsAsciiFaithful form ann
      (codes "ann@web.example") (codes "t1") 5000 accounts refl create-ann refl refl
      normalize_address-ann is_email_blacklisted-ann username_exists-ann email_exists-ann refl refl
      refl refl (omega arith)

-- The calls: Ann signs up, has her account, Bob becomes Rob, and Ann takes the name "bobby".
abbrev calls : List AccountCall
calls =
    sign_up form (codes "t1")
    ∷ wait 3600
    ∷ confirm (codes "t1")
    ∷ change_name [] 1 1 false (codes "Rob")
    ∷ change_name [] 2 2 false (codes "Bobby")
    ∷ sign_in (some 0) (codes "bobby") (codes "correct horse")
    ∷ []

accounts-HasUniqueNames : HasUniqueNames services accounts
unfolding same
accounts-HasUniqueNames = (names, (λ u. ground arith, refl), refl)
  where
    names : (n : Str) → uses n accounts ≤ 1
    names n = elim (Bool-cases (same (codes "bob") n)) [
      | inl e ↦ subst (λ k. uses k accounts ≤ 1) (same-eq (codes "bob") n e) (omega arith)
      | inr e ↦ ground arith
    ]

run_accounts-HasUniqueNames_example : HasUniqueNames services (run_accounts services calls accounts)
run_accounts-HasUniqueNames_example =
    run_accounts-HasUniqueNames services services-IsAsciiFaithful calls accounts
      accounts-HasUniqueNames

authenticate_bcrypt-bob :
    (authenticate_bcrypt services (some 0) (codes "Bob") (codes "bobs password") accounts).0
    ≡ ok (success 1)
unfolding authenticate_bcrypt parse_sysname same
authenticate_bcrypt-bob = refl

authenticate_bcrypt-success_example :
    (sysname : Str) × (l : LoginRow) × (hash : HashRow) × (parse_sysname services.unicode
        (codes "Bob")
      ≡ some sysname)
    × IsTheirs services
        (some 0)
        sysname
        (codes "bobs password")
        1
        accounts
        (authenticate_bcrypt services (some 0) (codes "Bob") (codes "bobs password") accounts).1
        l
        hash
authenticate_bcrypt-success_example =
    authenticate_bcrypt-success services (some 0) (codes "Bob") (codes "bobs password") 1 accounts
      authenticate_bcrypt-bob

-- Ann signs up with a new address, and with Bob's.
abbrev bobs_form : SignUpForm
bobs_form = record form { email = codes "bob@web.example" }

-- The same names without the addresses.
abbrev silent : AccountDb
silent = record accounts {
  logins = update (λ l. true) (λ l. record l { email = [] }) accounts.logins;
}

create-username_exists_example :
    (create services bobs_form (codes "t2") accounts).0
    ≡ (create services bobs_form (codes "t2") silent).0
unfolding username_exists delete_expired
create-username_exists_example =
    create-username_exists services bobs_form (codes "t2") accounts silent (λ n. refl) refl refl
