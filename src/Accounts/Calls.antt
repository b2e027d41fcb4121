-- ===== src/Accounts/Calls.antt =====
-- The calls that read or write names of accounts, one after another.
use weasyl.Prelude.{ℕ, ◌+◌, Bool, Option, List, [], ◌∷◌}
use weasyl.Database.{Str, Fault}
use weasyl.Accounts.{Services, AccountDb, SignUpForm, create, verify}
use weasyl.Accounts.Renaming.{change_username}
use weasyl.Accounts.SignIn.{authenticate_bcrypt, verify_email_change}

-- The call `wait` is the time that passes.
pub data AccountCall : Type 0 where
  sign_up : SignUpForm → Str → AccountCall
  confirm : Str → AccountCall
  change_name : List Fault → ℕ → ℕ → Bool → Str → AccountCall
  sign_in : Option ℕ → Str → Str → AccountCall
  confirm_email : ℕ → Str → AccountCall
  wait : ℕ → AccountCall

unfoldable pub account_call : Services → AccountCall → AccountDb → AccountDb
account_call s (sign_up form token) db = (create s form token db).1
account_call s (confirm token) db = (verify s token db).1
account_call s (change_name faults acting target bypass_limit name) db =
    (change_username s faults acting target bypass_limit name db).1
account_call s (sign_in request username password) db =
    (authenticate_bcrypt s request username password db).1
account_call s (confirm_email userid token) db = (verify_email_change userid token db).1
account_call s (wait seconds) db = record db { now = db.now + seconds }

unfoldable pub run_accounts : Services → List AccountCall → AccountDb → AccountDb
unfolding account_call
run_accounts s [] db = db
run_accounts s (call ∷ calls) db = run_accounts s calls (account_call s call db)
