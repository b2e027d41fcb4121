-- ===== src/Accounts/Invariant.antt =====
-- Every name has one use, through any sequence of calls.
use weasyl.Prelude.{
  ℕ, ◌≡◌, refl, sym, subst, inl, inr, Bool-cases, Option-cases, Bool, true, false, List, [], ◌∷◌,
  ◌==◌, arith,
}
use weasyl.Prelude.Strings.{same}
use weasyl.Sql.{first}
use weasyl.Sql.Laws.{count-insert}
use weasyl.Database.{Str, ok, Fault}
use weasyl.Database.Keeps.{serializable_retry-commits, bind-keeps}
use weasyl.Users
use weasyl.Users.{Username, from_stored, Created-cases, parse_sysname}
use weasyl.Users.Words.{IsAsciiFaithful}
use weasyl.Accounts.{Services, AccountDb}
use weasyl.Accounts.Renaming.{
  release_username, history_row, respell, rename, change_username_transaction, change_to,
  get_username, change_username,
}
use weasyl.Accounts.SignIn.{authenticate_bcrypt}
use weasyl.Accounts.Renamed.{add_row, rename-ok, respell-ok}
use weasyl.Accounts.Counts.{redirects}
use weasyl.Accounts.Names.{log_name-IsKeyed, renamed, renamed-IsUnique}
use weasyl.Accounts.Kept.{
  HasUniqueNames, SameNames-HasUniqueNames, create-HasUniqueNames, verify-HasUniqueNames,
}
use weasyl.Accounts.SameNames.{authenticate_bcrypt-same, verify_email_change-HasUniqueNames}
use weasyl.Accounts.Calls.{
  AccountCall, sign_up, confirm, change_name, sign_in, confirm_email, wait, account_call,
  run_accounts,
}

respell-HasUniqueNames :
    (s : Services) (target : ℕ) (new old : Username) (db : AccountDb)
    → HasUniqueNames s db
    → (respell target new old db).0 ≡ ok tt
    → HasUniqueNames s (respell target new old db).1
respell-HasUniqueNames s target new old db (unique, keyed, canonical) h =
    SameNames-HasUniqueNames s (add_row target old true db) (respell target new old db).1
      (respell-ok target new old db h)
      (
        λ n. omega (
          arith,
          unique n,
          count-insert (redirects n) (history_row target old true db) db.history,
        ),
        keyed,
        canonical,
      )

rename-HasUniqueNames :
    (s : Services) (acting target : ℕ) (bypass : Bool) (new old : Username) (db : AccountDb)
    → same new.sysname old.sysname ≡ false
    → HasUniqueNames s db
    → (rename acting target bypass new old db).0 ≡ ok tt
    → HasUniqueNames s (rename acting target bypass new old db).1
unfolding release_username renamed
rename-HasUniqueNames s acting target bypass new old db other (unique, keyed, canonical) h =
    let (free, one, after) = rename-ok acting target bypass new old db h in
    SameNames-HasUniqueNames s (renamed acting target new old db other one)
      (rename acting target bypass new old db).1 after
      (
        renamed-IsUnique acting target new old db other one unique keyed free,
        log_name-IsKeyed target old.sysname new.sysname
            (add_row target old false (release_username acting target db)) keyed,
        canonical,
      )

change_username_transaction-HasUniqueNames :
    (s : Services) (acting target : ℕ) (bypass : Bool) (new old : Username) (db : AccountDb)
    → HasUniqueNames s db
    → (change_username_transaction acting target bypass new old db).0 ≡ ok tt
    → HasUniqueNames s (change_username_transaction acting target bypass new old db).1
unfolding change_username_transaction
change_username_transaction-HasUniqueNames s acting target bypass new old db h =
    elim (Bool-cases (same new.sysname old.sysname)) [
      | inl e ↦ rw (change_username_transaction, e) (respell-HasUniqueNames s target new old db h)
      | inr e ↦
          rw (change_username_transaction, e)
            (rename-HasUniqueNames s acting target bypass new old db e h)
    ]

change_to-HasUniqueNames :
    (s : Services) (faults : List Fault) (acting target : ℕ) (bypass : Bool) (new old : Username)
    (db : AccountDb)
    → HasUniqueNames s db
    → HasUniqueNames s (change_to faults acting target bypass new old db).1
unfolding change_to
change_to-HasUniqueNames s faults acting target bypass new old db h =
    elim (Bool-cases (same new.display old.display)) [
      | inl e ↦ rw (change_to, e) h
      | inr e ↦
          rw (change_to, e)
            (serializable_retry-commits (HasUniqueNames s) faults
              (change_username_transaction acting target bypass new old) db h
              (change_username_transaction-HasUniqueNames s acting target bypass new old db h))
    ]

get_username-state :
    (s : Services) (userid : ℕ) (db : AccountDb) → (get_username s userid db).1 ≡ db
unfolding get_username
get_username-state s userid db = elim (Option-cases (first (λ p. p.userid == userid) db.profiles)) [
  | inl e ↦ rw (get_username, e) refl
  | inr (p, e) ↦ elim (Option-cases (from_stored s.unicode p.username)) [
    | inl k ↦ rw (get_username, e, k) refl
    | inr (_, k) ↦ rw (get_username, e, k) refl
  ]
]

change_username-HasUniqueNames :
    (s : Services) (faults : List Fault) (acting target : ℕ) (bypass : Bool) (name : Str)
    (db : AccountDb)
    → HasUniqueNames s db
    → HasUniqueNames s (change_username s faults acting target bypass name db).1
unfolding change_username
change_username-HasUniqueNames s faults acting target bypass name db h =
    elim (Created-cases (Users.create s.unicode name)) [
      | inr (e, made) ↦ rw (change_username, made) h
      | inl (new, made) ↦
          rw (change_username, made)
            (bind-keeps (HasUniqueNames s) (get_username s target)
              (λ old. change_to faults acting target bypass new old) db
              (subst (HasUniqueNames s) (sym (get_username-state s target db)) h)
              (λ old db h. change_to-HasUniqueNames s faults acting target bypass new old db h))
    ]

account_call-HasUniqueNames :
    (s : Services) (faithful : IsAsciiFaithful s.unicode) (call : AccountCall) (db : AccountDb)
    → HasUniqueNames s db
    → HasUniqueNames s (account_call s call db)
unfolding account_call
account_call-HasUniqueNames s faithful (sign_up form token) db h =
    create-HasUniqueNames s faithful form token db h
account_call-HasUniqueNames s faithful (confirm token) db h = verify-HasUniqueNames s token db h
account_call-HasUniqueNames s faithful (change_name faults acting target bypass name) db h =
    change_username-HasUniqueNames s faults acting target bypass name db h
account_call-HasUniqueNames s faithful (sign_in request username password) db h =
    SameNames-HasUniqueNames s db (authenticate_bcrypt s request username password db).1
      (authenticate_bcrypt-same s request username password db) h
account_call-HasUniqueNames s faithful (confirm_email userid token) db h =
    verify_email_change-HasUniqueNames s userid token db h
account_call-HasUniqueNames s faithful (wait seconds) db h = h

-- Any sequence of calls that make, verify, rename and use accounts keeps every name at one use at most,
-- among the logins, the aliases, the pending accounts and the names that redirect to their former users. Ids
-- of users stay unique and pending accounts canonical, as they are at the start. The tables of Unicode leave
-- ASCII as it is, but for the case.
pub run_accounts-HasUniqueNames :
    (s : Services) (faithful : IsAsciiFaithful s.unicode) (calls : List AccountCall)
    (db : AccountDb)
    → HasUniqueNames s db
    → HasUniqueNames s (run_accounts s calls db)
unfolding run_accounts
run_accounts-HasUniqueNames s faithful [] db h = h
run_accounts-HasUniqueNames s faithful (call ∷ calls) db h =
    run_accounts-HasUniqueNames s faithful calls (account_call s call db)
      (account_call-HasUniqueNames s faithful call db h)
