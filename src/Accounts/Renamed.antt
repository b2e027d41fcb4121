-- ===== src/Accounts/Renamed.antt =====
-- What `change_username_transaction` has written when it returns.
use weasyl.Prelude.{
  ℕ, ◌≡◌, ◌∙◌, refl, ap, subst, inl, inr, Bool-cases, Bool, true, false, not, ◌&&◌, arith,
}
use weasyl.Sql.{count, update, insert}
use weasyl.Database.{Str, ok, ◌>>◌}
use weasyl.Database.Keeps.{then-ok}
use weasyl.Users.{Username}
use weasyl.Accounts.{AccountDb}
use weasyl.Accounts.Renaming.{
  is_login, release_username, conflicts, take_name, history_row, add_history, rename_login,
  rename_profile, changed_recently, respell, rename,
}

take_name-ok :
    (acting target : ℕ) (bypass : Bool) (name : Str) (db : AccountDb)
    → (take_name acting target bypass name db).0 ≡ ok tt
    → (conflicts name target (release_username acting target db) ≡ false)
      × ((take_name acting target bypass name db).1 ≡ release_username acting target db)
unfolding take_name
take_name-ok acting target bypass name db h =
    elim (Bool-cases (not bypass && changed_recently target db)) [
      | inl e ↦ absurd (ground arith)
      | inr e ↦ ground arith
    ]

abbrev pub add_row : ℕ → Username → Bool → AccountDb → AccountDb
add_row target old cosmetic db = record db {
  history = insert (history_row target old cosmetic db) db.history;
}

add_history-ok :
    (target : ℕ) (old : Username) (cosmetic : Bool) (db : AccountDb)
    → (add_history target old cosmetic db).0 ≡ ok tt
    → (add_history target old cosmetic db).1 ≡ add_row target old cosmetic db
unfolding add_history
add_history-ok target old cosmetic db h = ground arith

abbrev pub log_name : ℕ → Str → Str → AccountDb → AccountDb
log_name target old_sysname new_sysname db = record db {
  logins =
      update (is_login target old_sysname) (λ l. record l { login_name = new_sysname }) db.logins;
}

rename_login-ok :
    (target : ℕ) (old new : Str) (db : AccountDb)
    → (rename_login target old new db).0 ≡ ok tt
    → (count (is_login target old) db.logins ≡ 1)
      × ((rename_login target old new db).1 ≡ log_name target old new db)
unfolding rename_login
rename_login-ok target old new db h = (ground arith, refl)

-- The tables where names are kept are the same.
abbrev pub SameNames : AccountDb → AccountDb → Type 0
SameNames db db' =
    (db'.logins ≡ db.logins)
    × (db'.history ≡ db.history)
    × (db'.pending ≡ db.pending)
    × (db'.aliases ≡ db.aliases)
    × (db'.next_userid ≡ db.next_userid)

rename_profile-same :
    (target : ℕ) (name : Str) (db : AccountDb) → SameNames db (rename_profile target name db).1
unfolding rename_profile
rename_profile-same target name db = ground arith

-- A renaming that returns has passed its checks, and what it has written.
pub rename-ok :
    (acting target : ℕ) (bypass : Bool) (new old : Username) (db : AccountDb)
    → (rename acting target bypass new old db).0 ≡ ok tt
    → let released = release_username acting target db in
      (conflicts new.sysname target released ≡ false)
      × (count (is_login target old.sysname) released.logins ≡ 1)
      × SameNames
          (log_name target old.sysname new.sysname (add_row target old false released))
          (rename acting target bypass new old db).1
unfolding rename
rename-ok acting target bypass new old db h =
    let released = release_username acting target db in
    let free = conflicts new.sysname target released ≡ false in
    let added = add_row target old false released in
    let logged = log_name target old.sysname new.sysname added in
    let take = take_name acting target bypass new.sysname in
    let add = add_history target old false in
    let log = rename_login target old.sysname new.sysname in
    let Logged : AccountDb → Type 0 =
      λ s. free × (count (is_login target old.sysname) released.logins ≡ 1) × (s ≡ logged) in
    let Done : AccountDb → Type 0 =
      λ s. free × (count (is_login target old.sysname) released.logins ≡ 1) × SameNames logged s in
    then-ok Logged Done (take >> add >> log) (rename_profile target new.display) db
      (then-ok (λ s. free × (s ≡ added)) Logged (take >> add) log db
        (then-ok (λ s. free × (s ≡ released)) (λ s. free × (s ≡ added)) take add db
          (take_name-ok acting target bypass new.sysname db)
          (λ s (f, e) k.
            (f, add_history-ok target old false s k ∙ ap (add_row target old false) e)))
        (λ s (f, e) k.
          let (one, w) = rename_login-ok target old.sysname new.sysname s k in
          (
            f,
            subst (λ s. count (is_login target old.sysname) s.logins ≡ 1) e one,
            w ∙ ap (log_name target old.sysname new.sysname) e,
          )))
      (λ s (f, one, e) k. (
        f,
        one,
        subst (λ b. SameNames b (rename_profile target new.display s).1) e
            (rename_profile-same target new.display s),
      ))
      h

pub respell-ok :
    (target : ℕ) (new old : Username) (db : AccountDb)
    → (respell target new old db).0 ≡ ok tt
    → let after = (respell target new old db).1 in
      (after.logins ≡ db.logins)
      × (after.history ≡ insert (history_row target old true db) db.history)
      × (after.pending ≡ db.pending)
      × (after.aliases ≡ db.aliases)
      × (after.next_userid ≡ db.next_userid)
unfolding respell add_history rename_profile
respell-ok target new old db h = ground arith
