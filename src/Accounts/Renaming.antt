-- ===== src/Accounts/Renaming.antt =====
-- `release_username` and `change_username` of weasyl/login.py, without their caches.
use weasyl.Prelude.{
  ℕ, ◌-◌, ◌/◌, Bool, true, false, not, ◌&&◌, ◌||◌, none, some, List, reverse, ◌==◌, ltb,
  if◌then◌else◌,
}
use weasyl.Prelude.Strings.{same}
use weasyl.Sql.{exists, first, count, update, insert}
use weasyl.Database.{
  Str, ActionOn, Fault, ok, err, pure, raise, serializable_retry, ◌>>◌, ◌>>=◌,
  username_exists_error, username_changed_too_recently, integrity_error, value_error, unexpected,
}
use weasyl.Users
use weasyl.Users.{Username, from_stored}
use weasyl.Accounts.{Services, AccountDb, LoginRow, HistoryRow, name_error}

-- `release_username`
abbrev pub is_redirect : ℕ → HistoryRow → Bool
is_redirect userid h = h.userid == userid && h.active

unfoldable pub release_username : ℕ → ℕ → AccountDb → AccountDb
release_username acting target db = record db {
  history =
      update (is_redirect target)
        (λ h. record h { active = false; deactivated = some (db.now, acting) }) db.history;
}

-- The newest change of the name by more than its spelling is less than 30 days old.
unfoldable pub changed_recently : ℕ → AccountDb → Bool
changed_recently target db =
    elim (first (λ h. h.userid == target && not h.cosmetic) (reverse db.history)) [
      | none ↦ false
      | some h ↦ ltb ((db.now - h.replaced_at) / 86400) 30
    ]

-- `conflict`
unfoldable pub conflicts : Str → ℕ → AccountDb → Bool
conflicts new_sysname target db =
    exists (λ l. same l.login_name new_sysname && not (l.userid == target)) db.logins
    || (exists (λ alias. same alias new_sysname) db.aliases
        || (exists (λ r. same r.login_name new_sysname) db.pending
            || exists (λ h. h.active && same h.login_name new_sysname) db.history))

-- The first steps of `change_username_transaction`, which a cosmetic change leaves out.
unfoldable pub take_name : ℕ → ℕ → Bool → Str → ActionOn AccountDb Unit
unfolding release_username
take_name acting target bypass_limit new_sysname db =
    if not bypass_limit && changed_recently target db
    then (err username_changed_too_recently, db)
    else let db' = release_username acting target db in
      (if conflicts new_sysname target db' then err username_exists_error else ok tt, db')

abbrev pub history_row : ℕ → Username → Bool → AccountDb → HistoryRow
history_row target old cosmetic db = record {
  userid = target;
  username = old.display;
  login_name = old.sysname;
  replaced_at = db.now;
  replaced_by = target;
  active = not cosmetic;
  deactivated = none;
  cosmetic = cosmetic;
}

-- The two unique indexes of the active rows.
abbrev pub history_clashes : ℕ → Str → HistoryRow → Bool
history_clashes target sysname h = h.active && (h.userid == target || same h.login_name sysname)

unfoldable pub add_history : ℕ → Username → Bool → ActionOn AccountDb Unit
add_history target old cosmetic db =
    if not cosmetic && exists (history_clashes target old.sysname) db.history
    then raise integrity_error db
    else (ok tt, record db { history = insert (history_row target old cosmetic db) db.history })

-- The `UPDATE` of `login`, which must change one row.
abbrev pub is_login : ℕ → Str → LoginRow → Bool
is_login target old_sysname l = l.userid == target && same l.login_name old_sysname

unfoldable pub rename_login : ℕ → Str → Str → ActionOn AccountDb Unit
rename_login target old_sysname new_sysname db = (
  if count (is_login target old_sysname) db.logins == 1 then ok tt else err unexpected,
  record db {
    logins =
        update (is_login target old_sysname) (λ l. record l { login_name = new_sysname }) db.logins;
  },
)

-- The `UPDATE` of `profile`, where names are unique.
unfoldable pub rename_profile : ℕ → Str → ActionOn AccountDb Unit
rename_profile target username db =
    if exists (λ p. same p.username username && not (p.userid == target)) db.profiles
    then raise integrity_error db
    else (
      ok tt,
      record db {
        profiles =
            update (λ p. p.userid == target) (λ p. record p { username = username }) db.profiles;
      },
    )

-- `change_username_transaction`, for a change of the spelling and for another name.
unfoldable pub respell : ℕ → Username → Username → ActionOn AccountDb Unit
respell target new old = add_history target old true >> rename_profile target new.display

unfoldable pub rename : ℕ → ℕ → Bool → Username → Username → ActionOn AccountDb Unit
rename acting target bypass_limit new old =
    take_name acting target bypass_limit new.sysname
    >> add_history target old false
    >> rename_login target old.sysname new.sysname
    >> rename_profile target new.display

unfoldable pub change_username_transaction :
    ℕ → ℕ → Bool → Username → Username → ActionOn AccountDb Unit
unfolding respell rename
change_username_transaction acting target bypass_limit new old =
    if same new.sysname old.sysname
    then respell target new old
    else rename acting target bypass_limit new old

-- `change_username`, from the new and the old name on.
unfoldable pub change_to : List Fault → ℕ → ℕ → Bool → Username → Username → ActionOn AccountDb Unit
unfolding change_username_transaction
change_to faults acting target bypass_limit new old =
    if same new.display old.display
    then pure tt
    else serializable_retry faults (change_username_transaction acting target bypass_limit new old)

-- `get_username` of weasyl/define.py
unfoldable pub get_username : Services → ℕ → ActionOn AccountDb Username
get_username s userid db = elim (first (λ p. p.userid == userid) db.profiles) [
  | none ↦ raise unexpected db
  | some p ↦ elim (from_stored s.unicode p.username) [
    | none ↦ raise value_error db
    | some username ↦ (ok username, db)
  ]
]

unfoldable pub change_username :
    Services → List Fault → ℕ → ℕ → Bool → Str → ActionOn AccountDb Unit
unfolding change_to get_username
change_username s faults acting target bypass_limit new_username db =
    elim (Users.create s.unicode new_username) [
      | Users.refused e ↦ raise (name_error e) db
      | Users.created new ↦
          (get_username s target >>= λ old. change_to faults acting target bypass_limit new old) db
    ]
