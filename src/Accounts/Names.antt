-- ===== src/Accounts/Names.antt =====
-- Every name has one use, through any sequence of calls.
use weasyl.Prelude.{
  ℕ, ◌+◌, ◌≤◌, ◌≡◌, refl, sym, subst, inl, inr, Bool-cases, true, false, not, ◌&&◌, some, List,
  ◌==◌, ltb, all, arith, if◌then◌else◌,
}
use weasyl.Prelude.Strings.{same, same_refl, same-eq}
use weasyl.Sql.{exists, count}
use weasyl.Sql.Laws.{count-insert, count-update, count-exists_no}
use weasyl.Sql.Counts.{count-update_gain, count-update_loss, count-update_le}
use weasyl.Sql.All.{all-update}
use weasyl.Database.{Str}
use weasyl.Users.{Username}
use weasyl.Accounts.{AccountDb, LoginRow}
use weasyl.Accounts.Renaming.{is_redirect, is_login, release_username, conflicts, history_row}
use weasyl.Accounts.Renamed.{add_row, log_name}
use weasyl.Accounts.Counts.{logs_in, reserves, redirects, uses, same_other, count-logs_in_none}

-- Every name is used at most once, ids of users are unique and come from the sequence.
abbrev pub IsUnique : AccountDb → Type 0
IsUnique db = (n : Str) → uses n db ≤ 1

abbrev pub AreKeyed : List LoginRow → ℕ → Type 0
AreKeyed logins next =
    ((u : ℕ) → count (λ l. l.userid == u) logins ≤ 1) × (all (λ l. ltb l.userid next) logins ≡ true)

abbrev pub IsKeyed : AccountDb → Type 0
IsKeyed db = AreKeyed db.logins db.next_userid

same_flip : (s t : Str) → same s t ≡ false → same t s ≡ false
same_flip s t h = elim (Bool-cases (same t s)) [
  | inl e ↦
      let clash = subst (λ m. same m t ≡ false) (sym (same-eq t s e)) h in
      let whole = same_refl t in absurd (ground arith)
  | inr e ↦ e
]

-- The users keep their ids.
pub log_name-IsKeyed :
    (target : ℕ) (old new : Str) (db : AccountDb)
    → IsKeyed db
    → IsKeyed (log_name target old new db)
log_name-IsKeyed target old new db (unique, drawn) = (
  λ u. ground (
    arith,
    unique u,
    count-update (is_login target old) (λ l. l.userid == u) (λ l. record l { login_name = new })
        db.logins (λ l h. refl),
  ),
  all-update (λ l. ltb l.userid db.next_userid) (λ l. ltb l.userid db.next_userid)
      (is_login target old) (λ l. record l { login_name = new }) db.logins (λ l h. ground arith)
      drawn,
)

-- A name without conflicts is in use by the user alone.
conflicts-free :
    (n : Str) (target : ℕ) (db : AccountDb)
    → conflicts n target db ≡ false
    → (exists (λ l. same l.login_name n && not (l.userid == target)) db.logins ≡ false)
      × (count (λ alias. same alias n) db.aliases ≡ 0)
      × (count (reserves n) db.pending ≡ 0)
      × (count (redirects n) db.history ≡ 0)
unfolding conflicts
conflicts-free n target db h = (
  ground arith,
  count-exists_no (λ alias. same alias n) db.aliases (ground arith),
  count-exists_no (reserves n) db.pending (ground arith),
  count-exists_no (redirects n) db.history (ground arith),
)

module _ (acting target : ℕ) (new old : Username) (db : AccountDb)
    (other : same new.sysname old.sysname ≡ false)
    (one : count (is_login target old.sysname) db.logins ≡ 1) where
  -- The state that a renaming leaves.
  unfoldable pub renamed : AccountDb
  renamed =
      log_name target old.sysname new.sysname
        (add_row target old false (release_username acting target db))

  history-release_le :
      (n : Str)
      → count (redirects n) (release_username acting target db).history
        ≤ count (redirects n) db.history
  unfolding release_username
  history-release_le n =
      count-update_le (is_redirect target) (redirects n)
        (λ h. record h { active = false; deactivated = some (db.now, acting) }) db.history
        (λ h k. refl)

  history-renamed :
      (n : Str)
      → count (redirects n) renamed.history
        ≡ count (redirects n) (release_username acting target db).history
          + (if same old.sysname n then 1 else 0)
  unfolding renamed
  history-renamed n =
      count-insert (redirects n) (history_row target old false (release_username acting target db))
        (release_username acting target db).history

  uses-renamed_new :
      IsKeyed db
      → conflicts new.sysname target (release_username acting target db) ≡ false
      → uses new.sysname renamed ≤ 1
  unfolding renamed release_username
  uses-renamed_new keyed free =
      let (alone, aliases, pending, history) =
        conflicts-free new.sysname target (release_username acting target db) free in
      let mine =
        count-logs_in_none target new.sysname old.sysname db.logins other (keyed.0 target) one
          alone in
      let differs = same_flip new.sysname old.sysname other in
      let whole = same_refl new.sysname in
      let gain =
        count-update_gain (is_login target old.sysname) (logs_in new.sysname)
          (λ l. record l { login_name = new.sysname }) db.logins
          (λ l h.
            let apart = same_other old.sysname new.sysname l.login_name differs (ground arith) in
            (apart, whole)) in
      ground (arith, history-renamed new.sysname)

  uses-renamed_old : IsUnique db → uses old.sysname renamed ≤ 1
  unfolding renamed release_username
  uses-renamed_old unique =
      let whole = same_refl old.sysname in
      let loss =
        count-update_loss (is_login target old.sysname) (logs_in old.sysname)
          (λ l. record l { login_name = new.sysname }) db.logins (λ l h. (ground arith, other)) in
      ground
        (arith, unique old.sysname, history-renamed old.sysname, history-release_le old.sysname)

  uses-renamed_other :
      (n : Str)
      → IsUnique db
      → same new.sysname n ≡ false
      → same old.sysname n ≡ false
      → uses n renamed ≤ 1
  unfolding renamed release_username
  uses-renamed_other n unique hn ho =
      let still =
        count-update (is_login target old.sysname) (logs_in n)
          (λ l. record l { login_name = new.sysname }) db.logins
          (λ l h.
            let apart = same_other old.sysname n l.login_name ho (ground arith) in ground arith) in
      ground (arith, unique n, history-renamed n, history-release_le n)

  pub renamed-IsUnique :
      IsUnique db
      → IsKeyed db
      → conflicts new.sysname target (release_username acting target db) ≡ false
      → IsUnique renamed
  renamed-IsUnique unique keyed free n = elim (Bool-cases (same new.sysname n)) [
    | inl e ↦
        subst (λ m. uses m renamed ≤ 1) (same-eq new.sysname n e) (uses-renamed_new keyed free)
    | inr hn ↦ elim (Bool-cases (same old.sysname n)) [
      | inl e ↦ subst (λ m. uses m renamed ≤ 1) (same-eq old.sysname n e) (uses-renamed_old unique)
      | inr ho ↦ uses-renamed_other n unique hn ho
    ]
  ]
