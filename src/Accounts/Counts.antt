-- ===== src/Accounts/Counts.antt =====
-- How often a name is in use among logins, aliases, pending accounts and redirects.
use weasyl.Prelude.{
  ℕ, ◌+◌, ◌≤◌, ◌≡◌, ap, subst, inl, inr, Bool-cases, Bool, true, false, not, ◌&&◌, none, some, List,
  ◌==◌, ltb, arith, if◌then◌else◌,
}
use weasyl.Prelude.Strings.{same, same-eq}
use weasyl.Sql.{exists, first, count}
use weasyl.Sql.Laws.{count-exists_no, count-insert, count-delete_le, count_mono}
use weasyl.Sql.Counts.{count-delete-first, count_disjoint, count_split}
use weasyl.Database.{Str}
use weasyl.Users.{Username}
use weasyl.Accounts.{
  AccountDb, PendingRow, LoginRow, HistoryRow, delete_expired, username_exists, create_account,
}
use weasyl.Accounts.Renaming.{is_login}

abbrev pub logs_in : Str → LoginRow → Bool
logs_in n l = same l.login_name n

abbrev pub reserves : Str → PendingRow → Bool
reserves n r = same r.login_name n

abbrev pub redirects : Str → HistoryRow → Bool
redirects n h = h.active && same h.login_name n

abbrev pub uses : Str → AccountDb → ℕ
uses n db =
    count (logs_in n) db.logins
    + count (λ alias. same alias n) db.aliases
    + count (reserves n) db.pending
    + count (redirects n) db.history

-- A name that does not exist is not in use.
pub uses-username_exists : (n : Str) (db : AccountDb) → username_exists n db ≡ false → uses n db ≡ 0
unfolding username_exists
uses-username_exists n db h =
    let logins : exists (logs_in n) db.logins ≡ false = ground arith in
    let aliases : exists (λ alias. same alias n) db.aliases ≡ false = ground arith in
    let pending : exists (reserves n) db.pending ≡ false = ground arith in
    let history : exists (redirects n) db.history ≡ false = ground arith in
    omega (
      arith,
      count-exists_no (logs_in n) db.logins logins,
      count-exists_no (λ alias. same alias n) db.aliases aliases,
      count-exists_no (reserves n) db.pending pending,
      count-exists_no (redirects n) db.history history,
    )

pub uses-delete_expired : (n : Str) (db : AccountDb) → uses n (delete_expired db) ≤ uses n db
unfolding delete_expired
uses-delete_expired n db =
    omega (arith, count-delete_le (λ r. ltb (r.created_at + 172800) db.now) (reserves n) db.pending)

-- Of two names that differ, a name is at most one.
pub same_other : (s t n : Str) → same s t ≡ false → same n s ≡ true → same n t ≡ false
same_other s t n h k = elim (Bool-cases (same n t)) [
  | inl e ↦ absurd (let clash = subst (λ m. same m t ≡ true) (same-eq n s k) e in ground arith)
  | inr e ↦ e
]

-- A free name is taken once.
pub uses_taken :
    (m : Str) (before after : AccountDb)
    → uses m before ≡ 0
    → ((n : Str) → uses n after ≤ uses n before + (if same m n then 1 else 0))
    → ((n : Str) → uses n before ≤ 1)
    → (n : Str) → uses n after ≤ 1
uses_taken m before after free step unique n = elim (Bool-cases (same m n)) [
  | inl e ↦
      let none_yet : uses n before ≡ 0 = subst (λ k. uses k before ≡ 0) (same-eq m n e) free in
      ground (arith, step n)
  | inr e ↦ ground (arith, step n, unique n)
]

-- The account is one use of its name more, and the row that it was made of one less.
pub uses-create_account :
    (row : PendingRow) (username : Username) (db : AccountDb) (n : Str)
    → first (λ r. same r.token row.token) db.pending ≡ some row
    → same username.sysname row.login_name ≡ true
    → uses n (create_account row username db).1 ≤ uses n db
unfolding create_account
uses-create_account row username db n found e =
    let removed =
      count-delete-first (λ r. same r.token row.token) (reserves n) db.pending row found in
    let name : same username.sysname n ≡ same row.login_name n =
      ap (λ m. same m n) (same-eq username.sysname row.login_name e) in
    let added =
      count-insert (logs_in n)
        (record {
          userid = db.next_userid;
          login_name = username.sysname;
          email = row.email;
          twofa_secret = none;
        })
        db.logins in
    ground (arith, removed, name, added)

-- A login is unique, so that its user has no login by another name.
pub count-logs_in_none :
    (target : ℕ) (new old : Str) (logins : List LoginRow)
    → same new old ≡ false
    → count (λ l. l.userid == target) logins ≤ 1
    → count (is_login target old) logins ≡ 1
    → exists (λ l. same l.login_name new && not (l.userid == target)) logins ≡ false
    → count (logs_in new) logins ≡ 0
count-logs_in_none target new old logins other keyed one free =
    let mine =
      count_disjoint (is_login target new) (is_login target old) (λ l. l.userid == target) logins
        (λ l h.
          let differs = same_other new old l.login_name other (ground arith) in
          (ground arith, ground arith))
        (λ l h. ground arith) in
    let split = count_split (logs_in new) (λ l. l.userid == target) logins in
    let mine_too =
      count_mono (λ l. same l.login_name new && l.userid == target) (is_login target new) logins
        (λ l h. ground arith) in
    omega (
      arith,
      mine,
      split,
      mine_too,
      keyed,
      one,
      count-exists_no (λ l. same l.login_name new && not (l.userid == target)) logins free,
    )
