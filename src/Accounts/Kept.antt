-- ===== src/Accounts/Kept.antt =====
-- The invariant of the tables of accounts, and the calls that make accounts.
use weasyl.Prelude.{
  ℕ, ◌+◌, ◌≡◌, refl, sym, subst, inl, inr, Bool-cases, Option-cases, Bool, true, false, ◌||◌, none,
  some, List, [], ◌∷◌, ◌==◌, ltb, all, arith,
}
use weasyl.Prelude.Strings.{same, same_refl, same-eq}
use weasyl.Sql.{exists, first, count, insert}
use weasyl.Sql.Laws.{count-insert, first-found}
use weasyl.Sql.All.{all-insert, all_implied, all-delete, all-first}
use weasyl.Database.{Str}
use weasyl.Database.Keeps.{transaction-keeps}
use weasyl.Users
use weasyl.Users.{Username, from_stored, Created-cases}
use weasyl.Users.Words.{IsAsciiFaithful}
use weasyl.Users.Names.{from_stored-create}
use weasyl.Accounts.{
  Services, clashes, AccountDb, PendingRow, LoginRow, SignUpForm, delete_expired, username_exists,
  pending_row, insert_pending, create_pending, create, create_account, verify_found, verify,
}
use weasyl.Accounts.Renamed.{SameNames}
use weasyl.Accounts.Checked.{create-cases}
use weasyl.Accounts.Counts.{
  reserves, uses-username_exists, uses-delete_expired, uses_taken, uses-create_account,
}
use weasyl.Accounts.Names.{IsUnique, AreKeyed, IsKeyed}

-- The canonical name of a pending account is that of its name.
abbrev pub is_canonical : Services → PendingRow → Bool
is_canonical s r = elim (from_stored s.unicode r.username) [
  | none ↦ false
  | some username ↦ same username.sysname r.login_name
]

-- Every name is used at most once among logins, aliases, pending accounts and redirects; ids of users are
-- unique and come from the sequence; pending accounts have canonical names.
abbrev pub HasUniqueNames : Services → AccountDb → Type 0
HasUniqueNames s db = IsUnique db × IsKeyed db × (all (is_canonical s) db.pending ≡ true)

pub SameNames-HasUniqueNames :
    (s : Services) (db db' : AccountDb)
    → SameNames db db'
    → HasUniqueNames s db
    → HasUniqueNames s db'
SameNames-HasUniqueNames s db db' (l, h, p, a, n) (unique, keyed, canonical) =
    (λ m. rw (l, h, p, a) (unique m), rw (l, n) keyed, rw p canonical)

delete_expired-HasUniqueNames :
    (s : Services) (db : AccountDb) → HasUniqueNames s db → HasUniqueNames s (delete_expired db)
unfolding delete_expired
delete_expired-HasUniqueNames s db (unique, keyed, canonical) = (
  λ n. omega (arith, unique n, uses-delete_expired n db),
  keyed,
  all-delete (is_canonical s) (λ r. ltb (r.created_at + 172800) db.now) db.pending canonical,
)

insert_pending-HasUniqueNames :
    (s : Services) (row : PendingRow) (db : AccountDb)
    → is_canonical s row ≡ true
    → username_exists row.login_name db ≡ false
    → HasUniqueNames s db
    → HasUniqueNames s (insert_pending row db).1
unfolding insert_pending
insert_pending-HasUniqueNames s row db c free (unique, keyed, canonical) =
    let before : HasUniqueNames s db = (unique, keyed, canonical) in
    let after : AccountDb = record db { pending = insert row db.pending } in
    let kept : HasUniqueNames s after = (
      uses_taken row.login_name db after (uses-username_exists row.login_name db free)
          (λ n. omega (arith, count-insert (reserves n) row db.pending)) unique,
      keyed,
      all-insert (is_canonical s) row db.pending canonical c,
    ) in
    elim (Bool-cases (exists (clashes row) db.pending)) [
      | inl e ↦ rw (insert_pending, e) before
      | inr e ↦ rw (insert_pending, e) kept
    ]

create_pending-HasUniqueNames :
    (s : Services) (faithful : IsAsciiFaithful s.unicode) (text : Str) (name : Username)
    (email password token : Str) (db : AccountDb)
    → Users.create s.unicode text ≡ Users.created name
    → HasUniqueNames s db
    → HasUniqueNames s (create_pending s name email password token db).1
unfolding create_pending
create_pending-HasUniqueNames s faithful text name email password token db made h =
    let row = pending_row s name email password token db in
    let stored = (from_stored-create s.unicode faithful text name made).0 in
    let whole = same_refl name.sysname in
    let good : is_canonical s row ≡ true = rw (is_canonical, stored) whole in
    elim (Bool-cases (username_exists name.sysname db)) [
      | inl e ↦ rw (create_pending, e) h
      | inr e ↦ rw (create_pending, e) (insert_pending-HasUniqueNames s row db good e h)
    ]

pub create-HasUniqueNames :
    (s : Services) (faithful : IsAsciiFaithful s.unicode) (form : SignUpForm) (token : Str)
    (db : AccountDb)
    → HasUniqueNames s db
    → HasUniqueNames s (create s form token db).1
create-HasUniqueNames s faithful form token db h = elim (create-cases s form token) [
  | inl (e, refused) ↦ rw (refused db) h
  | inr (name, email, made, accepted) ↦ rw (accepted db) (
      create_pending-HasUniqueNames s faithful form.username name email form.password token
        (delete_expired db) made (delete_expired-HasUniqueNames s db h))
]

-- No login has the next id.
count-next :
    (next : ℕ) (logins : List LoginRow)
    → all (λ l. ltb l.userid next) logins ≡ true
    → count (λ l. l.userid == next) logins ≡ 0
count-next next [] h = refl
count-next next (l ∷ logins) h = ground (arith, count-next next logins)

insert-AreKeyed :
    (l : LoginRow) (logins : List LoginRow)
    → AreKeyed logins l.userid
    → AreKeyed (insert l logins) (l.userid + 1)
insert-AreKeyed l logins (unique, drawn) = (
  λ u. elim (Bool-cases (l.userid == u)) [
    | inl e ↦
        ground (arith, count-insert (λ l. l.userid == u) l logins, count-next l.userid logins drawn)
    | inr e ↦ ground (arith, count-insert (λ l. l.userid == u) l logins, unique u)
  ],
  all-insert (λ m. ltb m.userid (l.userid + 1)) l logins
      (all_implied (λ m. ltb m.userid l.userid) (λ m. ltb m.userid (l.userid + 1)) logins
        (λ m h. ground arith) drawn)
      (ground arith),
)

create_account-HasUniqueNames :
    (s : Services) (row : PendingRow) (username : Username) (db : AccountDb)
    → first (λ r. same r.token row.token) db.pending ≡ some row
    → same username.sysname row.login_name ≡ true
    → HasUniqueNames s db
    → HasUniqueNames s (create_account row username db).1
unfolding create_account
create_account-HasUniqueNames s row username db found e (unique, keyed, canonical) =
    let before : HasUniqueNames s db = (unique, keyed, canonical) in
    let used : IsUnique (create_account row username db).1 =
      λ n. omega (arith, uses-create_account row username db n found e, unique n) in
    elim (Bool-cases (
      exists (λ l. same l.login_name username.sysname) db.logins
      || exists (λ p. same p.username username.display) db.profiles)) [
        | inl e ↦ rw (create_account, e) before
        | inr e ↦ (
          used,
          rw (create_account, e)
              (insert-AreKeyed
                (record {
                  userid = db.next_userid;
                  login_name = username.sysname;
                  email = row.email;
                  twofa_secret = none;
                })
                db.logins keyed),
          rw (create_account, e)
              (all-delete (is_canonical s) (λ r. same r.token row.token) db.pending canonical),
        )
      ]

verify_found-HasUniqueNames :
    (s : Services) (row : PendingRow) (db : AccountDb)
    → first (λ r. same r.token row.token) db.pending ≡ some row
    → HasUniqueNames s db
    → HasUniqueNames s (verify_found s row db).1
unfolding verify_found
verify_found-HasUniqueNames s row db found h =
    let (_, _, canonical) = h in
    let good =
      all-first (is_canonical s) (λ r. same r.token row.token) db.pending row canonical found in
    elim (Bool-cases row.invalid) [
      | inl e ↦ rw (verify_found, e) h
      | inr i ↦ elim (Option-cases (from_stored s.unicode row.username)) [
        | inl e ↦ rw (verify_found, i, e) h
        | inr (username, e) ↦
            let same_name : same username.sysname row.login_name ≡ true = by_name username e good in
            rw (verify_found, i, e)
              (transaction-keeps (HasUniqueNames s) (create_account row username) db h
                (create_account-HasUniqueNames s row username db found same_name h))
      ]
    ]
  where
    by_name :
        (username : Username)
        → from_stored s.unicode row.username ≡ some username
        → is_canonical s row ≡ true
        → same username.sysname row.login_name ≡ true
    by_name username e good = ground (arith, e, good)

pub verify-HasUniqueNames :
    (s : Services) (token : Str) (db : AccountDb)
    → HasUniqueNames s db
    → HasUniqueNames s (verify s token db).1
unfolding verify
verify-HasUniqueNames s token db h =
    let kept = delete_expired-HasUniqueNames s db h in
    elim (Option-cases (first (λ r. same r.token token) (delete_expired db).pending)) [
      | inl e ↦ rw (verify, e) kept
      | inr (row, e) ↦
          let its : token ≡ row.token = sym (
            same-eq row.token token
              (first-found (λ r. same r.token token) (delete_expired db).pending row e)) in
          rw (verify, e)
            (verify_found-HasUniqueNames s row (delete_expired db)
              (subst (λ k. first (λ r. same r.token k) (delete_expired db).pending ≡ some row) its
                e)
              kept)
    ]
