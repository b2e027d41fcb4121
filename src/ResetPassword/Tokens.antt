-- ===== src/ResetPassword/Tokens.antt =====
-- A token resets the password of its account once.
use weasyl.Prelude.{
  ◌≡◌, refl, sym, ap, ◌∙◌, inl, inr, arith, ℕ, ◌≤◌, true, not, none, List, [], ◌∷◌, ◌==◌,
  Bool-cases, Option-cases, ==_iff,
}
use weasyl.Prelude.Strings.{same}
use weasyl.Sql.{select, first, count, delete, update}
use weasyl.Sql.Rows.{select-update_other}
use weasyl.Database.{
  ActionOn, Error, transaction, Str, Result-cases, ok, err, forgotpassword_record_missing,
}
use weasyl.Database.Keeps.{transaction-ok}
use weasyl.ResetPassword.{
  Hashes, ForgotRow, Accounts, password_secure, find_reset_target, is_live, set_password,
  reset_target, reset_transaction, reset,
}

-- No live row is left for a token that was used, now or later.
first-live :
    (token_sha256 : Str) (now later : ℕ) (rows : List ForgotRow)
    → now ≤ later
    → first (is_live token_sha256 later) (delete (is_live token_sha256 now) rows) ≡ none
first-live token_sha256 now later [] l = refl
first-live token_sha256 now later (f ∷ rows) l =
    elim (Bool-cases (same f.token_sha256 token_sha256)) [
      | inl e ↦ ground (arith, first-live token_sha256 now later rows l)
      | inr e ↦ ground (arith, first-live token_sha256 now later rows l)
    ]

set_password-ok :
    (mail : Hashes) (userid : ℕ) (password ip : Str) (db : Accounts)
    → (set_password mail userid password ip db).0 ≡ ok tt
    → ((set_password mail userid password ip db).1.forgotten ≡ db.forgotten)
      × ((set_password mail userid password ip db).1.hashes
          ≡ update
              (λ h. h.userid == userid)
              (λ h. record h { hashsum = mail.passhash password })
              db.hashes)
unfolding set_password
set_password-ok mail userid password ip db h =
    elim (Bool-cases (count (λ h. h.userid == userid) db.hashes == 1)) [
      | inl e ↦ (ground arith, ground arith)
      | inr e ↦ absurd (ground arith)
    ]

-- What a reset that succeeds writes.
abbrev pub IsReset : Hashes → Str → ℕ → Accounts → Accounts → Type 0
IsReset mail password userid before after =
    (after.forgotten ≡ before.forgotten)
    × (after.hashes
        ≡ update (λ h. h.userid == userid) (λ h. record h { hashsum = mail.passhash password })
            before.hashes)

reset_target-ok :
    (mail : Hashes) (email password : Str) (expect_userid : ℕ) (ip : Str) (db : Accounts)
    → (reset_target mail email password expect_userid ip db).0 ≡ ok tt
    → IsReset mail password expect_userid db
        (reset_target mail email password expect_userid ip db).1
unfolding reset_target
reset_target-ok mail email password expect_userid ip db h =
    elim (Option-cases (find_reset_target mail email db.logins)) [
      | inl e ↦ absurd (ground arith)
      | inr (l, e) ↦ elim (Bool-cases (l.userid == expect_userid)) [
        | inl k ↦
            let step : reset_target mail email password expect_userid ip db
                ≡ set_password mail expect_userid password ip db =
              rw (reset_target, e, k, (==_iff l.userid expect_userid).0 k) refl in
            rw step
              (set_password-ok mail expect_userid password ip db (ap (λ x. x.0) (sym step) ∙ h))
        | inr k ↦ absurd (ground arith)
      ]
    ]

reset_transaction-ok :
    (mail : Hashes) (token password : Str) (expect_userid : ℕ) (ip : Str) (db : Accounts)
    → (reset_transaction mail token password expect_userid ip db).0 ≡ ok tt
    → let live = is_live (mail.hash_token token) db.now in
      IsReset mail password expect_userid
        (record db { forgotten = delete live db.forgotten })
        (reset_transaction mail token password expect_userid ip db).1
unfolding reset_transaction
reset_transaction-ok mail token password expect_userid ip db h =
    let live = is_live (mail.hash_token token) db.now in
    elim (Option-cases (first live db.forgotten)) [
      | inl e ↦ absurd (ground arith)
      | inr (f, e) ↦
          let db' : Accounts = record db { forgotten = delete live db.forgotten } in
          let step : reset_transaction mail token password expect_userid ip db
              ≡ reset_target mail f.email password expect_userid ip db' =
            rw (reset_transaction, e) refl in
          rw step (
            reset_target-ok mail f.email password expect_userid ip db'
              (ap (λ x. x.0) (sym step) ∙ h))
    ]

transaction-err :
    (m : ActionOn Accounts Unit) (db : Accounts) (e : Error)
    → (m db).0 ≡ err e
    → transaction m db ≡ (err e, db)
transaction-err m db e h = rw (transaction, h) refl

pub reset-ok :
    (mail : Hashes) (token password : Str) (expect_userid : ℕ) (ip : Str) (db : Accounts)
    → (reset mail token password expect_userid ip db).0 ≡ ok tt
    → let live = is_live (mail.hash_token token) db.now in
      IsReset mail password expect_userid
        (record db { forgotten = delete live db.forgotten })
        (reset mail token password expect_userid ip db).1
unfolding reset
reset-ok mail token password expect_userid ip db h = elim (Bool-cases (password_secure password)) [
  | inl e ↦ elim (Result-cases (reset_transaction mail token password expect_userid ip db).0) [
    | inl (u, k) ↦
        let step : (reset mail token password expect_userid ip db).1
            ≡ (reset_transaction mail token password expect_userid ip db).1 =
          rw (reset, e)
            (ap (λ x. x.1)
              (transaction-ok (reset_transaction mail token password expect_userid ip) db k)) in
        rw step (reset_transaction-ok mail token password expect_userid ip db k)
    | inr (x, k) ↦ absurd (ground arith)
  ]
  | inr e ↦ absurd (ground arith)
]

reset_used :
    (mail : Hashes) (token password : Str) (expect_userid : ℕ) (ip : Str) (db : Accounts)
    → password_secure password ≡ true
    → first (is_live (mail.hash_token token) db.now) db.forgotten ≡ none
    → reset mail token password expect_userid ip db ≡ (err forgotpassword_record_missing, db)
unfolding reset reset_transaction
reset_used mail token password expect_userid ip db h k =
    rw (reset, h)
      (transaction-err (reset_transaction mail token password expect_userid ip) db
        forgotpassword_record_missing (rw (reset_transaction, k) refl))

-- A reset that succeeds stores the hash of the new password for the expected user, leaves the passwords of
-- all others, and uses the token up: whoever sends the token again, then or later, with any password that is
-- long enough and for any user, gets an error, and nothing changes.
pub reset_lem :
    (mail : Hashes) (token password : Str) (expect_userid : ℕ) (ip : Str) (db : Accounts)
    (again : Str) (userid later : ℕ) (place : Str)
    → (reset mail token password expect_userid ip db).0 ≡ ok tt
    → password_secure again ≡ true
    → db.now ≤ later
    → let after = (reset mail token password expect_userid ip db).1 in
      let state : Accounts = record after { now = later } in
      (after.hashes
        ≡ update
            (λ h. h.userid == expect_userid)
            (λ h. record h { hashsum = mail.passhash password })
            db.hashes)
      × (select (λ h. not (h.userid == expect_userid)) after.hashes
          ≡ select (λ h. not (h.userid == expect_userid)) db.hashes)
      × (reset mail token again userid place state ≡ (err forgotpassword_record_missing, state))
reset_lem mail token password expect_userid ip db again userid later place h s l =
    let (kept, stored) = reset-ok mail token password expect_userid ip db h in
    (
      stored,
      rw stored (
          select-update_other (λ h. h.userid == expect_userid)
            (λ h. not (h.userid == expect_userid))
            (λ h. record h { hashsum = mail.passhash password }) db.hashes
            (λ h e. (rw e refl, rw e refl))),
      reset_used mail token again userid place _ s
          (rw kept (first-live (mail.hash_token token) db.now later db.forgotten l)),
    )
