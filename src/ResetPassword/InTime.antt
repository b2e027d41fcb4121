-- ===== src/ResetPassword/InTime.antt =====
-- A token that was asked for works for an hour.
use weasyl.Prelude.{
  ◌≡◌, ◌∙◌, refl, ap, inl, inr, arith, ℕ, ◌+◌, ◌≤◌, Bool, true, false, ◌&&◌, some, List, [], ◌∷◌,
  ◌==◌, leb, ltb, Bool-cases, Option-cases, ==_refl, ==_iff,
}
use weasyl.Prelude.Strings.{same, same_refl}
use weasyl.Sql.{exists, first, count, delete, update, insert}
use weasyl.Sql.Laws.{first-none, first-found, first-update, count-exists_no}
use weasyl.Database.{Str, ok}
use weasyl.ResetPassword.Addresses.{normalize_address}
use weasyl.ResetPassword.{
  HashRow, Hashes, ForgotRow, Address, Accounts, one_hour, password_secure, request_reset,
  find_reset_target, target, prepare, is_token, is_live, set_password, reset_target,
  reset_transaction, reset,
}
use weasyl.Database.Keeps.{transaction-ok}
use weasyl.ResetPassword.Tokens.{reset-ok}

-- The row that `request` inserts.
abbrev pub new_row : Hashes → Str → Str → Accounts → ForgotRow
new_row mail email token db = record {
  token_sha256 = mail.hash_token token;
  email = email;
  created_at = db.now;
}

-- The new row is the first with its hash, among those that satisfy any test that it satisfies.
first-insert_new :
    (token_sha256 : Str) (p : ForgotRow → Bool) (f : ForgotRow) (rows : List ForgotRow)
    → same f.token_sha256 token_sha256 ≡ true
    → p f ≡ true
    → exists (λ g. same g.token_sha256 token_sha256) rows ≡ false
    → first (λ g. same g.token_sha256 token_sha256 && p g) (insert f rows) ≡ some f
first-insert_new token_sha256 p f [] e h k = rw (e, h) refl
first-insert_new token_sha256 p f (g ∷ rows) e h k =
    ground (arith, first-insert_new token_sha256 p f rows e h)

request_reset-ok :
    (mail : Hashes) (address email token : Str) (db : Accounts)
    → normalize_address address ≡ some email
    → exists (λ f. same f.token_sha256 (mail.hash_token token)) db.forgotten ≡ false
    → request_reset mail address token db
      ≡ (ok tt, record db { forgotten = insert (new_row mail email token db) db.forgotten })
unfolding request_reset
request_reset-ok mail address email token db h k = rw (request_reset, h, k) refl

-- `prepare` deletes the rows that have expired first.
first-kept :
    (token_sha256 : Str) (now : ℕ) (rows : List ForgotRow)
    → first (is_token token_sha256) (delete (λ f. ltb (f.created_at + one_hour) now) rows)
      ≡ first (is_live token_sha256 now) rows
first-kept token_sha256 now [] = refl
first-kept token_sha256 now (f ∷ rows) = elim (Bool-cases (same f.token_sha256 token_sha256)) [
  | inl e ↦ ground (arith, first-kept token_sha256 now rows)
  | inr e ↦ ground (arith, first-kept token_sha256 now rows)
]

set_password-writes :
    (mail : Hashes) (userid : ℕ) (password ip : Str) (db : Accounts)
    → (count (λ h. h.userid == userid) db.hashes == 1) ≡ true
    → (set_password mail userid password ip db).0 ≡ ok tt
unfolding set_password
set_password-writes mail userid password ip db h = ground arith

reset_target-writes :
    (mail : Hashes) (email password ip : Str) (l : Address) (db : Accounts)
    → find_reset_target mail email db.logins ≡ some l
    → (count (λ h. h.userid == l.userid) db.hashes == 1) ≡ true
    → (reset_target mail email password l.userid ip db).0 ≡ ok tt
unfolding reset_target
reset_target-writes mail email password ip l db f h =
    rw (reset_target, f, ==_refl l.userid) (set_password-writes mail l.userid password ip db h)

reset_live :
    (mail : Hashes) (token password ip : Str) (f : ForgotRow) (l : Address) (db : Accounts)
    → password_secure password ≡ true
    → first (is_live (mail.hash_token token) db.now) db.forgotten ≡ some f
    → find_reset_target mail f.email db.logins ≡ some l
    → (count (λ h. h.userid == l.userid) db.hashes == 1) ≡ true
    → (reset mail token password l.userid ip db).0 ≡ ok tt
unfolding reset reset_transaction
reset_live mail token password ip f l db s h t c =
    rw (reset, s)
      (ap (λ x. x.0)
        (transaction-ok (reset_transaction mail token password l.userid ip) db
          (rw (reset_transaction, h) (reset_target-writes mail f.email password ip l _ t c))))

prepare_live :
    (mail : Hashes) (token : Str) (f : ForgotRow) (l : Address) (db : Accounts)
    → first (is_live (mail.hash_token token) db.now) db.forgotten ≡ some f
    → find_reset_target mail f.email db.logins ≡ some l
    → (prepare mail token db).0 ≡ ok (target l)
unfolding prepare
prepare_live mail token f l db h t =
    rw (prepare, first-kept (mail.hash_token token) db.now db.forgotten, h, t) refl

prepare-state :
    (mail : Hashes) (token : Str) (db : Accounts)
    → (prepare mail token db).1
      ≡ record db { forgotten = delete (λ f. ltb (f.created_at + one_hour) db.now) db.forgotten }
unfolding prepare
prepare-state mail token db =
    let kept = delete (λ f. ltb (f.created_at + one_hour) db.now) db.forgotten in
    elim (Option-cases (first (is_token (mail.hash_token token)) kept)) [
      | inl e ↦ rw (prepare, e) refl
      | inr (f, e) ↦ rw (prepare, e) refl
    ]

-- A live row outlasts the deletion of the rows that have expired.
first-live_kept :
    (token_sha256 : Str) (now last : ℕ) (row : ForgotRow) (rows : List ForgotRow)
    → same row.token_sha256 token_sha256 ≡ true
    → now ≤ row.created_at + one_hour
    → last ≤ row.created_at + one_hour
    → exists (λ f. same f.token_sha256 token_sha256) rows ≡ false
    → first
        (is_live token_sha256 last)
        (delete (λ f. ltb (f.created_at + one_hour) now) (insert row rows))
      ≡ some row
first-live_kept token_sha256 now last row [] e n l h = ground arith
first-live_kept token_sha256 now last row (f ∷ rows) e n l h =
    ground (arith, first-live_kept token_sha256 now last row rows e n l)

-- The one stored hash of a user after an update.
first-set_hash :
    (userid : ℕ) (hashsum : Str) (rows : List HashRow)
    → (count (λ h. h.userid == userid) rows == 1) ≡ true
    → first
        (λ h. h.userid == userid)
        (update (λ h. h.userid == userid) (λ h. record h { hashsum = hashsum }) rows)
      ≡ some (record { userid = userid; hashsum = hashsum })
first-set_hash userid hashsum rows one =
    elim (Option-cases (first (λ h. h.userid == userid) rows)) [
      | inl e ↦
          let none =
            count-exists_no (λ h. h.userid == userid) rows
              (first-none (λ h. h.userid == userid) rows e) in
          absurd (ground arith)
      | inr (h, e) ↦
          let its = first-found (λ h. h.userid == userid) rows h e in
          let id : h.userid ≡ userid = (==_iff h.userid userid).0 its in
          first-update (λ h. h.userid == userid) (λ h. record h { hashsum = hashsum }) rows h e its
          ∙ ap (λ u. some (hash_row u)) id
    ]
  where
    hash_row : ℕ → HashRow
    hash_row u = record { userid = u; hashsum = hashsum }

-- Whoever asks for a reset with an address that belongs to an account gets the account by the token within
-- the next hour, and sets its password then: the request, the page and, after the page, the reset all succeed,
-- and what is stored for the account is the hash of the new password. The password is long enough, no other
-- request has a token with the same hash, and the account has one stored password.
pub reset-request_reset :
    (mail : Hashes) (address email token password ip : Str) (l : Address) (later last : ℕ)
    (db : Accounts)
    → normalize_address address ≡ some email
    → exists (λ f. same f.token_sha256 (mail.hash_token token)) db.forgotten ≡ false
    → find_reset_target mail email db.logins ≡ some l
    → (count (λ h. h.userid == l.userid) db.hashes == 1) ≡ true
    → password_secure password ≡ true
    → later ≤ db.now + one_hour
    → last ≤ db.now + one_hour
    → let (asked, requested) = request_reset mail address token db in
      let opened : Accounts = record requested { now = later } in
      let (page, prepared) = prepare mail token opened in
      let answered : Accounts = record prepared { now = last } in
      let (changed, after) = reset mail token password l.userid ip answered in
      (asked ≡ ok tt)
      × (page ≡ ok (target l))
      × (changed ≡ ok tt)
      × (first (λ h. h.userid == l.userid) after.hashes
          ≡ some (record { userid = l.userid; hashsum = mail.passhash password }))
reset-request_reset mail address email token password ip l later last db n u t c s i j =
    let row = new_row mail email token db in
    let opened : Accounts = record db { forgotten = insert row db.forgotten; now = later } in
    let kept = delete (λ f. ltb (f.created_at + one_hour) later) (insert row db.forgotten) in
    let answered : Accounts = record opened { forgotten = kept; now = last } in
    let live =
      first-insert_new (mail.hash_token token) (λ f. leb later (f.created_at + one_hour)) row
        db.forgotten (same_refl (mail.hash_token token)) (ground arith) u in
    let still =
      first-live_kept (mail.hash_token token) later last row db.forgotten
        (same_refl (mail.hash_token token)) i j u in
    let changed = reset_live mail token password ip row l answered s still t c in
    let (_, stored) = reset-ok mail token password l.userid ip answered changed in
    rw (request_reset-ok mail address email token db n u, prepare-state mail token opened)
      (
        refl,
        prepare_live mail token row l opened live t,
        changed,
        rw stored (first-set_hash l.userid (mail.passhash password) db.hashes c),
      )
