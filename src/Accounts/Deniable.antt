-- ===== src/Accounts/Deniable.antt =====
-- The plausible deniability of addresses in `create` of weasyl/login.py.
use weasyl.Prelude.{
  ◌≡◌, ◌∙◌, refl, sym, ap, inl, inr, Bool-cases, Bool, true, false, not, ◌&&◌, List, [], ◌∷◌, arith,
  if◌then◌else◌,
}
use weasyl.Prelude.Strings.{same}
use weasyl.Sql.{exists}
use weasyl.Database.{Str, ok, err, username_exists_error}
use weasyl.Users.{Username}
use weasyl.Accounts.Checked.{create-cases}
use weasyl.Accounts.{
  Services, AccountDb, PendingRow, SignUpForm, delete_expired, email_exists, username_exists,
  pending_row, clashes, insert_pending, create_pending, create,
}

-- The token is new: no pending account has it, as its token or in place of its address.
abbrev pub is_fresh : Str → AccountDb → Bool
is_fresh token db =
    not (exists (λ r. same r.token token) db.pending)
    && not (exists (λ r. same r.email token) db.pending)

-- The row of `create` clashes with none.
pub exists-clashes :
    (row : PendingRow) (token sysname email : Str) (rows : List PendingRow)
    → row.token ≡ token
    → row.login_name ≡ sysname
    → row.email ≡ email
    → exists (λ r. same r.token token) rows ≡ false
    → exists (λ r. same r.login_name sysname) rows ≡ false
    → exists (λ r. same r.email email) rows ≡ false
    → exists (clashes row) rows ≡ false
exists-clashes row token sysname email [] a b c t l e = refl
exists-clashes row token sysname email (r ∷ rows) a b c t l e =
    rw (a, b, c) (ground (arith, exists-clashes row token sysname email rows a b c))

-- Only the name decides about the answer.
create_pending-answer :
    (s : Services) (name : Username) (email password token : Str) (db : AccountDb)
    → is_fresh token db ≡ true
    → (create_pending s name email password token db).0
      ≡ (if username_exists name.sysname db then err username_exists_error else ok tt)
unfolding create_pending insert_pending username_exists email_exists
create_pending-answer s name email password token db fresh =
    elim (Bool-cases (username_exists name.sysname db)) [
      | inl e ↦ rw (create_pending, e) refl
      | inr n ↦ elim (Bool-cases (email_exists email db)) [
        | inl e ↦
            let row = pending_row s name email password token db in
            let free =
              exists-clashes row token name.sysname token db.pending refl refl (rw e refl)
                (ground arith) (ground arith) (ground arith) in
            rw (create_pending, n) (rw (insert_pending, free) refl)
        | inr e ↦
            let row = pending_row s name email password token db in
            let free =
              exists-clashes row token name.sysname email db.pending refl refl (rw e refl)
                (ground arith) (ground arith) (ground arith) in
            rw (create_pending, n) (rw (insert_pending, free) refl)
      ]
    ]

-- The answer to whoever signs up says nothing of the addresses that are in use: on two databases on which the
-- same names exist, once expired requests are deleted, it is the same. The token is new on both.
pub create-username_exists :
    (s : Services) (form : SignUpForm) (token : Str) (db db' : AccountDb)
    → ((n : Str) → username_exists n (delete_expired db) ≡ username_exists n (delete_expired db'))
    → is_fresh token (delete_expired db) ≡ true
    → is_fresh token (delete_expired db') ≡ true
    → (create s form token db).0 ≡ (create s form token db').0
create-username_exists s form token db db' names fresh fresh' = elim (create-cases s form token) [
  | inl (e, refused) ↦ rw (refused db, refused db') refl
  | inr (name, email, made, accepted) ↦
      rw (accepted db, accepted db')
        (create_pending-answer s name email form.password token (delete_expired db) fresh
          ∙ ap (λ b. if b then err username_exists_error else ok tt) (names name.sysname)
          ∙ sym
              (create_pending-answer s name email form.password token (delete_expired db') fresh'))
]
