-- ===== src/Accounts/Checked.antt =====
-- `create` of weasyl/login.py first checks the form alone.
use weasyl.Prelude.{◌≡◌, ◌⊎◌, refl, inl, inr, Bool-cases, Option-cases}
use weasyl.Database.{Str, Error, err}
use weasyl.Users
use weasyl.Users.{Username, Created-cases}
use weasyl.ResetPassword.{password_secure}
use weasyl.ResetPassword.Addresses.{normalize_address}
use weasyl.Accounts.{
  Services, AccountDb, SignUpForm, name_error, is_13, is_email_blacklisted, delete_expired,
  create_pending, create,
}
use weasyl.Database.{birthday_invalid, password_insecure, email_invalid, email_blacklisted}

-- The form is refused, whatever the tables hold.
abbrev pub IsRefused : Services → SignUpForm → Str → Type 0
IsRefused s form token = (e : Error) × ((db : AccountDb) → create s form token db ≡ (err e, db))

-- The form is good, and the rest of the call is about its name and address.
abbrev pub IsAccepted : Services → SignUpForm → Str → Type 0
IsAccepted s form token =
    (name : Username) × (email : Str) × (Users.create s.unicode form.username ≡ Users.created name)
    × ((db : AccountDb)
        → create s form token db
          ≡ create_pending s name email form.password token (delete_expired db))

pub create-cases :
    (s : Services) (form : SignUpForm) (token : Str)
    → IsRefused s form token ⊎ IsAccepted s form token
unfolding create
create-cases s form token = elim (Created-cases (Users.create s.unicode form.username)) [
  | inr (e, made) ↦ inl (name_error e, λ db. rw (create, made) refl)
  | inl (name, made) ↦ elim (Bool-cases (is_13 form.age)) [
    | inr e ↦ inl (birthday_invalid, λ db. rw (create, made, e) refl)
    | inl a ↦ elim (Bool-cases (password_secure form.password)) [
      | inr e ↦ inl (password_insecure, λ db. rw (create, made, a, e) refl)
      | inl p ↦ elim (Option-cases (normalize_address form.email)) [
        | inl e ↦ inl (email_invalid, λ db. rw (create, made, a, p, e) refl)
        | inr (email, m) ↦ elim (Bool-cases (is_email_blacklisted s email)) [
          | inl e ↦ inl (email_blacklisted, λ db. rw (create, made, a, p, m, e) refl)
          | inr e ↦ inr (name, email, made, λ db. rw (create, made, a, p, m, e) refl)
        ]
      ]
    ]
  ]
]
