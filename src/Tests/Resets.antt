-- ===== src/Tests/Resets.antt =====
-- weasyl/resetpassword.py and the addresses of weasyl/emailer.py on small inputs. The hashes stand in as
-- functions that add a letter.
use weasyl.Prelude.{◌≡◌, refl, arith, not, none, some, [], ◌∷◌, ◌==◌}
use weasyl.Prelude.Strings.{codes, same}
use weasyl.Sql.{first, select, update}
use weasyl.Database.{ok, err, forgotpassword_record_missing}
use weasyl.Forms.Text.{lower, strip}
use weasyl.ResetPassword.Addresses.{normalize_address}
use weasyl.ResetPassword.{
  Hashes, Address, Accounts, request_reset, find_reset_target, target, prepare, reset,
}
use weasyl.ResetPassword.Tokens.{reset_lem}
use weasyl.ResetPassword.InTime.{reset-request_reset}

normalize_address-mixed :
    normalize_address (codes " Ann@Mail.Example.COM ") ≡ some (codes "Ann@mail.example.com")
unfolding normalize_address strip
normalize_address-mixed = refl

normalize_address-no_dot : normalize_address (codes "ann@localhost") ≡ none
unfolding normalize_address strip
normalize_address-no_dot = refl

abbrev mail : Hashes
mail = record { hash_token = λ s. b'h' ∷ s; passhash = λ s. b'p' ∷ s; lower_c = lower }

abbrev ann : Address
ann = record { userid = 4; email = codes "ann@mail.example.com" }

abbrev accounts : Accounts
accounts = record {
  forgotten = [];
  logins = record { userid = 3; email = codes "bob@mail.example.com" } ∷ ann ∷ [];
  hashes =
      record { userid = 3; hashsum = codes "b" } ∷ record { userid = 4; hashsum = codes "a" } ∷ [];
  events = [];
  now = 1000;
}

find_reset_target-ann :
    find_reset_target mail (codes "ann@mail.example.com") accounts.logins ≡ some ann
unfolding find_reset_target same
find_reset_target-ann = refl

normalize_address-ann :
    normalize_address (codes "ann@mail.example.com") ≡ some (codes "ann@mail.example.com")
unfolding normalize_address strip
normalize_address-ann = refl

reset-request_reset_example :
    let (asked, requested) =
      request_reset mail (codes "ann@mail.example.com") (codes "k7") accounts in
    let opened : Accounts = record requested { now = 3000 } in
    let (page, prepared) = prepare mail (codes "k7") opened in
    let answered : Accounts = record prepared { now = 4600 } in
    let (changed, after) =
      reset mail (codes "k7") (codes "correct horse") 4 (codes "::1") answered in
    (asked ≡ ok tt)
    × (page ≡ ok (target ann))
    × (changed ≡ ok tt)
    × (first (λ h. h.userid == 4) after.hashes
        ≡ some (record { userid = 4; hashsum = codes "pcorrect horse" }))
reset-request_reset_example =
    reset-request_reset mail (codes "ann@mail.example.com") (codes "ann@mail.example.com")
      (codes "k7") (codes "correct horse") (codes "::1") ann 3000 4600 accounts
      normalize_address-ann refl find_reset_target-ann refl refl (omega arith) (omega arith)

abbrev asked_for : Accounts
asked_for = record accounts {
  forgotten =
      record { token_sha256 = codes "hk7"; email = codes "ann@mail.example.com"; created_at = 900 }
      ∷ [];
}

reset-asked_for :
    (reset mail (codes "k7") (codes "correct horse") 4 (codes "::1") asked_for).0 ≡ ok tt
unfolding reset find_reset_target same
reset-asked_for = refl

reset_lem_example :
    let after = (reset mail (codes "k7") (codes "correct horse") 4 (codes "::1") asked_for).1 in
    let state : Accounts = record after { now = 1200 } in
    (after.hashes
      ≡ update
          (λ h. h.userid == 4)
          (λ h. record h { hashsum = b'p' ∷ codes "correct horse" })
          asked_for.hashes)
    × (select (λ h. not (h.userid == 4)) after.hashes
        ≡ select (λ h. not (h.userid == 4)) asked_for.hashes)
    × (reset mail (codes "k7") (codes "battery staple") 4 (codes "::2") state
        ≡ (err forgotpassword_record_missing, state))
reset_lem_example =
    reset_lem mail (codes "k7") (codes "correct horse") 4 (codes "::1") asked_for
      (codes "battery staple") 4 1200 (codes "::2") reset-asked_for refl (omega arith)
