-- ===== src/Tests/Access.antt =====
-- weasyl/two_factor_auth.py on small inputs, with stand-ins for the libraries: a secret is its own
-- token, a response is right if it is the secret, and a hash is the code itself.
use weasyl.Prelude.{◌≤◌, some, [], ◌∷◌}
use weasyl.Database.{Str}
use weasyl.Prelude.Strings.{same}
use weasyl.TwoFactor.{Crypto, Accounts, get_number_of_recovery_codes, accepted}
use weasyl.TwoFactor.Codes.{accepted-le}

abbrev stand_in : Crypto
stand_in = record {
  encrypt = λ s. s;
  decrypt = some;
  verify_totp = λ window secret response. same secret response;
  hashpw = λ salt code. code;
  checkpw = same;
  upper = λ s. s;
}

-- "AAAAAAAAAAAAAAAAAAAA"
abbrev code : Str
code =
    65 ∷ 65 ∷ 65 ∷ 65 ∷ 65 ∷ 65 ∷ 65 ∷ 65 ∷ 65 ∷ 65 ∷ 65 ∷ 65 ∷ 65 ∷ 65 ∷ 65 ∷ 65 ∷ 65 ∷ 65 ∷ 65
    ∷ 65 ∷ []

abbrev accounts : Accounts
accounts = record {
  logins = record { userid = 1; twofa_secret = some (1 ∷ 2 ∷ 3 ∷ 4 ∷ 5 ∷ 6 ∷ []) } ∷ [];
  recovery_codes = record { userid = 1; recovery_code_hash = code } ∷ [];
}

accepted-le_example :
    accepted stand_in 1 (code ∷ code ∷ []) accounts ≤ get_number_of_recovery_codes 1 accounts
accepted-le_example = accepted-le stand_in 1 (code ∷ code ∷ []) accounts
