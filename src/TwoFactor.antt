-- ===== src/TwoFactor.antt =====
-- weasyl/two_factor_auth.py. What pyotp, bcrypt, Fernet and `str.upper` compute is the interface
-- `Crypto`; the making of secrets, recovery codes and QR codes is left out. A call that raises, since
-- there is no secret or it cannot be decrypted, returns `none`.
pub mod Codes
use weasyl.Prelude.{
  ℕ, suc, ◌+◌, Bool, true, false, not, ◌&&◌, Option, none, some, List, [], ◌∷◌, ◌++◌, ◌==◌,
  if◌then◌else◌, length, all,
}
use weasyl.Sql.{select, first, count, delete, update}
use weasyl.Database.{Str}
use weasyl.Forms.Text.{filter, split}
use weasyl.Prelude.Strings.{same}

pub record Crypto : Type 0 where
  -- Fernet, with the key of the configuration
  pub encrypt : Str → Str
  pub decrypt : Str → Option Str
  -- `pyotp.TOTP(secret).verify(response, valid_window=…)` at the time of the call
  pub verify_totp : ℕ → Str → Str → Bool
  -- `bcrypt.hashpw` with the n-th salt, and `bcrypt.checkpw`
  pub hashpw : ℕ → Str → Str
  pub checkpw : Str → Str → Bool
  pub upper : Str → Str

-- What is read of `login`, and `twofa_recovery_codes`.
pub record Login : Type 0 where
  pub userid : ℕ
  pub twofa_secret : Option Str

pub record RecoveryCode : Type 0 where
  pub userid : ℕ
  pub recovery_code_hash : Str

pub record Accounts : Type 0 where
  pub logins : List Login
  pub recovery_codes : List RecoveryCode

abbrev pub recovery_codes_stored : ℕ
recovery_codes_stored = 10

abbrev pub length_recovery_code : ℕ
length_recovery_code = 20

abbrev pub length_totp_code : ℕ
length_totp_code = 6

abbrev pub is_login : ℕ → Login → Bool
is_login userid l = l.userid == userid

abbrev pub is_code_of : ℕ → RecoveryCode → Bool
is_code_of userid c = c.userid == userid

abbrev pub set_secret : Option Str → Login → Login
set_secret secret l = record l { twofa_secret = secret }

-- `SELECT twofa_secret FROM login`, where no row reads as `NULL` does.
pub stored_secret : ℕ → Accounts → Option Str
stored_secret userid db = elim (first (is_login userid) db.logins) [
  | none ↦ none
  | some l ↦ l.twofa_secret
]

-- `is_2fa_enabled`; for no row it is `None`, which is false.
pub is_2fa_enabled : ℕ → Accounts → Bool
is_2fa_enabled userid db = elim (stored_secret userid db) [ none ↦ false | some secret ↦ true ]

-- `get_number_of_recovery_codes`
pub get_number_of_recovery_codes : ℕ → Accounts → ℕ
get_number_of_recovery_codes userid db = count (is_code_of userid) db.recovery_codes

-- `force_deactivate`
pub force_deactivate : ℕ → Accounts → Accounts
force_deactivate userid db = record db {
  logins = update (is_login userid) (set_secret none) db.logins;
  recovery_codes = delete (is_code_of userid) db.recovery_codes;
}

abbrev pub is_hash_of : ℕ → Str → RecoveryCode → Bool
is_hash_of userid hash c = c.userid == userid && same c.recovery_code_hash hash

module _ (crypto : Crypto) where
  open crypto use {encrypt, decrypt, verify_totp, hashpw, checkpw, upper}

  -- `activate`
  pub activate : ℕ → Str → Str → Accounts → Bool × Accounts
  activate userid tfa_secret tfa_response db =
      if verify_totp 1 tfa_secret tfa_response
      then (
        true,
        record db {
          logins = update (is_login userid) (set_secret (some (encrypt tfa_secret))) db.logins;
        },
      )
      else (false, db)

  -- The `n`-th code and the ones behind it, each hashed with a salt of its own.
  pub hash_codes : ℕ → ℕ → List Str → List RecoveryCode
  hash_codes userid n [] = []
  hash_codes userid n (code ∷ codes) =
      record { userid = userid; recovery_code_hash = hashpw n code }
      ∷ hash_codes userid (n + 1) codes

  -- `store_recovery_codes`
  pub store_recovery_codes : ℕ → Str → Accounts → Bool × Accounts
  store_recovery_codes userid recovery_codes db =
      let codes = split b',' (upper recovery_codes) in
      if not (length codes == recovery_codes_stored)
      then (false, db)
      else if not (all (λ code. length code == length_recovery_code) codes)
      then (false, db)
      else (
        true,
        record db {
          recovery_codes =
              delete (is_code_of userid) db.recovery_codes ++ hash_codes userid 0 codes;
        },
      )

  -- The loop of `is_recovery_code_valid`: the first hash that the code matches.
  pub matching : Str → List RecoveryCode → Option Str
  matching tfa_code [] = none
  matching tfa_code (row ∷ rows) =
      if checkpw (upper tfa_code) row.recovery_code_hash
      then some row.recovery_code_hash
      else matching tfa_code rows

  -- `is_recovery_code_valid`
  pub is_recovery_code_valid : ℕ → Str → Bool → Accounts → Bool × Accounts
  is_recovery_code_valid userid tfa_code consume db =
      if not (length tfa_code == length_recovery_code)
      then (false, db)
      else elim (matching tfa_code (select (is_code_of userid) db.recovery_codes)) [
        | none ↦ (false, db)
        | some hash ↦
            if consume
            then (
              true,
              record db { recovery_codes = delete (is_hash_of userid hash) db.recovery_codes },
            )
            else (true, db)
      ]

  -- `_decrypt_totp_secret` of the secret in `login`.
  pub totp_secret : ℕ → Accounts → Option Str
  totp_secret userid db = elim (stored_secret userid db) [
    | none ↦ none
    | some encrypted ↦ decrypt encrypted
  ]

  -- `verify`
  pub verify : ℕ → Str → Bool → Accounts → Option (Bool × Accounts)
  verify userid response consume db =
      let tfa_response = filter (λ c. not (c == b' ')) response in
      if length tfa_response == length_totp_code
      then elim (totp_secret userid db) [
        | none ↦ none
        | some secret ↦ some (verify_totp 0 secret tfa_response, db)
      ]
      else if length tfa_response == length_recovery_code
      then some (is_recovery_code_valid userid tfa_response consume db)
      else some (false, db)

  -- `deactivate`
  pub deactivate : ℕ → Str → Accounts → Option (Bool × Accounts)
  deactivate userid tfa_response db = elim (verify userid tfa_response true db) [
    | none ↦ none
    | some (verified, db') ↦
        if verified then some (true, force_deactivate userid db') else some (false, db')
  ]

  -- How many of the codes a run of calls of `is_recovery_code_valid` that consume them accepts.
  pub accepted : ℕ → List Str → Accounts → ℕ
  accepted userid [] db = 0
  accepted userid (code ∷ codes) db =
      let (valid, db') = is_recovery_code_valid userid code true db in
      let rest = accepted userid codes db' in if valid then suc rest else rest
