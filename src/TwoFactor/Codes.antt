-- ===== src/TwoFactor/Codes.antt =====
-- weasyl/two_factor_auth.py: recovery codes are used up, and what turning 2FA off leaves.
use weasyl.Prelude.{
  ℕ, ◌+◌, ◌≤◌, ◌≡◌, ◌≢◌, ◌⊎◌, refl, Bool, true, false, not, ◌&&◌, some, none, List, [], ◌∷◌, arith,
  ◌==◌, if◌then◌else◌, length, all, Bool-cases, Option-cases, inl, inr,
}
use weasyl.Sql.{select, first, count, delete, update}
use weasyl.Sql.Laws.{count-append, count-delete_part, count-delete_implied, count-delete_other}
use weasyl.Database.{Str}
use weasyl.Forms.Text.{split, filter}
use weasyl.Prelude.Strings.{same_refl}
use weasyl.TwoFactor.{
  Crypto, Login, RecoveryCode, Accounts, recovery_codes_stored, length_recovery_code, is_login,
  is_code_of, set_secret, stored_secret, is_2fa_enabled, get_number_of_recovery_codes,
  force_deactivate, is_hash_of, hash_codes, store_recovery_codes, matching, is_recovery_code_valid,
  verify, deactivate, accepted,
}

module _ (crypto : Crypto) where
  -- The hash that matches is one of the user's.
  matching-count :
      (userid : ℕ) (code : Str) (rows : List RecoveryCode) (hash : Str)
      → matching crypto code (select (is_code_of userid) rows) ≡ some hash
      → 1 ≤ count (is_hash_of userid hash) rows
  unfolding matching
  matching-count userid code [] hash e = cc
  matching-count userid code (row ∷ rows) hash e =
      ground (arith, matching-count userid code rows hash, same_refl row.recovery_code_hash)

  valid-count :
      (userid : ℕ) (code : Str) (db : Accounts)
      → let (valid, db') = is_recovery_code_valid crypto userid code true db in
        (if valid then 1 else 0) + count (is_code_of userid) db'.recovery_codes
        ≤ count (is_code_of userid) db.recovery_codes
  unfolding is_recovery_code_valid
  valid-count userid code db =
      elim (Option-cases (matching crypto code (select (is_code_of userid) db.recovery_codes))) [
        | inl e ↦ ground (arith, e)
        | inr (hash, e) ↦
            let used = matching-count userid code db.recovery_codes hash e in
            let part =
              count-delete_part (is_hash_of userid hash) (is_code_of userid) db.recovery_codes
                (λ r h. ground arith) in
            ground (arith, e, used, part)
      ]

  -- Every accepted recovery code uses up a stored one: no run of attempts, with any codes, has more
  -- accepted than the user has stored codes.
  pub accepted-le :
      (userid : ℕ) (codes : List Str) (db : Accounts)
      → accepted crypto userid codes db ≤ get_number_of_recovery_codes userid db
  unfolding accepted get_number_of_recovery_codes
  accepted-le userid [] db = omega arith
  accepted-le userid (code ∷ codes) db =
      let (valid, db') = is_recovery_code_valid crypto userid code true db in
      ground (arith, valid-count userid code db, accepted-le userid codes db')

  count-hash_codes :
      (userid n : ℕ) (codes : List Str)
      → count (is_code_of userid) (hash_codes crypto userid n codes) ≡ length codes
  unfolding hash_codes
  count-hash_codes userid n [] = refl
  count-hash_codes userid n (code ∷ codes) = ground (arith, count-hash_codes userid (n + 1) codes)

  count-hash_codes_other :
      (userid other n : ℕ) (codes : List Str)
      → userid ≢ other
      → count (is_code_of other) (hash_codes crypto userid n codes) ≡ 0
  unfolding hash_codes
  count-hash_codes_other userid other n [] ne = refl
  count-hash_codes_other userid other n (code ∷ codes) ne =
      ground (arith, count-hash_codes_other userid other (n + 1) codes ne)

  -- Storing recovery codes that are refused changes nothing; storing accepted ones leaves the user
  -- with exactly 10 codes, however many were stored before, and everyone else with their own.
  pub store_recovery_codes_lem :
      (userid other : ℕ) (codes : Str) (db : Accounts)
      → userid ≢ other
      → let (stored, db') = store_recovery_codes crypto userid codes db in
        ((stored ≡ false) × (db' ≡ db))
        ⊎ ((stored ≡ true)
            × (get_number_of_recovery_codes userid db' ≡ 10)
            × (get_number_of_recovery_codes other db' ≡ get_number_of_recovery_codes other db))
  unfolding store_recovery_codes get_number_of_recovery_codes
  store_recovery_codes_lem userid other codes db ne =
      let list = split b',' (crypto.upper codes) in
      elim (Bool-cases (
        length list == recovery_codes_stored
        && all (λ code. length code == length_recovery_code) list)) [
          | inr refused ↦ inl (ground arith, ground arith)
          | inl fine ↦
              let kept = delete (is_code_of userid) db.recovery_codes in
              let hashed = hash_codes crypto userid 0 list in
              inr (
                ground arith,
                ground (
                  arith,
                  count-append (is_code_of userid) kept hashed,
                  count-delete_implied (is_code_of userid) (is_code_of userid) db.recovery_codes
                      (λ r h. h),
                  count-hash_codes userid 0 list,
                ),
                ground (
                  arith,
                  count-append (is_code_of other) kept hashed,
                  count-delete_other (is_code_of userid) (is_code_of other) db.recovery_codes
                      (λ r h. ground arith),
                  count-hash_codes_other userid other 0 list ne,
                ),
              )
        ]

  first-update-none :
      (userid : ℕ) (logins : List Login)
      → (elim (first (is_login userid) (update (is_login userid) (set_secret none) logins)) [
        | none ↦ none
        | some l ↦ l.twofa_secret
      ])
        ≡ none
  first-update-none userid [] = refl
  first-update-none userid (l ∷ logins) = elim (Bool-cases (l.userid == userid)) [
    | inl y ↦ rw (y, y) refl
    | inr n ↦ rw (n, n) (first-update-none userid logins)
  ]

  no_secret :
      (userid : ℕ) (db : Accounts) → stored_secret userid (force_deactivate userid db) ≡ none
  unfolding stored_secret force_deactivate
  no_secret userid db = first-update-none userid db.logins

  off : (userid : ℕ) (db : Accounts) → is_2fa_enabled userid (force_deactivate userid db) ≡ false
  unfolding is_2fa_enabled
  off userid db = ground (arith, no_secret userid db)

  no_codes :
      (userid : ℕ) (db : Accounts)
      → get_number_of_recovery_codes userid (force_deactivate userid db) ≡ 0
  unfolding get_number_of_recovery_codes force_deactivate
  no_codes userid db =
      count-delete_implied (is_code_of userid) (is_code_of userid) db.recovery_codes (λ r h. h)

  valid-false :
      (userid : ℕ) (code : Str) (consume : Bool) (db : Accounts)
      → (is_recovery_code_valid crypto userid code consume db).0 ≡ false
      → (is_recovery_code_valid crypto userid code consume db).1 ≡ db
  unfolding is_recovery_code_valid
  valid-false userid code consume db h =
      elim (Option-cases (matching crypto code (select (is_code_of userid) db.recovery_codes))) [
        | inl e ↦ ground (arith, e)
        | inr (hash, e) ↦ ground (arith, e)
      ]

  verify-false :
      (userid : ℕ) (response : Str) (db after : Accounts)
      → verify crypto userid response true db ≡ some (false, after)
      → after ≡ db
  unfolding verify
  verify-false userid response db after e =
      ground (arith, valid-false userid (filter (λ c. not (c == b' ')) response) true db)

  -- Turning 2FA off either raises, or fails and changes nothing, or leaves the user with no secret
  -- and no recovery codes.
  pub deactivate_lem :
      (userid : ℕ) (response : Str) (db : Accounts)
      → (deactivate crypto userid response db ≡ none)
        ⊎ ((deactivate crypto userid response db ≡ some (false, db))
            ⊎ ((db' : Accounts) × (deactivate crypto userid response db ≡ some (true, db'))
                × (is_2fa_enabled userid db' ≡ false)
                × (get_number_of_recovery_codes userid db' ≡ 0)))
  unfolding deactivate
  deactivate_lem userid response db = elim (Option-cases (verify crypto userid response true db)) [
    | inl e ↦ inl (ground (arith, e))
    | inr ((verified, after), e) ↦ elim (Bool-cases verified) [
      | inr failed ↦ inr (inl (ground (arith, e, verify-false userid response db after)))
      | inl passed ↦ inr (
          inr (
            force_deactivate userid after,
            ground (arith, e),
            off userid after,
            no_codes userid after,
          ))
    ]
  ]
