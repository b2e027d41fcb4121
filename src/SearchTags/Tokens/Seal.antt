-- ===== src/SearchTags/Tokens/Seal.antt =====
-- A token names its suggester for its own post and tag, while it is valid, and no other.
use mathlib.Core.List.{append_assoc}
use weasyl.Prelude.{
  ℕ, ◌+◌, ◌≡◌, ◌≢◌, ◌⊎◌, refl, sym, ap, subst, ◌∙◌, true, ◌&&◌, some, none, [], ◌∷◌, ◌++◌, arith,
  ltb, if◌then◌else◌, length, take, drop, length-append, take-append, drop-append, inl, inr,
}
use weasyl.Database.{Str, FavoriteType, ok, err, unexpected, undo_expired, invalid_tag}
use weasyl.SearchTags.Tokens.{
  Aead, fits, pack, unpack, type_code, pack_aad, undo_token_create, unpack_user, validate_header,
  undo_token_validate,
}

unpack-pack : (n : ℕ) → fits n ≡ true → unpack (pack n) ≡ some n
unfolding unpack pack
unpack-pack n h = ap some (ground arith)

-- The parts of a token.
module _ (nonce stamp sealed : Str) (size : length nonce ≡ 12) (four : length stamp ≡ 4) where
  nonce_of : take 12 (nonce ++ stamp ++ sealed) ≡ nonce
  nonce_of =
      subst (λ n. take n (nonce ++ stamp ++ sealed) ≡ nonce) size
        (subst (λ t. take (length nonce) t ≡ nonce) (sym (append_assoc nonce stamp sealed))
          (take-append nonce (stamp ++ sealed)))

  behind_nonce : drop 12 (nonce ++ stamp ++ sealed) ≡ stamp ++ sealed
  behind_nonce =
      subst (λ n. drop n (nonce ++ stamp ++ sealed) ≡ stamp ++ sealed) size
        (subst (λ t. drop (length nonce) t ≡ stamp ++ sealed)
          (sym (append_assoc nonce stamp sealed)) (drop-append nonce (stamp ++ sealed)))

  stamp_of : take 4 (drop 12 (nonce ++ stamp ++ sealed)) ≡ stamp
  stamp_of =
      ap (take 4) behind_nonce
      ∙ subst (λ n. take n (stamp ++ sealed) ≡ stamp) four (take-append stamp sealed)

  sealed_of : drop 16 (nonce ++ stamp ++ sealed) ≡ sealed
  sealed_of =
      subst (λ n. drop n (nonce ++ stamp ++ sealed) ≡ sealed) {y = 16}
        (omega (arith, length-append nonce stamp, size, four)) (drop-append (nonce ++ stamp) sealed)

length-pack : (n : ℕ) → length (pack n) ≡ 4
unfolding pack
length-pack n = refl

length-pack_aad :
    (time target tagid : ℕ) (feature : FavoriteType)
    → length (pack_aad time target tagid feature) ≡ 13
unfolding pack_aad pack
length-pack_aad time target tagid feature = refl

-- What the code relies on of `ChaCha20Poly1305`: the sealed text is longer by a tag of 16 bytes, and
-- opens with the same nonce and the same authenticated data, here of 13 bytes.
abbrev pub Opens : Aead → Type 0
Opens key =
    (nonce text aad : Str)
    → length aad ≡ 13
    → (length (key.encrypt nonce text aad) ≡ length text + 16)
      × (key.decrypt nonce (key.encrypt nonce text aad) aad ≡ some text)

-- It does not open with other authenticated data.
abbrev pub Authenticates : Aead → Type 0
Authenticates key =
    (nonce text aad other : Str)
    → length aad ≡ 13
    → length other ≡ 13
    → aad ≢ other
    → key.decrypt nonce (key.encrypt nonce text aad) other ≡ none

module _ (key : Aead) (opens : Opens key) (nonce : Str) (size : length nonce ≡ 12) (created now : ℕ)
    (feature : FavoriteType) (target tagid added_by : ℕ) where
  abbrev sealed_user : Str
  sealed_user = key.encrypt nonce (pack added_by) (pack_aad created target tagid feature)

  abbrev token_text : Str
  token_text = nonce ++ pack created ++ sealed_user

  token-length : length token_text ≡ 36
  token-length = omega (
    arith,
    length-append (nonce ++ pack created) sealed_user,
    length-append nonce (pack created),
    length-pack created,
    length-pack added_by,
    (opens nonce (pack added_by) (pack_aad created target tagid feature)
        (length-pack_aad created target tagid feature)).0,
    size,
  )

  -- A token is read back into its parts.
  validate-token :
      (f : FavoriteType) (id tag : ℕ)
      → fits created ≡ true
      → undo_token_validate key now f id tag token_text
        ≡ validate_header key now f id tag nonce sealed_user (some created)
  unfolding undo_token_validate
  validate-token f id tag h =
      rw
        (
          token-length,
          nonce_of nonce (pack created) sealed_user size (length-pack created),
          stamp_of nonce (pack created) sealed_user size (length-pack created),
          sealed_of nonce (pack created) sealed_user size (length-pack created),
          unpack-pack created h,
        )
        refl

opened :
    (key : Aead) (opens : Opens key) (nonce : Str) (added_by : ℕ) (aad : Str)
    → length aad ≡ 13
    → fits added_by ≡ true
    → unpack_user (key.decrypt nonce (key.encrypt nonce (pack added_by) aad) aad) ≡ ok added_by
opened key opens nonce added_by aad size h =
    rw ((opens nonce (pack added_by) aad size).1, unpack_user, unpack-pack added_by h) refl

-- `_undo_token_validate` answers a token that `_undo_token_create` made, for the same post and tag, with
-- the user it was made for; from 61 seconds after its time on it raises `UndoExpired`, and more than
-- two seconds before its time it raises `Unexpected`. The cipher opens what it sealed, with a tag of
-- 16 bytes, and the nonce has 12 bytes.
pub undo_token_validate-create :
    (key : Aead) (opens : Opens key) (nonce : Str) (created now : ℕ) (feature : FavoriteType)
    (target tagid added_by : ℕ) (token : Str)
    → length nonce ≡ 12
    → undo_token_create key nonce created feature target tagid added_by ≡ ok token
    → undo_token_validate key now feature target tagid token ≡ (
        if ltb (created + 60) now
        then err undo_expired
        else if ltb (now + 2) created
        then err unexpected
        else ok added_by)
unfolding undo_token_create validate_header
undo_token_validate-create key opens nonce created now feature target tagid added_by token size
      made =
    let fit : (fits created && (fits target && (fits tagid && fits added_by))) ≡ true =
      ground arith in
    let fitting : (fits target ≡ true) × (fits tagid ≡ true) × (fits added_by ≡ true) =
      (ground arith, ground arith, ground arith) in
    let same : nonce
          ++ pack created
          ++ key.encrypt nonce (pack added_by) (pack_aad created target tagid feature)
        ≡ token =
      ground arith in
    subst
      (λ t. undo_token_validate key now feature target tagid t ≡ (
        if ltb (created + 60) now
        then err undo_expired
        else if ltb (now + 2) created
        then err unexpected
        else ok added_by))
      same
      (validate-token key opens nonce size created now feature target tagid added_by feature target
          tagid (ground arith)
        ∙ rw
            (
              fitting.0,
              fitting.1,
              opened key opens nonce added_by (pack_aad created target tagid feature)
                  (length-pack_aad created target tagid feature) fitting.2,
            )
            refl)

unpack_injective : (a b : ℕ) → fits a ≡ true → fits b ≡ true → pack a ≡ pack b → a ≡ b
unpack_injective a b ha hb e =
    let both : some a ≡ some b = sym (unpack-pack a ha) ∙ ap unpack e ∙ unpack-pack b hb in
    ground arith

abbrev first_of : Str → ℕ
first_of [] = 0
first_of (c ∷ s) = c

-- The authenticated data names the post and the tag.
pack_aad_injective :
    (time target tagid id tag : ℕ) (feature f : FavoriteType)
    → (fits target && (fits tagid && (fits id && fits tag))) ≡ true
    → pack_aad time target tagid feature ≡ pack_aad time id tag f
    → (type_code feature ≡ type_code f) × (target ≡ id) × (tagid ≡ tag)
unfolding pack_aad pack
pack_aad_injective time target tagid id tag feature f h e = (
  ap (λ x. first_of (drop 12 x)) e,
  unpack_injective target id (ground arith) (ground arith) (ap (λ x. take 4 (drop 4 x)) e),
  unpack_injective tagid tag (ground arith) (ground arith) (ap (λ x. take 4 (drop 8 x)) e),
)

-- What `validate_header` accepts has been opened.
validate_header-ok :
    (key : Aead) (now : ℕ) (feature : FavoriteType) (target tagid : ℕ) (nonce sealed : Str)
    (timestamp user : ℕ)
    → validate_header key now feature target tagid nonce sealed (some timestamp) ≡ ok user
    → (fits target ≡ true)
      × (fits tagid ≡ true)
      × (unpack_user (key.decrypt nonce sealed (pack_aad timestamp target tagid feature)) ≡ ok user)
unfolding validate_header
validate_header-ok key now feature target tagid nonce sealed timestamp user h =
    (ground arith, ground arith, ground arith)

-- A token that was made for one post and tag restores nobody's suggestion of another post, or of
-- another tag: no call of `_undo_token_validate` with those accepts it, at whatever time. The cipher does
-- not open a text with other authenticated data, adds a tag of 16 bytes, and the nonce has 12 bytes.
pub undo_token_validate_other :
    (key : Aead) (opens : Opens key) (authenticates : Authenticates key) (nonce : Str)
    (created now : ℕ) (feature f : FavoriteType) (target id tagid tag added_by user : ℕ)
    (token : Str)
    → length nonce ≡ 12
    → undo_token_create key nonce created feature target tagid added_by ≡ ok token
    → ((type_code feature ≢ type_code f) ⊎ ((target ≢ id) ⊎ (tagid ≢ tag)))
    → undo_token_validate key now f id tag token ≢ ok user
unfolding undo_token_create
undo_token_validate_other key opens authenticates nonce created now feature f target id tagid tag
      added_by user token size made differs accepted =
    let fit : (fits created ≡ true) × (fits target ≡ true) × (fits tagid ≡ true) =
      (ground arith, ground arith, ground arith) in
    let same : nonce
          ++ pack created
          ++ key.encrypt nonce (pack added_by) (pack_aad created target tagid feature)
        ≡ token =
      ground arith in
    let read =
      sym (
        validate-token key opens nonce size created now feature target tagid added_by f id tag
          fit.0)
      ∙ subst (λ t. undo_token_validate key now f id tag t ≡ ok user) (sym same) accepted in
    let (fits_id, fits_tag, opens_to) =
      validate_header-ok key now f id tag nonce _ created user read in
    let other : pack_aad created target tagid feature ≢ pack_aad created id tag f = λ e.
      let all_same = pack_aad_injective created target tagid id tag feature f (ground arith) e in
      elim differs [
        | inl ne ↦ ne all_same.0
        | inr (inl ne) ↦ ne all_same.1
        | inr (inr ne) ↦ ne all_same.2
      ] in
    let closed : unpack_user (
          key.decrypt nonce
            (key.encrypt nonce (pack added_by) (pack_aad created target tagid feature))
            (pack_aad created id tag f))
        ≡ err invalid_tag =
      rw
        (authenticates nonce (pack added_by) (pack_aad created target tagid feature)
          (pack_aad created id tag f) (length-pack_aad created target tagid feature)
          (length-pack_aad created id tag f) other)
        refl in
    absurd (ground (arith, opens_to, closed))
