-- ===== src/SearchTags/Tokens.antt =====
-- Undo tokens in weasyl/searchtag.py: the user who suggested a tag, sealed for one post and one tag.
pub mod Seal
use weasyl.Prelude.{
  ℕ, ◌+◌, ◌*◌, ◌/◌, ◌%◌, ◌^◌, Bool, true, false, not, ◌&&◌, Option, none, some, List, [], ◌∷◌, ◌++◌,
  ◌==◌, ltb, if◌then◌else◌, length, take, drop,
}
use weasyl.Database.{
  Str, FavoriteType, submit, char, journal, Result, ok, err, unexpected, undo_expired, invalid_tag,
  struct_error,
}

-- `ChaCha20Poly1305` with the key of the configuration: the nonce, the data and what is
-- authenticated with them. `decrypt` gives nothing where it raises `InvalidTag`.
pub record Aead : Type 0 where
  pub encrypt : Str → Str → Str → Str
  pub decrypt : Str → Str → Str → Option Str

abbrev pub undo_token_max_clock_skew : ℕ
undo_token_max_clock_skew = 2

abbrev pub undo_token_validity : ℕ
undo_token_validity = 60

-- `_UNDO_TOKEN_NONCE_SIZE`, the size of `_UNDO_HEADER`, and of the whole token with the tag of 16
-- bytes.
abbrev pub nonce_size : ℕ
nonce_size = 12

abbrev pub header_size : ℕ
header_size = 16

abbrev pub token_size : ℕ
token_size = 36

-- `Struct("<I")`: four bytes, the lowest first. `pack` raises `struct.error` for a number that does
-- not fit.
abbrev pub fits : ℕ → Bool
fits n = ltb n (2 ^ 32)

unfoldable pub pack : ℕ → Str
pack n = (n % 256) ∷ (n / 256 % 256) ∷ (n / 65536 % 256) ∷ (n / 16777216 % 256) ∷ []

unfoldable pub unpack : Str → Option ℕ
unpack (a ∷ b ∷ c ∷ d ∷ []) = some (a + b * 256 + c * 65536 + d * 16777216)
unpack _ = none

-- `type_code`
abbrev pub type_code : FavoriteType → ℕ
type_code submit = b's'
type_code char = b'c'
type_code journal = b'j'

-- `_UNDO_AAD.pack`
unfoldable pub pack_aad : ℕ → ℕ → ℕ → FavoriteType → Str
unfolding pack
pack_aad time target tagid feature =
    pack time ++ pack target ++ pack tagid ++ type_code feature ∷ []

-- `_undo_token_create`, with the random nonce and the time.
unfoldable pub undo_token_create : Aead → Str → ℕ → FavoriteType → ℕ → ℕ → ℕ → Result Str
undo_token_create key nonce now feature target tagid added_by =
    if fits now && (fits target && (fits tagid && fits added_by))
    then ok
        (nonce ++ pack now ++ key.encrypt nonce (pack added_by) (pack_aad now target tagid feature))
    else err struct_error

-- The rest of `_undo_token_validate`, from what `decrypt` gives.
abbrev pub unpack_user : Option Str → Result ℕ
unpack_user none = err invalid_tag
unpack_user (some text) = elim (unpack text) [
  | none ↦ err struct_error
  | some added_by ↦ ok added_by
]

-- The same from the nonce and the timestamp of the header.
unfoldable pub validate_header : Aead → ℕ → FavoriteType → ℕ → ℕ → Str → Str → Option ℕ → Result ℕ
validate_header key now feature target tagid nonce sealed none = err struct_error
validate_header key now feature target tagid nonce sealed (some timestamp) =
    if ltb (timestamp + undo_token_validity) now
    then err undo_expired
    else if ltb (now + undo_token_max_clock_skew) timestamp
    then err unexpected
    else if fits target && fits tagid
    then unpack_user (key.decrypt nonce sealed (pack_aad timestamp target tagid feature))
    else err struct_error

-- `_undo_token_validate`
unfoldable pub undo_token_validate : Aead → ℕ → FavoriteType → ℕ → ℕ → Str → Result ℕ
undo_token_validate key now feature target tagid token =
    if not (length token == token_size)
    then err unexpected
    else validate_header key now feature target tagid (take nonce_size token)
        (drop header_size token) (unpack (take 4 (drop nonce_size token)))
