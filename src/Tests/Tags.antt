-- ===== src/Tests/Tags.antt =====
-- weasyl/searchtag.py on small inputs.
use weasyl.Prelude.{
  ℕ, ◌+◌, ◌≤◌, ◌≡◌, ◌≢◌, ◌⊎◌, ◌↔◌, inl, inr, refl, ap, true, false, none, some, [], ◌∷◌, ◌++◌,
  arith, all, length, take, drop, take-append, drop-append, if◌then◌else◌, ◌==◌, length-append,
  Bool-cases, ==_iff, subst,
}
use weasyl.Prelude.Int.{pos}
use weasyl.Prelude.Strings.{same, same_refl, same-eq}
use weasyl.Sql.{exists, select, elem}
use weasyl.Forms
use weasyl.Database.{Str, submit, ok, err, undo_expired}
use weasyl.SearchTags.Tables.{Tagging, tags_of}
use weasyl.SearchTags.Names.{create_names, get_ids, get_id}
use weasyl.SearchTags.Patterns.{split_star, star, parse_pattern, fullmatch}
use weasyl.SearchTags.Patterns.Stars.{is_plain, pattern_text, IsSplit, fullmatch-parse_pattern}
use weasyl.SearchTags.Associate.{associate, get_ownerid}
use weasyl.SearchTags.Associate.Rows.{is_kept, is_artist_tag}
use weasyl.SearchTags.Associate.Effects.{associate-is_kept}
use weasyl.SearchTags.Associate.Arrays.{AreSynced, is_synced, associate-AreSynced}
use weasyl.SearchTags.Associate.Owned.{is_known, associate-artist}
use weasyl.SearchTags.Tokens.{Aead, undo_token_create, undo_token_validate, pack, pack_aad}
use weasyl.SearchTags.Tokens.Seal.{
  Opens, Authenticates, undo_token_validate-create, undo_token_validate_other,
}
use weasyl.SearchTags.Suggestions.{
  reject_tag, success, suggestion_arbitrate, suggestion_action_undo,
}
use weasyl.SearchTags.Suggestions.Undo.{
  suggestion, IsRestored, suggestion_action_undo-suggestion_arbitrate,
}
use weasyl.SearchTags.Restrictions.{is_user_tag, edit_user_tag_restrictions}
use weasyl.SearchTags.Restrictions.Replaced.{edit_user_tag_restrictions_lem}
use weasyl.Tests.Users.{site, conflicts}

-- "fox", "ab" and "ab*"
abbrev fox : Str
fox = b'f' ∷ b'o' ∷ b'x' ∷ []

abbrev ab : Str
ab = b'a' ∷ b'b' ∷ []

abbrev ab_star : Str
ab_star = b'a' ∷ b'b' ∷ b'*' ∷ []

parse_pattern-ab_star : parse_pattern ab_star ≡ Forms.ok (some ab_star)
unfolding parse_pattern split_star Forms.collapse
parse_pattern-ab_star = refl

fullmatch-parse_pattern_example :
    ((all is_plain (pattern_text ab_star) ≡ true)
      × (ab_star ≡ pattern_text ab_star)
      × ((fullmatch ab_star fox ≡ true) ↔ (fox ≡ ab_star)))
    ⊎ ((prefix suffix : Str) × IsSplit (pattern_text ab_star) prefix suffix
        × (2 ≤ length prefix + length suffix)
        × (ab_star ≡ prefix ++ star ∷ suffix)
        × ((fullmatch ab_star fox ≡ true) ↔ ((mid : Str) × (fox ≡ prefix ++ mid ++ suffix))))
fullmatch-parse_pattern_example = fullmatch-parse_pattern ab_star ab_star fox parse_pattern-ab_star

-- User 1 has posted submission 7; user 3 has suggested "fox" for it, and user 2 may suggest.
abbrev pub tagged : Tagging
tagged = record {
  site = record site {
    submissions =
        record {
          submitid = 7;
          userid = 1;
          rating = 10;
          hidden = false;
          friends_only = false;
          favorites = pos 0;
          folderid = none;
          subtype = 1010;
          browse_excluded = false;
        }
        ∷ [];
    submission_tags = suggestion 7 5 3 ∷ [];
    ignores = [];
    mods = [];
  };
  char_tags = [];
  journal_tags = [];
  names = record { tagid = 5; title = fox } ∷ [];
  next_tagid = 6;
  feedback = [];
  arrays = record { submitid = 7; tags = 5 ∷ [] } ∷ [];
  updates = [];
  user_restricted = record { tagid = 5; userid = 2 } ∷ [];
  globally_restricted = [];
  preferred = [];
  optout = [];
  suggesters = 2 ∷ 3 ∷ [];
}

owner-tagged : get_ownerid submit 7 tagged.site ≡ some 1
unfolding get_ownerid
owner-tagged = refl

associate-is_kept_example :
    select (is_kept 2) (tags_of submit (associate conflicts 2 submit 7 (ab ∷ []) tagged).1)
    ≡ select (is_kept 2) (tags_of submit tagged)
associate-is_kept_example =
    associate-is_kept conflicts 2 submit 7 (ab ∷ []) tagged submit 1 owner-tagged refl

pub tagged-AreSynced : AreSynced tagged
unfolding same
tagged-AreSynced id = elim (Bool-cases (7 == id)) [
  | inl e ↦
      subst (λ x. all (is_synced tagged.site.submission_tags x) tagged.arrays ≡ true)
        ((==_iff 7 id).0 e) refl
  | inr e ↦ ground arith
]

associate-AreSynced_example : AreSynced (associate conflicts 2 submit 7 (ab ∷ []) tagged).1
associate-AreSynced_example =
    associate-AreSynced conflicts 2 submit 7 (ab ∷ []) tagged tagged-AreSynced

associate-artist_example :
    let (r, t') = associate conflicts 1 submit 7 (ab ∷ []) tagged in
    (r ≡ ok [])
    × (all (is_known t') (ab ∷ []) ≡ true)
    × ((tagid : ℕ)
        → exists (is_artist_tag 7 tagid) (tags_of submit t') ≡ elem tagid (get_ids (ab ∷ []) t'))
associate-artist_example =
    associate-artist conflicts 1 submit 7 (ab ∷ []) tagged 1 owner-tagged refl refl refl

-- A cipher that hides nothing: the authenticated data, filled up to 16 numbers, and the text.
abbrev plain : Aead
plain = record {
  encrypt = λ nonce text aad. (0 ∷ 0 ∷ 0 ∷ aad) ++ text;
  decrypt = λ nonce sealed aad.
      if same (take 16 sealed) (0 ∷ 0 ∷ 0 ∷ aad) then some (drop 16 sealed) else none;
}

take_aad : (aad text : Str) → length aad ≡ 13 → take 13 (aad ++ text) ≡ aad
take_aad aad text size = subst (λ n. take n (aad ++ text) ≡ aad) size (take-append aad text)

plain-Opens : Opens plain
plain-Opens nonce text aad size = (
  omega (arith, length-append aad text, size),
  rw (take_aad aad text size, same_refl (0 ∷ 0 ∷ 0 ∷ aad))
      (ap some (subst (λ n. drop n (aad ++ text) ≡ text) size (drop-append aad text))),
)

plain-Authenticates : Authenticates plain
plain-Authenticates nonce text aad other size size' differs =
    rw (take_aad aad text size) (elim (Bool-cases (same (0 ∷ 0 ∷ 0 ∷ aad) (0 ∷ 0 ∷ 0 ∷ other))) [
      | inl e ↦ absurd (differs (ap (drop 3) (same-eq (0 ∷ 0 ∷ 0 ∷ aad) (0 ∷ 0 ∷ 0 ∷ other) e)))
      | inr e ↦ rw e refl
    ])

abbrev nonce : Str
nonce = 1 ∷ 2 ∷ 3 ∷ 4 ∷ 5 ∷ 6 ∷ 7 ∷ 8 ∷ 9 ∷ 10 ∷ 11 ∷ 12 ∷ []

abbrev token : Str
token = nonce ++ pack 1000 ++ plain.encrypt nonce (pack 3) (pack_aad 1000 7 5 submit)

token-made : undo_token_create plain nonce 1000 submit 7 5 3 ≡ ok token
unfolding undo_token_create
token-made = refl

undo_token_validate-create_example :
    undo_token_validate plain 1070 submit 7 5 token ≡ err undo_expired
undo_token_validate-create_example =
    undo_token_validate-create plain plain-Opens nonce 1000 1070 submit 7 5 3 token refl token-made

undo_token_validate_other_example : undo_token_validate plain 1010 submit 7 6 token ≢ ok 3
undo_token_validate_other_example =
    undo_token_validate_other plain plain-Opens plain-Authenticates nonce 1000 1010 submit submit 7
      7 5 6 3 3 token refl token-made (inr (inr (λ e. absurd (omega (arith, e)))))

id-tagged : get_id fox tagged ≡ some 5
unfolding get_id same
id-tagged = refl

suggestion_action_undo-suggestion_arbitrate_example :
    let (answer, settled) =
      suggestion_arbitrate plain nonce 1000 1 submit 7 fox reject_tag tagged in
    let (undone, after) = suggestion_action_undo plain 1010 1 submit 7 fox token settled in
    (answer ≡ ok (success (some token))) × (undone ≡ ok tt) × IsRestored submit 7 5 3 tagged after
suggestion_action_undo-suggestion_arbitrate_example =
    suggestion_action_undo-suggestion_arbitrate plain plain-Opens nonce 1000 1010 1 submit 7 fox
      reject_tag tagged 5 3 token refl (omega arith) (omega arith) (rw owner-tagged refl) id-tagged
      refl token-made

edit_user_tag_restrictions_lem_example :
    let (r, t') = edit_user_tag_restrictions conflicts 1 (ab_star ∷ []) tagged in
    (r ≡ ok tt)
    × ((tagid : ℕ)
        → exists (is_user_tag 1 tagid) t'.user_restricted
          ≡ elem tagid (get_ids (ab_star ∷ []) (create_names (ab_star ∷ []) tagged)))
    × (select (λ r. r.userid == 2) t'.user_restricted
        ≡ select (λ r. r.userid == 2) tagged.user_restricted)
edit_user_tag_restrictions_lem_example =
    edit_user_tag_restrictions_lem conflicts 1 2 (ab_star ∷ []) tagged refl refl
