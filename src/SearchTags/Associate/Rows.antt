-- ===== src/SearchTags/Associate/Rows.antt =====
-- What the statements of `associate` and `_set_suggested_tags` do to the rows of a table of tags.
use weasyl.Prelude.{
  ℕ, ◌≡◌, refl, ◌∙◌, Bool, true, false, not, ◌&&◌, ◌||◌, some, List, [], ◌∷◌, arith, ◌==◌,
  Bool-cases, inl, inr,
}
use weasyl.Sql.{exists, select, delete, update, insert_new, elem}
use weasyl.Sql.Laws.{exists-delete_implied, exists-insert, exists-append}
use weasyl.Sql.Rows.{select-insert_new, select-delete_other, select-update_other, select-insert_no}
use weasyl.Database.{TagRow}
use weasyl.SearchTags.Associate.{
  is_of, is_tag, is_artist, is_added_by, drops_artist, approve, set_artist_tag, set_artist_tags,
  associate_rows, drops_suggested, suggest_tags, suggest_rows,
}

-- The tags of an artist or a moderator, and the suggestions of other users.
abbrev pub is_kept : ℕ → TagRow → Bool
is_kept userid r = is_artist r || not (is_added_by userid r)

suggest_tags-kept :
    (userid target : ℕ) (tagids : List ℕ) (rows : List TagRow)
    → select (is_kept userid) (suggest_tags userid target tagids rows)
      ≡ select (is_kept userid) rows
unfolding suggest_tags
suggest_tags-kept userid target [] rows = refl
suggest_tags-kept userid target (tagid ∷ tagids) rows =
    let row : TagRow = record {
      targetid = target;
      tagid = tagid;
      settings = [];
      added_by = some userid;
    } in
    suggest_tags-kept userid target tagids (insert_new (is_tag target tagid) row rows)
    ∙ select-insert_new (is_tag target tagid) (is_kept userid) row rows (ground arith)

pub suggest_rows-kept :
    (userid target : ℕ) (tagids : List ℕ) (rows : List TagRow)
    → select (is_kept userid) (suggest_rows userid target tagids rows)
      ≡ select (is_kept userid) rows
unfolding suggest_rows
suggest_rows-kept userid target tagids rows =
    suggest_tags-kept userid target tagids (delete (drops_suggested userid target tagids) rows)
    ∙ select-delete_other (drops_suggested userid target tagids) (is_kept userid) rows
        (λ r h. ground arith)

suggest_tags-other :
    (userid target other : ℕ) (tagids : List ℕ) (rows : List TagRow)
    → (target == other) ≡ false
    → select (is_of other) (suggest_tags userid target tagids rows) ≡ select (is_of other) rows
unfolding suggest_tags
suggest_tags-other userid target other [] rows h = refl
suggest_tags-other userid target other (tagid ∷ tagids) rows h =
    let row : TagRow = record {
      targetid = target;
      tagid = tagid;
      settings = [];
      added_by = some userid;
    } in
    suggest_tags-other userid target other tagids (insert_new (is_tag target tagid) row rows) h
    ∙ select-insert_new (is_tag target tagid) (is_of other) row rows h

-- The tags of other posts stay.
pub suggest_rows-other :
    (userid target other : ℕ) (tagids : List ℕ) (rows : List TagRow)
    → (target == other) ≡ false
    → select (is_of other) (suggest_rows userid target tagids rows) ≡ select (is_of other) rows
unfolding suggest_rows
suggest_rows-other userid target other tagids rows h =
    suggest_tags-other userid target other tagids
      (delete (drops_suggested userid target tagids) rows) h
    ∙ select-delete_other (drops_suggested userid target tagids) (is_of other) rows
        (λ r e. ground arith)

set_artist_tag-other :
    (userid target other tagid : ℕ) (rows : List TagRow)
    → (target == other) ≡ false
    → select (is_of other) (set_artist_tag userid target tagid rows) ≡ select (is_of other) rows
set_artist_tag-other userid target other tagid rows h =
    elim (Bool-cases (exists (is_tag target tagid) rows)) [
      | inl e ↦ rw e (
          select-update_other (λ r. is_tag target tagid r && not (is_artist r)) (is_of other)
            (approve userid) rows (λ r e. (ground arith, ground arith)))
      | inr e ↦ rw e (select-insert_no (is_of other) _ rows h)
    ]

set_artist_tags-other :
    (userid target other : ℕ) (tagids : List ℕ) (rows : List TagRow)
    → (target == other) ≡ false
    → select (is_of other) (set_artist_tags userid target tagids rows) ≡ select (is_of other) rows
unfolding set_artist_tags
set_artist_tags-other userid target other [] rows h = refl
set_artist_tags-other userid target other (tagid ∷ tagids) rows h =
    set_artist_tags-other userid target other tagids (set_artist_tag userid target tagid rows) h
    ∙ set_artist_tag-other userid target other tagid rows h

pub associate_rows-other :
    (userid target other : ℕ) (tagids : List ℕ) (rows : List TagRow)
    → (target == other) ≡ false
    → select (is_of other) (associate_rows userid target tagids rows) ≡ select (is_of other) rows
unfolding associate_rows
associate_rows-other userid target other tagids rows h =
    set_artist_tags-other userid target other tagids (delete (drops_artist target tagids) rows) h
    ∙ select-delete_other (drops_artist target tagids) (is_of other) rows (λ r e. ground arith)

-- Is the tag one that the artist or a moderator set?
abbrev pub is_artist_tag : ℕ → ℕ → TagRow → Bool
is_artist_tag target tagid r = is_tag target tagid r && is_artist r

approve-artist : (userid : ℕ) (r : TagRow) → is_artist (approve userid r) ≡ true
approve-artist userid r = ground (arith, exists-append (λ c. c == b'a') r.settings (b'a' ∷ []))

approved-artist :
    (userid target tagid x : ℕ) (rows : List TagRow)
    → exists
        (is_artist_tag target x)
        (update (λ r. is_tag target tagid r && not (is_artist r)) (approve userid) rows)
      ≡ (exists (is_artist_tag target x) rows || (x == tagid && exists (is_tag target tagid) rows))
approved-artist userid target tagid x [] = ground arith
approved-artist userid target tagid x (r ∷ rows) =
    ground (arith, approve-artist userid r, approved-artist userid target tagid x rows)

set_artist_tag-artist :
    (userid target tagid x : ℕ) (rows : List TagRow)
    → exists (is_artist_tag target x) (set_artist_tag userid target tagid rows)
      ≡ (exists (is_artist_tag target x) rows || x == tagid)
set_artist_tag-artist userid target tagid x rows =
    elim (Bool-cases (exists (is_tag target tagid) rows)) [
      | inl e ↦ rw e (ground (arith, approved-artist userid target tagid x rows))
      | inr e ↦ rw e (
          ground (
            arith,
            exists-insert (is_artist_tag target x)
                (record {
                  targetid = target;
                  tagid = tagid;
                  settings = b'a' ∷ [];
                  added_by = some userid;
                })
                rows,
          ))
    ]

set_artist_tags-artist :
    (userid target x : ℕ) (tagids : List ℕ) (rows : List TagRow)
    → exists (is_artist_tag target x) (set_artist_tags userid target tagids rows)
      ≡ (exists (is_artist_tag target x) rows || elem x tagids)
unfolding set_artist_tags
set_artist_tags-artist userid target x [] rows = ground arith
set_artist_tags-artist userid target x (tagid ∷ tagids) rows = ground (
  arith,
  set_artist_tags-artist userid target x tagids (set_artist_tag userid target tagid rows),
  set_artist_tag-artist userid target tagid x rows,
)

-- The tags that the artist has afterwards are the given ones.
pub associate_rows-artist :
    (userid target x : ℕ) (tagids : List ℕ) (rows : List TagRow)
    → exists (is_artist_tag target x) (associate_rows userid target tagids rows) ≡ elem x tagids
unfolding associate_rows
associate_rows-artist userid target x tagids rows =
    let kept = delete (drops_artist target tagids) rows in
    elim (Bool-cases (elem x tagids)) [
      | inl e ↦ ground (arith, set_artist_tags-artist userid target x tagids kept)
      | inr e ↦ ground (
        arith,
        set_artist_tags-artist userid target x tagids kept,
        exists-delete_implied (drops_artist target tagids) (is_artist_tag target x) rows
            (λ r h. dropped r e h),
      )
    ]
  where
    dropped :
        (r : TagRow)
        → elem x tagids ≡ false
        → is_artist_tag target x r ≡ true
        → drops_artist target tagids r ≡ true
    dropped r e h =
        let same : r.tagid ≡ x = ground arith in
        let out : elem r.tagid tagids ≡ false = rw same e in ground arith
