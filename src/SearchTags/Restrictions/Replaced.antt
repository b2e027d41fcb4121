-- ===== src/SearchTags/Restrictions/Replaced.antt =====
-- A user's list of tags after it has been replaced.
use weasyl.Prelude.{
  ℕ, ◌≡◌, refl, sym, ap, subst, ◌∙◌, true, false, ◌||◌, List, [], ◌∷◌, arith, ◌==◌, Bool-cases, inl,
  inr, ==_iff,
}
use weasyl.Sql.{exists, select, delete, insert_new, elem}
use weasyl.Sql.Laws.{exists-insert, exists-delete_implied}
use weasyl.Sql.Rows.{select-insert_new, select-delete_other}
use weasyl.Database.{Str, Fault, ok, modify}
use weasyl.Database.Retry.{gets_through, serializable_retry_lem}
use weasyl.SearchTags.Tables.{UserTag, Tagging}
use weasyl.SearchTags.Names.{get_ids, create_name, create_names, get_or_create_many}
use weasyl.SearchTags.Restrictions.{
  is_user_tag, is_dropped, add_tags, replace_tags, edit_user_tag_restrictions,
}

add_tags-exists :
    (userid x : ℕ) (tagids : List ℕ) (rows : List UserTag)
    → exists (is_user_tag userid x) (add_tags userid tagids rows)
      ≡ (exists (is_user_tag userid x) rows || elem x tagids)
unfolding add_tags
add_tags-exists userid x [] rows = ground arith
add_tags-exists userid x (tagid ∷ tagids) rows =
    let row : UserTag = record { tagid = tagid; userid = userid } in
    add_tags-exists userid x tagids (insert_new (is_user_tag userid tagid) row rows)
    ∙ elim (Bool-cases (x == tagid)) [
      | inl e ↦
          let same : x ≡ tagid = (==_iff x tagid).0 e in
          let found =
            subst
              (λ y.
                exists (is_user_tag userid y) (insert_new (is_user_tag userid tagid) row rows)
                ≡ true)
              (sym same) (ground (arith, exists-insert (is_user_tag userid tagid) row rows)) in
          ground (arith, found)
      | inr e ↦ ground (arith, exists-insert (is_user_tag userid x) row rows)
    ]

replace_tags-exists :
    (userid x : ℕ) (tagids : List ℕ) (rows : List UserTag)
    → exists (is_user_tag userid x) (replace_tags userid tagids rows) ≡ elem x tagids
unfolding replace_tags
replace_tags-exists userid x tagids rows =
    let kept = delete (is_dropped userid tagids) rows in
    elim (Bool-cases (elem x tagids)) [
      | inl e ↦ ground (arith, add_tags-exists userid x tagids kept)
      | inr e ↦ ground (
        arith,
        add_tags-exists userid x tagids kept,
        exists-delete_implied (is_dropped userid tagids) (is_user_tag userid x) rows
            (λ r h. dropped r e h),
      )
    ]
  where
    dropped :
        (r : UserTag)
        → elem x tagids ≡ false
        → is_user_tag userid x r ≡ true
        → is_dropped userid tagids r ≡ true
    dropped r e h =
        let same : r.tagid ≡ x = ground arith in
        let out : elem r.tagid tagids ≡ false = rw same e in ground arith

add_tags-others :
    (userid other : ℕ) (tagids : List ℕ) (rows : List UserTag)
    → (userid == other) ≡ false
    → select (λ r. r.userid == other) (add_tags userid tagids rows)
      ≡ select (λ r. r.userid == other) rows
unfolding add_tags
add_tags-others userid other [] rows h = refl
add_tags-others userid other (tagid ∷ tagids) rows h =
    let row : UserTag = record { tagid = tagid; userid = userid } in
    add_tags-others userid other tagids (insert_new (is_user_tag userid tagid) row rows) h
    ∙ select-insert_new (is_user_tag userid tagid) (λ r. r.userid == other) row rows h

replace_tags-others :
    (userid other : ℕ) (tagids : List ℕ) (rows : List UserTag)
    → (userid == other) ≡ false
    → select (λ r. r.userid == other) (replace_tags userid tagids rows)
      ≡ select (λ r. r.userid == other) rows
unfolding replace_tags
replace_tags-others userid other tagids rows h =
    add_tags-others userid other tagids (delete (is_dropped userid tagids) rows) h
    ∙ select-delete_other (is_dropped userid tagids) (λ r. r.userid == other) rows
        (λ r e. ground arith)

create_name-restricted :
    (name : Str) (t : Tagging) → (create_name name t).user_restricted ≡ t.user_restricted
create_name-restricted name t = ground arith

create_names-restricted :
    (names : List Str) (t : Tagging) → (create_names names t).user_restricted ≡ t.user_restricted
unfolding create_names
create_names-restricted [] t = refl
create_names-restricted (name ∷ names) t =
    create_names-restricted names (create_name name t) ∙ create_name-restricted name t

-- Where the database gets the transaction through, `edit_user_tag_restrictions` leaves the user with
-- exactly the restricted tags whose names were given, and every other user with their own list.
pub edit_user_tag_restrictions_lem :
    (faults : List Fault) (userid other : ℕ) (tags : List Str) (t : Tagging)
    → gets_through faults ≡ true
    → (userid == other) ≡ false
    → let (r, t') = edit_user_tag_restrictions faults userid tags t in
      (r ≡ ok tt)
      × ((tagid : ℕ)
          → exists (is_user_tag userid tagid) t'.user_restricted
            ≡ elem tagid (get_ids tags (create_names tags t)))
      × (select (λ r. r.userid == other) t'.user_restricted
          ≡ select (λ r. r.userid == other) t.user_restricted)
unfolding edit_user_tag_restrictions get_or_create_many
edit_user_tag_restrictions_lem faults userid other tags t through differs =
    let known = create_names tags t in
    let tagids = get_ids tags known in
    rw
      (
        serializable_retry_lem faults
            (modify
              (λ t. record t { user_restricted = replace_tags userid tagids t.user_restricted }))
            known,
        through,
      )
      (
        refl,
        λ x. replace_tags-exists userid x tagids known.user_restricted,
        replace_tags-others userid other tagids known.user_restricted differs
            ∙ ap (select (λ r. r.userid == other)) (create_names-restricted tags t),
      )
