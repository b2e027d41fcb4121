-- ===== src/Collections/Throttle.antt =====
-- weasyl/collection.py: how many requests of a collector an owner can have unanswered.
use weasyl.Prelude.{
  ℕ, ◌≤◌, ◌≡◌, ◌⊎◌, refl, Bool, true, false, not, ◌&&◌, ◌||◌, List, [], ◌∷◌, arith, ◌==◌, ltb, ◌∙◌,
  Bool-cases, Option-cases, inl, inr, ap,
}
use weasyl.Sql.{exists, first, count, update, insert}
use weasyl.Database.{CollectionRow, Submission, Str, has, Db, Result-cases}
use weasyl.Welcome.{collectoffer_insert, collectrequest_insert, collectrequest_remove}
use weasyl.Ignores
use weasyl.Sql.All.{exists-first}
use weasyl.Watches.{get_config}
use weasyl.Watches.Effects.{get_config_outcome}
use weasyl.Collections.{
  is_collection, new_collection, insert_collection, offer, is_request_to, check_throttle,
  allows_requests, get_rating, request_rated, answered, collection_insert, accept_notes, accept_row,
  reject_notes,
}

-- No owner has more than 11 unanswered requests of one collector.
abbrev pub IsThrottled : List Submission → List CollectionRow → Type 0
IsThrottled subs rows = (u o : ℕ) → count (is_request_to u o subs) rows ≤ 11

abbrev pub has_submitid : ℕ → Submission → Bool
has_submitid submitid s = s.submitid == submitid

-- The primary key of `submission`.
abbrev pub IsKeyed : List Submission → Type 0
IsKeyed subs = (id : ℕ) → count (has_submitid id) subs ≤ 1

-- What a call leaves: the submissions, and collections of a given form.
abbrev pub Leaves : Db → List CollectionRow → Db → Type 0
Leaves db rows db' = (db'.submissions ≡ db.submissions) × (db'.collections ≡ rows)

answered-r : (s : Str) → has b'r' s ≡ false → has b'r' (answered s) ≡ false
unfolding answered
answered-r [] h = refl
answered-r (c ∷ s) h = ground (arith, answered-r s)

pub count-accepted :
    (u o now : ℕ) (subs : List Submission) (p : CollectionRow → Bool) (rows : List CollectionRow)
    → count (is_request_to u o subs) (update p (accept_row now) rows)
      ≤ count (is_request_to u o subs) rows
count-accepted u o now subs p [] = omega arith
count-accepted u o now subs p (c ∷ rows) =
    ground (arith, count-accepted u o now subs p rows, answered-r c.settings)

pub collection_insert-Leaves :
    (userid submitid : ℕ) (db : Db)
    → Leaves db db.collections (collection_insert userid submitid db)
unfolding collection_insert
collection_insert-Leaves userid submitid db = (ground arith, ground arith)

collectrequest_remove-Leaves :
    (userid otherid submitid : ℕ) (db : Db)
    → Leaves db db.collections (collectrequest_remove userid otherid submitid db)
unfolding collectrequest_remove
collectrequest_remove-Leaves userid otherid submitid db = elim (Bool-cases (otherid == userid)) [
  | inl y ↦ rw y (refl, refl)
  | inr n ↦ rw n (refl, refl)
]

pub accept_notes-Leaves :
    (userid : ℕ) (rows : List CollectionRow) (db : Db)
    → Leaves db db.collections (accept_notes userid rows db)
unfolding accept_notes
accept_notes-Leaves userid [] db = (refl, refl)
accept_notes-Leaves userid (s ∷ rows) db =
    let db1 = collection_insert s.submitid s.userid db in
    let (subs0, rest0) = collection_insert-Leaves s.submitid s.userid db in
    let (subs1, rest1) = collectrequest_remove-Leaves userid s.submitid s.userid db1 in
    let (subs, rest) =
      accept_notes-Leaves userid rows (collectrequest_remove userid s.submitid s.userid db1) in
    (subs ∙ subs1 ∙ subs0, rest ∙ rest1 ∙ rest0)

pub reject_notes-Leaves :
    (userid : ℕ) (pairs : List (ℕ × ℕ)) (db : Db)
    → Leaves db db.collections (reject_notes userid pairs db)
unfolding reject_notes
reject_notes-Leaves userid [] db = (refl, refl)
reject_notes-Leaves userid ((submitid, collectorid) ∷ pairs) db =
    let (subs1, rest1) = collectrequest_remove-Leaves userid collectorid submitid db in
    let (subs, rest) =
      reject_notes-Leaves userid pairs (collectrequest_remove userid collectorid submitid db) in
    (subs ∙ subs1, rest ∙ rest1)

-- A call that adds no request.
module _ (db : Db) where
  pub IsThrottled-Leaves :
      (rows : List CollectionRow) (db' : Db)
      → Leaves db rows db'
      → IsThrottled db.submissions rows
      → IsThrottled db'.submissions db'.collections
  IsThrottled-Leaves rows db' (subs, collections) h u o = rw (subs, collections) (h u o)

  pub offer_outcome :
      (userid submitid otherid : ℕ)
      → let db' = (offer userid submitid otherid db).1 in
        Leaves db db.collections db'
        ⊎ Leaves db (insert (new_collection b'p' otherid submitid db) db.collections) db'
  unfolding offer insert_collection collectoffer_insert
  offer_outcome userid submitid otherid =
      elim (Option-cases (first (λ s. s.submitid == submitid) db.submissions)) [
        | inl absent ↦ inl (ground arith, ground arith)
        | inr (query, found) ↦
            elim (Bool-cases (
              query.hidden
              || (not (userid == query.userid)
                  || (query.friends_only
                      || (Ignores.check otherid userid db
                          || (Ignores.check userid otherid db
                              || exists (is_collection otherid submitid) db.collections)))))) [
                                | inl stops ↦ inl (ground (arith, found), ground (arith, found))
                                | inr goes ↦ inr (ground (arith, found), ground (arith, found))
                              ]
      ]

  allows_requests-state : (otherid : ℕ) → (allows_requests otherid db).1 ≡ db
  unfolding allows_requests
  allows_requests-state otherid = elim (Bool-cases (otherid == 0)) [
    | inl z ↦ ground arith
    | inr n ↦ elim (Option-cases (first (λ pr. pr.userid == otherid) db.profiles)) [
      | inl e ↦ ground arith
      | inr (pr, e) ↦ ground (arith, e)
    ]
  ]

  get_config-state : (userid : ℕ) → (get_config userid db).1 ≡ db
  get_config-state userid = elim (get_config_outcome userid db) [
    | inl e ↦ ap (λ x. x.1) e
    | inr (config, e) ↦ ap (λ x. x.1) e
  ]

  pub get_rating-state : (sfw : Bool) (userid : ℕ) → (get_rating sfw userid db).1 ≡ db
  unfolding get_rating
  get_rating-state sfw userid = elim (Bool-cases (userid == 0 || sfw)) [
    | inl z ↦ ground arith
    | inr n ↦ ground (arith, get_config-state userid)
  ]

  -- What a request adds it adds below the limit, to a submission of the owner that is asked.
  abbrev pub Requested : ℕ → ℕ → ℕ → Db → Type 0
  Requested userid submitid otherid db' =
      (check_throttle userid otherid db ≡ false)
      × (exists (λ s. has_submitid submitid s && s.userid == otherid) db.submissions ≡ true)
      × Leaves db (insert (new_collection b'r' userid submitid db) db.collections) db'

  pub request_rated_outcome :
      (rating userid submitid otherid : ℕ)
      → let db' = (request_rated rating userid submitid otherid db).1 in
        Leaves db db.collections db' ⊎ Requested userid submitid otherid db'
  unfolding request_rated insert_collection collectrequest_insert
  request_rated_outcome rating userid submitid otherid =
      let state = allows_requests-state otherid in
      elim (Option-cases (first (has_submitid submitid) db.submissions)) [
        | inl absent ↦ inl (ground arith, ground arith)
        | inr (query, found) ↦
            let owner =
              exists-first (has_submitid submitid) (λ s. s.userid == otherid) db.submissions query
                found in
            elim (Result-cases (allows_requests otherid db).0) [
              | inr (raised, e) ↦
                  inl (ground (arith, found, state, e), ground (arith, found, state, e))
              | inl (allowed, e) ↦
                  elim (Bool-cases (
                    query.hidden
                    || (not (otherid == query.userid)
                        || (query.friends_only
                            || (ltb rating query.rating
                                || (Ignores.check otherid userid db
                                    || (Ignores.check userid otherid db
                                        || (check_throttle userid otherid db
                                            || (not allowed
                                                || exists (is_collection userid submitid)
                                                    db.collections))))))))) [
                                                      | inl stops ↦ inl (
                                                        ground (arith, found, state, e),
                                                        ground (arith, found, state, e),
                                                      )
                                                      | inr goes ↦ inr (
                                                        ground arith,
                                                        owner (ground arith),
                                                        (
                                                          ground (arith, found, state, e),
                                                          ground (arith, found, state, e),
                                                        ),
                                                      )
                                                    ]
            ]
      ]
