-- ===== src/Collections/Invariant.antt =====
-- weasyl/collection.py: the limit on unanswered requests over any sequence of calls.
use weasyl.Prelude.{
  ℕ, ◌≤◌, ◌≡◌, refl, Bool, true, not, ◌&&◌, ◌||◌, List, [], ◌∷◌, arith, ◌==◌, all, subst, sym,
  Bool-cases, inl, inr,
}
use weasyl.Sql.{exists, select, count, delete, update, insert}
use weasyl.Sql.Laws.{count-insert, count-delete_le}
use weasyl.Database.{CollectionRow, Submission, Db, Result-cases}
use weasyl.Welcome.{collection_remove}
use weasyl.Sql.All.{all_unique}
use weasyl.Collections.{
  new_collection, offer, is_request_to, check_throttle, get_rating, request_rated, request,
  may_answer, accept_row, pending_accept, pending_reject, is_collected, remove, CollectionCall,
  offers, requests, accepts, rejects, removes, after, run_collections,
}
use weasyl.Collections.Throttle.{
  IsThrottled, has_submitid, IsKeyed, Leaves, count-accepted, accept_notes-Leaves,
  reject_notes-Leaves, IsThrottled-Leaves, offer_outcome, get_rating-state, Requested,
  request_rated_outcome,
}

same_owner :
    (submitid o otherid : ℕ) (subs : List Submission)
    → all (λ s. not (has_submitid submitid s) || s.userid == otherid) subs ≡ true
    → exists (λ s. s.submitid == submitid && s.userid == o) subs ≡ true
    → o ≡ otherid
same_owner submitid o otherid [] h e = absurd cc
same_owner submitid o otherid (s ∷ subs) h e = ground (arith, same_owner submitid o otherid subs)

-- A state that the theorem below is about.
abbrev pub IsLimited : Db → Type 0
IsLimited db = IsKeyed db.submissions × IsThrottled db.submissions db.collections

limited :
    (db : Db) (rows : List CollectionRow) (db' : Db)
    → Leaves db rows db'
    → IsKeyed db.submissions
    → IsThrottled db.submissions rows
    → IsLimited db'
limited db rows db' leaves keyed throttled =
    (subst IsKeyed (sym leaves.0) keyed, IsThrottled-Leaves db rows db' leaves throttled)

Requested-IsLimited :
    (userid submitid otherid : ℕ) (db db' : Db)
    → Requested db userid submitid otherid db'
    → IsLimited db
    → IsLimited db'
unfolding check_throttle
Requested-IsLimited userid submitid otherid db db' (below, owner, leaves) (keyed, throttled) =
    let row = new_collection b'r' userid submitid db in
    limited db (insert row db.collections) db' leaves keyed λ u o.
      let grown = count-insert (is_request_to u o db.submissions) row db.collections in
      elim (Bool-cases (is_request_to u o db.submissions row)) [
        | inl y ↦
            let user : u ≡ userid = ground arith in
            let other : o ≡ otherid =
              same_owner submitid o otherid db.submissions
                (all_unique (has_submitid submitid) (λ s. s.userid == otherid) db.submissions
                  (keyed submitid) owner)
                (ground arith) in
            let few : count (is_request_to u o db.submissions) db.collections ≤ 10 =
              rw (user, other) (ground arith) in
            rw (grown, y) (omega (arith, few))
        | inr n ↦ rw (grown, n) (omega (arith, throttled u o))
      ]

offer-IsLimited :
    (userid submitid otherid : ℕ) (db : Db)
    → IsLimited db
    → IsLimited (offer userid submitid otherid db).1
offer-IsLimited userid submitid otherid db (keyed, throttled) =
    elim (offer_outcome db userid submitid otherid) [
      | inl leaves ↦
          limited db db.collections (offer userid submitid otherid db).1 leaves keyed throttled
      | inr leaves ↦
          let row = new_collection b'p' otherid submitid db in
          limited db (insert row db.collections) (offer userid submitid otherid db).1 leaves keyed
            (λ u o. ground (
              arith,
              count-insert (is_request_to u o db.submissions) row db.collections,
              throttled u o,
            ))
    ]

request-IsLimited :
    (sfw : Bool) (userid submitid otherid : ℕ) (db : Db)
    → IsLimited db
    → IsLimited (request sfw userid submitid otherid db).1
unfolding request
request-IsLimited sfw userid submitid otherid db (keyed, throttled) =
    let state = get_rating-state db sfw userid in
    elim (Result-cases (get_rating sfw userid db).0) [
      | inr (raised, e) ↦
          let same : (request sfw userid submitid otherid db).1 ≡ db = ground (arith, state, e) in
          subst IsLimited (sym same) (keyed, throttled)
      | inl (rating, e) ↦
          let db' = (request_rated rating userid submitid otherid db).1 in
          let same : (request sfw userid submitid otherid db).1 ≡ db' = ground (arith, state, e) in
          subst IsLimited (sym same)
            (elim (request_rated_outcome db rating userid submitid otherid) [
              | inl leaves ↦ limited db db.collections db' leaves keyed throttled
              | inr requested ↦
                  Requested-IsLimited userid submitid otherid db db' requested (keyed, throttled)
            ])
    ]

accept-IsLimited :
    (userid : ℕ) (pairs : List (ℕ × ℕ)) (db : Db)
    → IsLimited db
    → IsLimited (pending_accept userid pairs db).1
unfolding pending_accept
accept-IsLimited userid [] db h = h
accept-IsLimited userid (pair ∷ pairs) db (keyed, throttled) =
    let may = may_answer userid (pair ∷ pairs) db.submissions in
    let rows = update may (accept_row db.now) db.collections in
    let notes =
      accept_notes-Leaves userid (select may db.collections) (record db { collections = rows }) in
    limited db rows (pending_accept userid (pair ∷ pairs) db).1 notes keyed (λ u o.
      omega (arith, throttled u o, count-accepted u o db.now db.submissions may db.collections))

reject-IsLimited :
    (userid : ℕ) (pairs : List (ℕ × ℕ)) (db : Db)
    → IsLimited db
    → IsLimited (pending_reject userid pairs db).1
unfolding pending_reject
reject-IsLimited userid [] db h = h
reject-IsLimited userid (pair ∷ pairs) db (keyed, throttled) =
    let may = may_answer userid (pair ∷ pairs) db.submissions in
    let rows = delete may db.collections in
    let notes = reject_notes-Leaves userid (pair ∷ pairs) (record db { collections = rows }) in
    limited db rows (pending_reject userid (pair ∷ pairs) db).1 notes keyed (λ u o.
      omega (
        arith,
        throttled u o,
        count-delete_le may (is_request_to u o db.submissions) db.collections,
      ))

remove-IsLimited :
    (userid : ℕ) (submissions : List ℕ) (db : Db)
    → IsLimited db
    → IsLimited (remove userid submissions db).1
unfolding remove collection_remove
remove-IsLimited userid [] db h = h
remove-IsLimited userid (s ∷ submissions) db (keyed, throttled) =
    let rows = delete (is_collected userid (s ∷ submissions)) db.collections in
    limited db rows (remove userid (s ∷ submissions) db).1 (refl, refl) keyed
      (λ u o. omega (
        arith,
        throttled u o,
        count-delete_le (is_collected userid (s ∷ submissions)) (is_request_to u o db.submissions)
            db.collections,
      ))

after-IsLimited : (call : CollectionCall) (db : Db) → IsLimited db → IsLimited (after call db)
unfolding after
after-IsLimited (offers userid submitid otherid) db h = offer-IsLimited userid submitid otherid db h
after-IsLimited (requests sfw userid submitid otherid) db h =
    request-IsLimited sfw userid submitid otherid db h
after-IsLimited (accepts userid pairs) db h = accept-IsLimited userid pairs db h
after-IsLimited (rejects userid pairs) db h = reject-IsLimited userid pairs db h
after-IsLimited (removes userid submissions) db h = remove-IsLimited userid submissions db h

-- From a state in which no two submissions share an id, and in which no owner has more than 11
-- unanswered requests of one collector, every sequence of calls that offer, request, accept, reject
-- and remove collections, whether they return or raise, ends in such a state.
pub run_collections-IsLimited :
    (calls : List CollectionCall) (db : Db) → IsLimited db → IsLimited (run_collections calls db)
unfolding run_collections
run_collections-IsLimited [] db h = h
run_collections-IsLimited (call ∷ calls) db h =
    run_collections-IsLimited calls (after call db) (after-IsLimited call db h)
