-- ===== src/Friends/Requests.antt =====
-- The calls of weasyl/frienduser.py, errors and retries included, against the relation that they
-- maintain.
use mathlib.Core.Path.{fun_ext}
use weasyl.Prelude.{
  ℕ, ◌≤◌, ◌<◌, ◌≡◌, ◌≢◌, refl, ap, ◌⊎◌, inl, inr, Bool, true, false, not, ◌&&◌, Option, none, some,
  List, [], ◌∷◌, arith, Bool-cases, Option-cases,
}
use weasyl.Sql.{exists, first, count}
use weasyl.Sql.Laws.{first-found, exists-count_no, exists_implied}
use weasyl.Database.{FriendRow, FriendSettings, accepted, pending, Db, ok, Fault}
use weasyl.Database.Retry.{gets_through, serializable_retry_lem}
use weasyl.Ignores
use weasyl.Friends.{
  is_between, is_pending, upsert, check, request, request_transaction, request_notifications,
}
use weasyl.Friends.Relation.{
  Relation, strangers, sent, received, friends, relation, requested, IsUnique, relation-upsert,
}

request_notifications-friends :
    (u o : ℕ) (s : Option FriendSettings) (db : Db)
    → (request_notifications u o s db).friends ≡ db.friends
unfolding request_notifications
request_notifications-friends u o none db = refl
request_notifications-friends u o (some accepted) db = refl
request_notifications-friends u o (some pending) db = refl

pub request_transaction-friends :
    (u o : ℕ) (db : Db)
    → ((request_transaction u o db).0 ≡ ok tt)
      × ((request_transaction u o db).1.friends ≡ (upsert u o db.friends).1)
unfolding request_transaction
request_transaction-friends u o db = (
  refl,
  request_notifications-friends u o (upsert u o db.friends).0
      (record db { friends = (upsert u o db.friends).1 }),
)

-- Neither user ignores the other.
abbrev pub on_terms : ℕ → ℕ → Db → Bool
on_terms u o db = not (Ignores.check o u db) && not (Ignores.check u o db)

request_notifications-others :
    (u o : ℕ) (s : Option FriendSettings) (db : Db)
    → ((request_notifications u o s db).ignores ≡ db.ignores)
      × ((request_notifications u o s db).watches ≡ db.watches)
unfolding request_notifications
request_notifications-others u o none db = (refl, refl)
request_notifications-others u o (some accepted) db = (refl, refl)
request_notifications-others u o (some pending) db = (refl, refl)

request_transaction-others :
    (u o : ℕ) (db : Db)
    → ((request_transaction u o db).1.ignores ≡ db.ignores)
      × ((request_transaction u o db).1.watches ≡ db.watches)
unfolding request_transaction
request_transaction-others u o db =
    request_notifications-others u o (upsert u o db.friends).0
      (record db { friends = (upsert u o db.friends).1 })

-- A request changes nothing, or it upserts its row and writes neither ignores nor watches.
pub request_outcome :
    (faults : List Fault) (u o : ℕ) (db : Db)
    → let db' = (request faults u o db).1 in
      (db' ≡ db)
      ⊎ ((on_terms u o db ≡ true)
          × (db'.ignores ≡ db.ignores)
          × (db'.friends ≡ (upsert u o db.friends).1)
          × (db'.watches ≡ db.watches))
unfolding request
request_outcome faults u o db =
    let retried = serializable_retry_lem faults (request_transaction u o) db in
    let (returns, rows) = request_transaction-friends u o db in
    let others = request_transaction-others u o db in
    elim (Bool-cases (on_terms u o db && gets_through faults)) [
      | inl h ↦ inr (
        ground arith,
        ground (arith, retried, returns, others),
        ground (arith, retried, returns, rows),
        ground (arith, retried, returns, others),
      )
      | inr h ↦ inl (ground (arith, retried))
    ]

-- A friend request between two different users succeeds exactly when neither ignores the other and
-- the database lets an attempt through. It then moves their relation as specified: a first request
-- is sent, one that answers a request makes them friends, and any other changes nothing. A request
-- that raises leaves the whole state as it was.
pub request_lem :
    (faults : List Fault) (u o : ℕ) (db : Db)
    → u ≢ o
    → let (r, db') = request faults u o db in
      ((on_terms u o db && gets_through faults ≡ true)
        × (r ≡ ok tt)
        × (relation u o db'.friends ≡ requested (relation u o db.friends)))
      ⊎ ((on_terms u o db && gets_through faults ≡ false) × (r ≢ ok tt) × (db' ≡ db))
unfolding request
request_lem faults u o db ne =
    let retried = serializable_retry_lem faults (request_transaction u o) db in
    let (returns, rows) = request_transaction-friends u o db in
    let moved = relation-upsert u o db.friends ne in
    elim (Bool-cases (on_terms u o db && gets_through faults)) [
      | inl h ↦
          inl (h, ground (arith, retried, returns), ground (arith, retried, returns, rows, moved))
      | inr h ↦ inr (h, ground (arith, retried), ground (arith, retried))
    ]

-- The same rows lie between two users, in whichever order they are named.
pub is_between_comm : (a b : ℕ) → is_between a b ≡ is_between b a
is_between_comm a b = fun_ext λ row. ground arith

abbrev pub flipped : Relation → Relation
flipped strangers = strangers
flipped sent = received
flipped received = sent
flipped friends = friends

pub relation_flip :
    (a b : ℕ) (rows : List FriendRow) → a ≢ b → relation b a rows ≡ flipped (relation a b rows)
relation_flip a b rows ne =
    let same : first (is_between b a) rows ≡ first (is_between a b) rows =
      ap (λ p. first p rows) (is_between_comm b a) in
    elim (Option-cases (first (is_between a b) rows)) [
      | inl e ↦ ground (arith, same)
      | inr (row, e) ↦ ground (arith, same, first-found (is_between a b) rows row e)
    ]

-- The test for an accepted row that `check` makes.
abbrev is_accepted : ℕ → ℕ → FriendRow → Bool
is_accepted a b row = is_between a b row && not (is_pending row.settings)

exists-first_unique :
    (p q : FriendRow → Bool) (rows : List FriendRow)
    → count p rows ≤ 1
    → exists (λ r. p r && q r) rows ≡ (elim (first p rows) [ none ↦ false | some r ↦ q r ])
exists-first_unique p q [] h = refl
exists-first_unique p q (r ∷ rows) h = ground (arith, exists-first_unique p q rows, rest_empty)
  where
    rest_empty : count p rows ≡ 0 → exists (λ r. p r && q r) rows ≡ false
    rest_empty e =
        exists_implied p (λ r. p r && q r) rows (λ r m. ground arith) (exists-count_no p rows e)

abbrev pub is_friends : Relation → Bool
is_friends friends = true
is_friends _ = false

-- For two different users with positive ids, who share at most one friendship row, `check` answers
-- whether their relation is friendship, and so it gives both of them the same answer.
pub check_lem :
    (a b : ℕ) (db : Db)
    → IsUnique db.friends
    → a ≢ b
    → 0 < a
    → 0 < b
    → (check a b db ≡ is_friends (relation a b db.friends)) × (check b a db ≡ check a b db)
unfolding check
check_lem a b db unique ne pa pb =
    let found =
      exists-first_unique (is_between a b) (λ r. not (is_pending r.settings)) db.friends
        (unique a b) in
    let both : exists (is_accepted b a) db.friends ≡ exists (is_accepted a b) db.friends =
      ap (λ p. exists (λ r. p r && not (is_pending r.settings)) db.friends) (is_between_comm b a) in
    (
      elim (Option-cases (first (is_between a b) db.friends)) [
        | inl e ↦ ground (arith, found)
        | inr (row, e) ↦ ground (arith, found)
      ],
      ground (arith, both),
    )
