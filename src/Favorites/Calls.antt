-- ===== src/Favorites/Calls.antt =====
-- weasyl/favorite.py: what its calls do to the favorites and the counters.
use weasyl.Prelude.{
  ℕ, ◌<◌, ◌≡◌, ◌≢◌, ◌⊎◌, Option, refl, Bool, true, false, not, ◌&&◌, List, [], ◌∷◌, arith, ◌==◌,
  sym, subst, Bool-cases, Option-cases, inl, inr, some, none, ◌++◌,
}
use weasyl.Sql.{first, exists}
use weasyl.Sql.Laws.{exists-insert}
use weasyl.Database.{FavoriteType, FavoriteRow, Db, Fault, transaction, Result, Result-cases, ok}
use weasyl.Database.Retry.{gets_through, serializable_retry_lem}
use weasyl.Ignores
use weasyl.Friends
use weasyl.Welcome.{favorite_insert, favorite_remove}
use weasyl.Favorites.{
  is_favorite, add_favorite, drop_favorite, notify_all, can_notify, notifiable, allows_notifs,
  find_owners, insert_transaction, remove_transaction, insert_favorite, remove_favorite, Content,
  content, check,
}
use weasyl.Favorites.Count.{same_type_refl}

notify_all-rest :
    (u : ℕ) (type : FavoriteType) (t : ℕ) (others : List ℕ) (db : Db)
    → ((notify_all u type t others db).favorites ≡ db.favorites)
      × ((notify_all u type t others db).submissions ≡ db.submissions)
unfolding notify_all favorite_insert
notify_all-rest u type t [] db = (refl, refl)
notify_all-rest u type t (other ∷ others) db =
    let (favorites, submissions) =
      notify_all-rest u type t others (favorite_insert u type t other db) in
    (favorites, submissions)

allows_notifs-state : (other : ℕ) (db : Db) → (allows_notifs other db).1 ≡ db
unfolding allows_notifs
allows_notifs-state other db = elim (Bool-cases (other == 0)) [
  | inl z ↦ rw z refl
  | inr n ↦ rw n (elim (Option-cases (first (λ pr. pr.userid == other) db.profiles)) [
    | inl e ↦ rw e refl
    | inr (pr, e) ↦ rw e refl
  ])
]

can_notify-state : (u other : ℕ) (db : Db) → (can_notify u other db).1 ≡ db
unfolding can_notify
can_notify-state u other db = ground (arith, allows_notifs-state other db)

notifiable-state : (u : ℕ) (others : List ℕ) (db : Db) → (notifiable u others db).1 ≡ db
unfolding notifiable
notifiable-state u [] db = refl
notifiable-state u (other ∷ others) db =
    ground (arith, can_notify-state u other db, notifiable-state u others db)

-- The state in which `insert_transaction` leaves the database, once it commits.
abbrev pub IsAdded : ℕ → FavoriteType → ℕ → Db → Db → Type 0
IsAdded u type t db db' =
    (exists (is_favorite u type t) db.favorites ≡ false)
    × (db'.favorites ≡ (add_favorite u type t db).favorites)
    × (db'.submissions ≡ (add_favorite u type t db).submissions)

-- What a call that adds a favorite may come to: it was there already, it is added, or the call
-- raises and nothing is written.
abbrev pub Outcome : ℕ → FavoriteType → ℕ → Db → Result Unit → Db → Type 0
Outcome u type t db r db' =
    ((r ≡ ok tt) × (db' ≡ db) × (exists (is_favorite u type t) db.favorites ≡ true))
    ⊎ (((r ≡ ok tt) × IsAdded u type t db db') ⊎ ((r ≢ ok tt) × (db' ≡ db)))

insert_transaction-Outcome :
    (u : ℕ) (type : FavoriteType) (t owner : ℕ) (db : Db)
    → let (r, db') = transaction (insert_transaction u type t owner) db in Outcome u type t db r db'
unfolding insert_transaction
insert_transaction-Outcome u type t owner db =
    elim (Bool-cases (exists (is_favorite u type t) db.favorites)) [
      | inl there ↦ inl (ground arith, ground arith, there)
      | inr new ↦
          let db1 = add_favorite u type t db in
          let owners = find_owners type t db1 in
          let state = notifiable-state u owners db1 in
          elim (Result-cases (notifiable u owners db1).0) [
            | inl (notified, e) ↦
                let rest = notify_all-rest u type t (notified ++ owner ∷ []) db1 in
                inr (
                  inl (
                    ground (arith, e, state),
                    (new, ground (arith, e, state, rest), ground (arith, e, state, rest)),
                  ))
            | inr (raised, e) ↦ inr (inr (ground (arith, e, state), ground (arith, e, state)))
          ]
    ]

-- Whether the checks of `insert` pass: the content exists and is not the user's own, friends only
-- content is a friend's, and neither ignores the other.
abbrev pub passes : ℕ → Option Content → Db → Bool
passes u none db = false
passes u (some query) db =
    not (u == query.owner)
    && (not (query.for_friends && not (Friends.check u query.owner db))
        && (not (Ignores.check u query.owner db) && not (Ignores.check query.owner u db)))

pub insert_favorite-Outcome :
    (faults : List Fault) (u : ℕ) (type : FavoriteType) (t : ℕ) (db : Db)
    → let (r, db') = insert_favorite faults u type t db in
      ((passes u (content type t db) db && gets_through faults ≡ true) × Outcome u type t db r db')
      ⊎ ((r ≢ ok tt) × (db' ≡ db))
unfolding insert_favorite
insert_favorite-Outcome faults u type t db = elim (Option-cases (content type t db)) [
  | inl e ↦ inr (ground arith, ground arith)
  | inr (query, e) ↦
      let retried = serializable_retry_lem faults (insert_transaction u type t query.owner) db in
      elim (Bool-cases (passes u (some query) db && gets_through faults)) [
        | inl h ↦
            let same : insert_favorite faults u type t db
                ≡ transaction (insert_transaction u type t query.owner) db =
              ground (arith, e, retried) in
            inl (
              ground arith,
              subst (λ x. Outcome u type t db x.0 x.1) (sym same)
                  (insert_transaction-Outcome u type t query.owner db),
            )
        | inr h ↦ inr (ground (arith, e, retried), ground (arith, e, retried))
      ]
]

-- Marking a favorite either returns, and then the checks passed, the database let an attempt
-- through, and `check` finds the favorite of a user with a positive id; or it raises, and then
-- nothing is written.
pub insert_favorite_lem :
    (faults : List Fault) (u : ℕ) (type : FavoriteType) (t : ℕ) (db : Db)
    → 0 < u
    → let (r, db') = insert_favorite faults u type t db in
      ((r ≡ ok tt)
        × (passes u (content type t db) db && gets_through faults ≡ true)
        × (check u type t db' ≡ true))
      ⊎ ((r ≢ ok tt) × (db' ≡ db))
unfolding check
insert_favorite_lem faults u type t db pu = elim (insert_favorite-Outcome faults u type t db) [
  | inr none_written ↦ inr none_written
  | inl (h, inr (inr none_written)) ↦ inr none_written
  | inl (h, inl (returns, same, there)) ↦ inl (returns, h, ground (arith, same))
  | inl (h, inr (inl (returns, (new, favorites, submissions)))) ↦
      let row : FavoriteRow = record { userid = u; targetid = t; type = type; unixtime = db.now } in
      inl (
        returns,
        h,
        ground (
          arith,
          favorites,
          exists-insert (is_favorite u type t) row db.favorites,
          same_type_refl type,
        ),
      )
]

abbrev pub IsDropped : ℕ → FavoriteType → ℕ → Db → Db → Type 0
IsDropped u type t db db' =
    (exists (is_favorite u type t) db.favorites ≡ true)
    × (db'.favorites ≡ (drop_favorite u type t db).favorites)
    × (db'.submissions ≡ (drop_favorite u type t db).submissions)

pub remove_favorite_outcome :
    (faults : List Fault) (u : ℕ) (type : FavoriteType) (t : ℕ) (db : Db)
    → let db' = (remove_favorite faults u type t db).1 in (db' ≡ db) ⊎ IsDropped u type t db db'
unfolding remove_favorite remove_transaction favorite_remove
remove_favorite_outcome faults u type t db =
    let retried = serializable_retry_lem faults (remove_transaction u type t) db in
    elim (Bool-cases (exists (is_favorite u type t) db.favorites && gets_through faults)) [
      | inl h ↦ inr (ground arith, ground (arith, retried), ground (arith, retried))
      | inr h ↦ inl (ground (arith, retried))
    ]
