-- ===== src/Favorites/Invariant.antt =====
-- weasyl/favorite.py: the counters stay right over any sequence of calls.
use weasyl.Prelude.{ℕ, ◌≡◌, List, [], ◌∷◌, All, sym, subst, inl, inr}
use weasyl.Database.{FavoriteType, Db, Fault}
use weasyl.Favorites.{
  add_favorite, drop_favorite, insert_favorite, remove_favorite, FavoriteCall, favor, unfavor,
  after, run_favorites,
}
use weasyl.Favorites.Count.{
  CountedBy, IsCounted, IsKeyed, add_favorite-IsCounted, drop_favorite-IsCounted,
  add_favorite-IsKeyed, drop_favorite-IsKeyed,
}
use weasyl.Favorites.Calls.{insert_favorite-Outcome, remove_favorite_outcome}

abbrev pub IsConsistent : Db → Type 0
IsConsistent db = IsCounted db × IsKeyed db.favorites

-- Only these two tables matter.
IsConsistent-cong :
    (db db' : Db)
    → db'.favorites ≡ db.favorites
    → db'.submissions ≡ db.submissions
    → IsConsistent db
    → IsConsistent db'
IsConsistent-cong db db' favorites submissions (counted, keyed) = (
  subst (λ rows. All (CountedBy rows) db'.submissions) (sym favorites)
      (subst (All (CountedBy db.favorites)) (sym submissions) counted),
  subst IsKeyed (sym favorites) keyed,
)

insert_favorite-IsConsistent :
    (faults : List Fault) (u : ℕ) (type : FavoriteType) (t : ℕ) (db : Db)
    → IsConsistent db
    → IsConsistent (insert_favorite faults u type t db).1
insert_favorite-IsConsistent faults u type t db con =
    elim (insert_favorite-Outcome faults u type t db) [
      | inr (raises, same) ↦ subst IsConsistent (sym same) con
      | inl (h, inl (returns, same, there)) ↦ subst IsConsistent (sym same) con
      | inl (h, inr (inr (raises, same))) ↦ subst IsConsistent (sym same) con
      | inl (h, inr (inl (returns, (new, favorites, submissions)))) ↦
          IsConsistent-cong (add_favorite u type t db) (insert_favorite faults u type t db).1
            favorites submissions
            (add_favorite-IsCounted u type t db con.0, add_favorite-IsKeyed u type t db new con.1)
    ]

remove_favorite-IsConsistent :
    (faults : List Fault) (u : ℕ) (type : FavoriteType) (t : ℕ) (db : Db)
    → IsConsistent db
    → IsConsistent (remove_favorite faults u type t db).1
remove_favorite-IsConsistent faults u type t db con =
    elim (remove_favorite_outcome faults u type t db) [
      | inl same ↦ subst IsConsistent (sym same) con
      | inr (there, favorites, submissions) ↦
          IsConsistent-cong (drop_favorite u type t db) (remove_favorite faults u type t db).1
            favorites submissions
            (
              drop_favorite-IsCounted u type t db con.1 there con.0,
              drop_favorite-IsKeyed u type t db con.1,
            )
    ]

after-IsConsistent :
    (call : FavoriteCall) (db : Db) → IsConsistent db → IsConsistent (after call db)
unfolding after
after-IsConsistent (favor faults u type t) db con =
    insert_favorite-IsConsistent faults u type t db con
after-IsConsistent (unfavor faults u type t) db con =
    remove_favorite-IsConsistent faults u type t db con

-- From a state in which the counter of every submission is the number of its favorites, and no
-- favorite is stored twice, every sequence of calls that mark and unmark favorites, whether they
-- return, raise or are retried, ends in such a state.
pub run_favorites-IsConsistent :
    (calls : List FavoriteCall) (db : Db) → IsConsistent db → IsConsistent (run_favorites calls db)
unfolding run_favorites
run_favorites-IsConsistent [] db con = con
run_favorites-IsConsistent (call ∷ calls) db con =
    run_favorites-IsConsistent calls (after call db) (after-IsConsistent call db con)
