-- ===== src/Social/Invariant.antt =====
-- What holds of ignores, friendships and watches after any sequence of calls.
use weasyl.Prelude.{ℕ, sym, subst, inl, inr, Bool, List, [], ◌∷◌, arith}
use weasyl.Sql.{delete}
use weasyl.Sql.Laws.{count-delete_le}
use weasyl.Database.{FriendRow, Fault, Db}
use weasyl.Ignores
use weasyl.Ignores.{befriends_any}
use weasyl.Ignores.Effects as IgnoreEffects
use weasyl.Friends
use weasyl.Friends.{is_between, is_request}
use weasyl.Friends.Relation.{IsUnique, upsert-IsUnique}
use weasyl.Friends.Requests
use weasyl.Friends.Removal
use weasyl.Watches
use weasyl.Watches.Effects as WatchEffects
use weasyl.Social.{
  Call, ignore, unignore, befriend, unfriend, take_back, watch, unwatch, set_watch, after, run,
}
use weasyl.Social.Separation.{IsSeparated, after-IsSeparated}

delete-IsUnique :
    (p : FriendRow → Bool) (rows : List FriendRow) → IsUnique rows → IsUnique (delete p rows)
delete-IsUnique p rows unique a b =
    omega (arith, count-delete_le p (is_between a b) rows, unique a b)

IsUnique-ignore :
    (u : ℕ) (others : List ℕ) (db : Db)
    → IsUnique db.friends
    → IsUnique (Ignores.insert u others db).1.friends
IsUnique-ignore u others db unique = elim (IgnoreEffects.insert_outcome u others db) [
  | inl same ↦ subst (λ d. IsUnique d.friends) (sym same) unique
  | inr written ↦
      subst (λ d. IsUnique d.friends) (sym written)
        (delete-IsUnique (befriends_any u others) db.friends unique)
]

IsUnique-befriend :
    (faults : List Fault) (a b : ℕ) (db : Db)
    → IsUnique db.friends
    → IsUnique (Friends.request faults a b db).1.friends
IsUnique-befriend faults a b db unique = elim (Requests.request_outcome faults a b db) [
  | inl same ↦ subst (λ d. IsUnique d.friends) (sym same) unique
  | inr (terms, ignores, friends, watches) ↦
      subst IsUnique (sym friends) (upsert-IsUnique a b db.friends unique)
]

IsUnique-unfriend :
    (faults : List Fault) (a b : ℕ) (db : Db)
    → IsUnique db.friends
    → IsUnique (Friends.remove faults a b db).1.friends
IsUnique-unfriend faults a b db unique = elim (Removal.remove_outcome faults a b db) [
  | inl same ↦ subst (λ d. IsUnique d.friends) (sym same) unique
  | inr (friends, ignores, watches) ↦
      subst IsUnique (sym friends) (delete-IsUnique (is_between a b) db.friends unique)
]

IsUnique-take_back :
    (faults : List Fault) (a b : ℕ) (db : Db)
    → IsUnique db.friends
    → IsUnique (Friends.remove_request faults a b db).1.friends
IsUnique-take_back faults a b db unique = elim (Removal.remove_request_outcome faults a b db) [
  | inl same ↦ subst (λ d. IsUnique d.friends) (sym same) unique
  | inr (friends, ignores, watches) ↦
      subst IsUnique (sym friends) (delete-IsUnique (is_request a b) db.friends unique)
]

IsUnique-watch :
    (a b : ℕ) (db : Db) → IsUnique db.friends → IsUnique (Watches.insert a b db).1.friends
IsUnique-watch a b db unique = elim (WatchEffects.insert_outcome a b db) [
  | inl same ↦ subst (λ d. IsUnique d.friends) (sym same) unique
  | inr (config, terms, ignores, friends, watches) ↦ subst IsUnique (sym friends) unique
]

after-IsUnique : (call : Call) (db : Db) → IsUnique db.friends → IsUnique (after call db).friends
unfolding after
after-IsUnique (ignore u others) db h = IsUnique-ignore u others db h
after-IsUnique (unignore u others) db h =
    subst IsUnique (sym (IgnoreEffects.remove_outcome u others db).1) h
after-IsUnique (befriend faults a b) db h = IsUnique-befriend faults a b db h
after-IsUnique (unfriend faults a b) db h = IsUnique-unfriend faults a b db h
after-IsUnique (take_back faults a b) db h = IsUnique-take_back faults a b db h
after-IsUnique (watch a b) db h = IsUnique-watch a b db h
after-IsUnique (unwatch a b) db h = subst IsUnique (sym (WatchEffects.remove_outcome a b db).1) h
after-IsUnique (set_watch a b settings) db h =
    subst IsUnique (sym (WatchEffects.update_settings_outcome a b settings db).1) h

-- From any state in which no ignored user is a friend, asked or watched by who ignores them, and in
-- which every two users share at most one friendship row, any sequence of calls of the functions
-- that ignore, befriend and watch, whether they return, raise or are retried, ends in such a state.
pub run-IsSeparated :
    (calls : List Call) (db : Db)
    → IsSeparated db
    → IsUnique db.friends
    → IsSeparated (run calls db) × IsUnique (run calls db).friends
unfolding run
run-IsSeparated [] db sep unique = (sep, unique)
run-IsSeparated (call ∷ calls) db sep unique =
    run-IsSeparated calls (after call db) (after-IsSeparated call db sep)
      (after-IsUnique call db unique)
