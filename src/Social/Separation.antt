-- ===== src/Social/Separation.antt =====
-- Who ignores someone is neither their friend, nor asked by them, nor their watcher.
use weasyl.Prelude.{
  ℕ, ◌<◌, ◌≡◌, sym, ◌∙◌, subst, inl, inr, true, false, ◌&&◌, List, arith, ◌==◌, Bool-cases,
}
use weasyl.Sql.{exists, elem}
use weasyl.Sql.Laws.{exists-delete_implied, exists-delete-false, exists-insert_no}
use weasyl.Database.{Str, Db, Fault}
use weasyl.Ignores
use weasyl.Ignores.{is_ignore, befriends_any, watches_any, write_ignores}
use weasyl.Ignores.Effects.{check-exists, insert_outcome, remove_outcome, exists-insert_ignores}
use weasyl.Friends
use weasyl.Friends.Removal
use weasyl.Friends.{is_request, is_between, is_row, upsert}
use weasyl.Friends.Relation.{upsert-exists_no}
use weasyl.Friends.Requests.{request_outcome}
use weasyl.Watches
use weasyl.Watches.Effects
use weasyl.Watches.Effects.{watch_row}
use weasyl.Watches.{is_watch}
use weasyl.Social.{
  Call, ignore, unignore, befriend, unfriend, take_back, watch, unwatch, set_watch, after,
}

-- No row joins two users of whom one ignores the other, but one by which the ignored watches.
abbrev pub IsSeparated : Db → Type 0
IsSeparated db =
    (u o : ℕ)
    → 0 < u
    → 0 < o
    → exists (is_ignore u o) db.ignores ≡ true
    → (exists (is_between u o) db.friends ≡ false) × (exists (is_watch u o) db.watches ≡ false)

write_ignores-IsSeparated :
    (userid : ℕ) (others : List ℕ) (db : Db)
    → IsSeparated db
    → IsSeparated (write_ignores userid others db)
write_ignores-IsSeparated userid others db sep u o pu po ig =
    elim (Bool-cases (userid == u && elem o others)) [
      | inl new ↦ (
        exists-delete_implied (befriends_any userid others) (is_between u o) db.friends
            (λ r m. ground arith),
        exists-delete_implied (watches_any userid others) (is_watch u o) db.watches
            (λ r m. ground arith),
      )
      | inr old ↦
          let (apart, unwatched) =
            sep u o pu po (ground (arith, exists-insert_ignores u o userid others db.ignores)) in
          (
            exists-delete-false (befriends_any userid others) (is_between u o) db.friends apart,
            exists-delete-false (watches_any userid others) (is_watch u o) db.watches unwatched,
          )
    ]

insert-IsSeparated :
    (userid : ℕ) (others : List ℕ) (db : Db)
    → IsSeparated db
    → IsSeparated (Ignores.insert userid others db).1
insert-IsSeparated userid others db sep = elim (insert_outcome userid others db) [
  | inl same ↦ subst IsSeparated (sym same) sep
  | inr written ↦ subst IsSeparated (sym written) (write_ignores-IsSeparated userid others db sep)
]

remove-IsSeparated :
    (userid : ℕ) (others : List ℕ) (db : Db)
    → IsSeparated db
    → IsSeparated (Ignores.remove userid others db).1
remove-IsSeparated userid others db sep u o pu po ig =
    let (ignores, friends, watches) = remove_outcome userid others db in
    let kept : exists (is_ignore u o) db.ignores ≡ true = ignores (is_ignore u o) ig in
    let (apart, unwatched) = sep u o pu po kept in (rw friends apart, rw watches unwatched)

-- An ignored user is one for the checks that guard requests and watches.
check_reads :
    (u o : ℕ) (db : Db)
    → 0 < u
    → 0 < o
    → exists (is_ignore u o) db.ignores ≡ true
    → Ignores.check u o db ≡ true
check_reads u o db pu po ig = check-exists u o db pu po ∙ ig

-- A request on terms adds no row between two users of whom one ignores the other.
request-IsSeparated :
    (faults : List Fault) (a b : ℕ) (db : Db)
    → IsSeparated db
    → IsSeparated (Friends.request faults a b db).1
request-IsSeparated faults a b db sep = elim (request_outcome faults a b db) [
  | inl same ↦ subst IsSeparated (sym same) sep
  | inr (terms, ignores, friends, watches) ↦ λ u o pu po ig.
      let here : exists (is_ignore u o) db.ignores ≡ true =
        subst (λ l. exists (is_ignore u o) l ≡ true) ignores ig in
      let (apart, unwatched) = sep u o pu po here in
      let seen = check_reads u o db pu po here in
      (
        rw friends (upsert-exists_no a b db.friends u o apart (ground (arith, seen))),
        rw watches unwatched,
      )
]

-- Rows that only go away separate nobody less.
fewer-IsSeparated :
    (db db' : Db)
    → IsSeparated db
    → (db'.ignores ≡ db.ignores)
    → ((u o : ℕ)
        → exists (is_between u o) db.friends ≡ false
        → exists (is_between u o) db'.friends ≡ false)
    → ((u o : ℕ)
        → exists (is_watch u o) db.watches ≡ false
        → exists (is_watch u o) db'.watches ≡ false)
    → IsSeparated db'
fewer-IsSeparated db db' sep ignores friends watches u o pu po ig =
    let (apart, unwatched) =
      sep u o pu po (subst (λ l. exists (is_ignore u o) l ≡ true) ignores ig) in
    (friends u o apart, watches u o unwatched)

same_watches :
    (db db' : Db)
    → (db'.watches ≡ db.watches)
    → (u o : ℕ) → exists (is_watch u o) db.watches ≡ false
    → exists (is_watch u o) db'.watches ≡ false
same_watches db db' e u o h = rw e h

same_friends :
    (db db' : Db)
    → (db'.friends ≡ db.friends)
    → (u o : ℕ) → exists (is_between u o) db.friends ≡ false
    → exists (is_between u o) db'.friends ≡ false
same_friends db db' e u o h = rw e h

unfriend-IsSeparated :
    (faults : List Fault) (a b : ℕ) (db : Db)
    → IsSeparated db
    → IsSeparated (Friends.remove faults a b db).1
unfriend-IsSeparated faults a b db sep = elim (Removal.remove_outcome faults a b db) [
  | inl same ↦ subst IsSeparated (sym same) sep
  | inr (friends, ignores, watches) ↦
      fewer-IsSeparated db (Friends.remove faults a b db).1 sep ignores
        (λ u o h. rw friends (exists-delete-false (is_between a b) (is_between u o) db.friends h))
        (same_watches db (Friends.remove faults a b db).1 watches)
]

take_back-IsSeparated :
    (faults : List Fault) (a b : ℕ) (db : Db)
    → IsSeparated db
    → IsSeparated (Friends.remove_request faults a b db).1
take_back-IsSeparated faults a b db sep = elim (Removal.remove_request_outcome faults a b db) [
  | inl same ↦ subst IsSeparated (sym same) sep
  | inr (friends, ignores, watches) ↦
      fewer-IsSeparated db (Friends.remove_request faults a b db).1 sep ignores
        (λ u o h. rw friends (exists-delete-false (is_request a b) (is_between u o) db.friends h))
        (same_watches db (Friends.remove_request faults a b db).1 watches)
]

watch-IsSeparated : (a b : ℕ) (db : Db) → IsSeparated db → IsSeparated (Watches.insert a b db).1
watch-IsSeparated a b db sep = elim (Effects.insert_outcome a b db) [
  | inl same ↦ subst IsSeparated (sym same) sep
  | inr (config, terms, ignores, friends, watches) ↦ λ u o pu po ig.
      let here : exists (is_ignore u o) db.ignores ≡ true =
        subst (λ l. exists (is_ignore u o) l ≡ true) ignores ig in
      let (apart, unwatched) = sep u o pu po here in
      let seen = check_reads u o db pu po here in
      (
        rw friends apart,
        rw watches (
            ground
              (arith, seen, exists-insert_no (is_watch u o) (watch_row a b config) db.watches)),
      )
]

unwatch-IsSeparated : (a b : ℕ) (db : Db) → IsSeparated db → IsSeparated (Watches.remove a b db).1
unwatch-IsSeparated a b db sep =
    let (ignores, friends, watches) = Effects.remove_outcome a b db in
    fewer-IsSeparated db (Watches.remove a b db).1 sep ignores
      (same_friends db (Watches.remove a b db).1 friends)
      (λ u o h. rw watches (exists-delete-false (is_watch a b) (is_watch u o) db.watches h))

set_watch-IsSeparated :
    (a b : ℕ) (settings : Str) (db : Db)
    → IsSeparated db
    → IsSeparated (Watches.update_settings a b settings db).1
set_watch-IsSeparated a b settings db sep =
    let (ignores, friends, watches) = Effects.update_settings_outcome a b settings db in
    fewer-IsSeparated db (Watches.update_settings a b settings db).1 sep ignores
      (same_friends db (Watches.update_settings a b settings db).1 friends)
      (λ u o h. watches u o ∙ h)

-- One call, whichever it is and however it ends, keeps ignoring apart from the rest.
pub after-IsSeparated : (call : Call) (db : Db) → IsSeparated db → IsSeparated (after call db)
unfolding after
after-IsSeparated (ignore userid others) db sep = insert-IsSeparated userid others db sep
after-IsSeparated (unignore userid others) db sep = remove-IsSeparated userid others db sep
after-IsSeparated (befriend faults a b) db sep = request-IsSeparated faults a b db sep
after-IsSeparated (unfriend faults a b) db sep = unfriend-IsSeparated faults a b db sep
after-IsSeparated (take_back faults a b) db sep = take_back-IsSeparated faults a b db sep
after-IsSeparated (watch a b) db sep = watch-IsSeparated a b db sep
after-IsSeparated (unwatch a b) db sep = unwatch-IsSeparated a b db sep
after-IsSeparated (set_watch a b settings) db sep = set_watch-IsSeparated a b settings db sep
