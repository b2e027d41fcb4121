-- ===== src/Favorites.antt =====
-- weasyl/favorite.py: favorites of submissions, characters and journals. A call gives exactly one
-- of the three ids, so that the kind and the id stand for them.
pub mod Count
pub mod Calls
pub mod Invariant
use weasyl.Prelude.{
  ℕ, Bool, true, false, not, ◌&&◌, Option, none, some, List, [], ◌∷◌, ◌++◌, map, ◌==◌,
  if◌then◌else◌,
}
use weasyl.Prelude.Int.{pos, ◌+ℤ◌, ◌-ℤ◌}
use weasyl.Sql.{exists, select, first, count, delete, update, insert}
use weasyl.Database.{
  FavoriteType, submit, char, journal, FavoriteRow, CollectionRow, Submission, Post, Db, has,
  Action, Fault, pure, raise, raise_if, gets, modify, ◌>>=◌, ◌>>◌, serializable_retry,
  target_record_missing, cannot_self_favorite, friends_only, you_ignored, content_owner_ignored_you,
  type_error,
}
use weasyl.Ignores
use weasyl.Friends
use weasyl.Welcome.{favorite_insert, favorite_remove}

abbrev pub same_type : FavoriteType → FavoriteType → Bool
same_type submit submit = true
same_type char char = true
same_type journal journal = true
same_type _ _ = false

-- `(userid, targetid, type) = (…)`, the primary key.
abbrev pub is_favorite : ℕ → FavoriteType → ℕ → FavoriteRow → Bool
is_favorite userid type target row =
    row.userid == userid && (row.targetid == target && same_type row.type type)

-- `SELECT userid, friends_only FROM …`
pub record Content : Type 0 where
  pub owner : ℕ
  pub for_friends : Bool

abbrev post_content : Option Post → Option Content
post_content none = none
post_content (some p) = some (record { owner = p.userid; for_friends = p.friends_only })

abbrev submission_content : Option Submission → Option Content
submission_content none = none
submission_content (some s) = some (record { owner = s.userid; for_friends = s.friends_only })

pub content : FavoriteType → ℕ → Db → Option Content
content submit target db = submission_content (first (λ s. s.submitid == target) db.submissions)
content char target db = post_content (first (λ p. p.id == target) db.characters)
content journal target db = post_content (first (λ p. p.id == target) db.journals)

-- `collection.find_owners`; a character or a journal passes `None`, which equals no id.
unfoldable pub find_owners : FavoriteType → ℕ → Db → List ℕ
find_owners submit target db =
    map (λ row. row.userid)
      (select
        (λ row.
          row.submitid == target && not (has b'p' row.settings) && not (has b'r' row.settings))
        db.collections)
find_owners _ target db = []

-- `d.get_profile_settings(other).allow_collection_notifs`, which is `True` for no user.
unfoldable pub allows_notifs : ℕ → Action Bool
allows_notifs other db =
    if other == 0 then pure true db else elim (first (λ pr. pr.userid == other) db.profiles) [
      | none ↦ raise type_error db
      | some pr ↦ pure pr.allow_collection_notifs db
    ]

-- `can_notify`
unfoldable pub can_notify : ℕ → ℕ → Action Bool
can_notify userid other = do
  allow_notify ← allows_notifs other
  ignored ← gets (Ignores.check other userid)
  pure (allow_notify && not ignored)

-- `u for u in notified_ if can_notify(u)`
unfoldable pub notifiable : ℕ → List ℕ → Action (List ℕ)
notifiable userid [] = pure []
notifiable userid (other ∷ others) = do
  wanted ← can_notify userid other
  rest ← notifiable userid others
  pure (if wanted then other ∷ rest else rest)

-- The loop over `notified`.
pub notify_all : ℕ → FavoriteType → ℕ → List ℕ → Db → Db
notify_all userid type target [] db = db
notify_all userid type target (other ∷ others) db =
    notify_all userid type target others (favorite_insert userid type target other db)

-- `UPDATE submission SET favorites = … WHERE submitid = target`, of a submission only.
abbrev pub is_target : FavoriteType → ℕ → Submission → Bool
is_target submit target s = s.submitid == target
is_target _ target s = false

abbrev pub count_up : Submission → Submission
count_up s = record s { favorites = s.favorites +ℤ pos 1 }

abbrev pub count_down : Submission → Submission
count_down s = record s { favorites = s.favorites -ℤ pos 1 }

-- The first two statements of `insert_transaction`, where the row is new.
abbrev pub add_favorite : ℕ → FavoriteType → ℕ → Db → Db
add_favorite userid type target db = record db {
  favorites =
      insert (record { userid = userid; targetid = target; type = type; unixtime = db.now })
        db.favorites;
  submissions = update (is_target type target) count_up db.submissions;
}

-- `insert_transaction`. A retry uses the list `notified` of an earlier attempt, which is the same.
pub insert_transaction : ℕ → FavoriteType → ℕ → ℕ → Action Unit
insert_transaction userid type target owner db =
    if exists (is_favorite userid type target) db.favorites
    then pure tt db
    else (modify (add_favorite userid type target)
          >> (gets (find_owners type target) >>= λ owners. notifiable userid owners >>= λ notified.
              modify (notify_all userid type target (notified ++ owner ∷ []))))
        db

-- `insert`
pub insert_favorite : List Fault → ℕ → FavoriteType → ℕ → Action Unit
insert_favorite faults userid type target db = elim (content type target db) [
  | none ↦ raise target_record_missing db
  | some query ↦
      (raise_if (userid == query.owner) cannot_self_favorite
          >> raise_if (query.for_friends && not (Friends.check userid query.owner db)) friends_only
          >> raise_if (Ignores.check userid query.owner db) you_ignored
          >> raise_if (Ignores.check query.owner userid db) content_owner_ignored_you
          >> serializable_retry faults (insert_transaction userid type target query.owner))
        db
]

-- The deletion and the counter, where a row was deleted.
abbrev pub drop_favorite : ℕ → FavoriteType → ℕ → Db → Db
drop_favorite userid type target db = record db {
  favorites = delete (is_favorite userid type target) db.favorites;
  submissions = update (is_target type target) count_down db.submissions;
}

-- `remove_transaction`
pub remove_transaction : ℕ → FavoriteType → ℕ → Action Unit
remove_transaction userid type target db =
    if exists (is_favorite userid type target) db.favorites
    then modify (favorite_remove userid type target) (drop_favorite userid type target db)
    else pure tt db

-- `remove`
pub remove_favorite : List Fault → ℕ → FavoriteType → ℕ → Action Unit
remove_favorite faults userid type target =
    serializable_retry faults (remove_transaction userid type target)

-- `check`
pub check : ℕ → FavoriteType → ℕ → Db → Bool
check userid type target db =
    if userid == 0 then false else exists (is_favorite userid type target) db.favorites

-- `count`, of a journal or a character.
pub count_favorites : ℕ → FavoriteType → Db → ℕ
count_favorites target type db =
    count (λ row. row.targetid == target && same_type row.type type) db.favorites

-- A call that writes.
pub data FavoriteCall : Type 0 where
  favor unfavor : List Fault → ℕ → FavoriteType → ℕ → FavoriteCall

-- The state after a call, whether it returned or raised, and after several.
pub after : FavoriteCall → Db → Db
after (favor faults userid type target) db = (insert_favorite faults userid type target db).1
after (unfavor faults userid type target) db = (remove_favorite faults userid type target db).1

pub run_favorites : List FavoriteCall → Db → Db
run_favorites [] db = db
run_favorites (call ∷ calls) db = run_favorites calls (after call db)
