-- ===== src/Friends.antt =====
-- weasyl/frienduser.py: friend requests and friendships, and their notifications.
pub mod Index
pub mod Relation
pub mod Requests
pub mod Removal
use Prim.Native.Nat.{bit_xor}
use weasyl.Prelude.{
  ℕ, Bool, true, false, not, ◌&&◌, ◌||◌, Option, none, some, List, [], ◌∷◌, min, ◌==◌,
  if◌then◌else◌,
}
use weasyl.Sql.{exists, select, first, delete, update, insert}
use weasyl.Database.{
  FriendSettings, accepted, pending, FriendRow, Db, Action, pure, raise, raise_if, gets, modify,
  Fault, serializable_retry, ◌>>=◌, ◌>>◌, ignored_you, you_ignored, multiple_results,
}
use weasyl.Ignores
use weasyl.Welcome.{
  frienduserrequest_insert, frienduserrequest_remove, frienduseraccept_insert,
  frienduseraccept_remove,
}

abbrev pub is_pending : FriendSettings → Bool
is_pending pending = true
is_pending accepted = false

-- `(userid, otherid) = (a, b)`
abbrev pub is_row : ℕ → ℕ → FriendRow → Bool
is_row a b row = row.userid == a && row.otherid == b

-- `(userid, otherid) = (a, b) OR (userid, otherid) = (b, a)`
abbrev pub is_between : ℕ → ℕ → FriendRow → Bool
is_between a b row = is_row a b row || is_row b a row

-- A request from the first to the second that is pending.
abbrev pub is_request : ℕ → ℕ → FriendRow → Bool
is_request sender recipient row = is_row sender recipient row && is_pending row.settings

-- `check`
unfoldable pub check : ℕ → ℕ → Db → Bool
check userid otherid db =
    if userid == 0 || otherid == 0
    then false
    else if userid == otherid
    then true
    else exists (λ row. is_between userid otherid row && not (is_pending row.settings)) db.friends

-- `has_friends`
pub has_friends : ℕ → Db → Bool
has_friends otherid db =
    exists
      (λ row. (row.userid == otherid || row.otherid == otherid) && not (is_pending row.settings))
      db.friends

-- The unique index over `least(userid, otherid), userid # otherid`.
abbrev pub in_conflict : ℕ → ℕ → FriendRow → Bool
in_conflict userid otherid row =
    min row.userid row.otherid == min userid otherid
    && bit_xor row.userid row.otherid == bit_xor userid otherid

abbrev pub accept : FriendRow → FriendRow
accept row = record row { settings = accepted }

-- The upsert of `request`, with the settings that it returns, if it returns a row.
-- `conflict` is the test for the conflicting row.
pub upsert_on : (FriendRow → Bool) → ℕ → ℕ → List FriendRow → Option FriendSettings × List FriendRow
upsert_on conflict userid otherid rows = elim (first conflict rows) [
  | none ↦ (
    some pending,
    insert (record { userid = userid; otherid = otherid; settings = pending }) rows,
  )
  | some fu ↦
      if is_row otherid userid fu && is_pending fu.settings
      then (some accepted, update conflict accept rows)
      else (none, rows)
]

pub upsert : ℕ → ℕ → List FriendRow → Option FriendSettings × List FriendRow
unfolding upsert_on
upsert userid otherid = upsert_on (in_conflict userid otherid) userid otherid

-- The `match` on the returned settings.
pub request_notifications : ℕ → ℕ → Option FriendSettings → Db → Db
unfolding frienduserrequest_insert frienduserrequest_remove frienduseraccept_insert
request_notifications userid otherid none db = db
request_notifications userid otherid (some accepted) db =
    frienduseraccept_insert otherid userid (frienduserrequest_remove otherid userid db)
request_notifications userid otherid (some pending) db =
    frienduserrequest_insert userid otherid (frienduserrequest_remove userid otherid db)

pub request_transaction : ℕ → ℕ → Action Unit
unfolding upsert request_notifications
request_transaction userid otherid db =
    let (settings, rows) = upsert userid otherid db.friends in
    modify (request_notifications userid otherid settings) (record db { friends = rows })

-- `request`; the list holds the attempts that the database fails.
pub request : List Fault → ℕ → ℕ → Action Unit
unfolding request_transaction
request faults userid otherid = do
  raise_if (← gets (Ignores.check otherid userid)) ignored_you
  raise_if (← gets (Ignores.check userid otherid)) you_ignored
  serializable_retry faults (request_transaction userid otherid)

-- What is done with the deleted rows: `.one_or_none()`, and the branches of `remove`.
pub after_remove : List FriendRow → Action Unit
unfolding frienduserrequest_remove frienduseraccept_remove
after_remove [] = pure tt
after_remove (row ∷ []) = modify (
    if is_pending row.settings
    then frienduserrequest_remove row.userid row.otherid
    else frienduseraccept_remove row.userid row.otherid)
after_remove (row ∷ other ∷ rows) = raise multiple_results

pub remove_transaction : ℕ → ℕ → Action Unit
unfolding after_remove
remove_transaction userid otherid db =
    after_remove (select (is_between userid otherid) db.friends)
      (record db { friends = delete (is_between userid otherid) db.friends })

-- `remove`
pub remove : List Fault → ℕ → ℕ → Action Unit
unfolding remove_transaction
remove faults userid otherid = serializable_retry faults (remove_transaction userid otherid)

-- `remove_request`
pub remove_request_transaction : ℕ → ℕ → Action Unit
unfolding frienduserrequest_remove
remove_request_transaction sender recipient db =
    modify (frienduserrequest_remove sender recipient)
      (record db { friends = delete (is_request sender recipient) db.friends })

pub remove_request : List Fault → ℕ → ℕ → Action Unit
unfolding remove_request_transaction
remove_request faults sender recipient =
    serializable_retry faults (remove_request_transaction sender recipient)
