-- ===== src/Ignores.antt =====
-- weasyl/ignoreuser.py. The cache of `cached_list_ignoring` is left out.
pub mod Effects
use weasyl.Prelude.{
  ℕ, Bool, true, false, not, ◌&&◌, ◌||◌, List, [], ◌∷◌, map, ◌==◌, if◌then◌else◌, any,
}
use weasyl.Sql.{exists, select, delete, insert_new, elem}
use weasyl.Database.{
  IgnoreRow, FriendRow, WatchRow, Db, Action, pure, raise, raise_if, modify, transaction, ◌>>◌,
  cannot_ignore_self, cannot_ignore_staff,
}

abbrev pub is_ignore : ℕ → ℕ → IgnoreRow → Bool
is_ignore userid otherid row = row.userid == userid && row.otherid == otherid

-- `check`: whether `userid` ignores `otherid`.
unfoldable pub check : ℕ → ℕ → Db → Bool
check userid otherid db =
    if userid == 0 || otherid == 0 then false else exists (is_ignore userid otherid) db.ignores

-- `cached_list_ignoring`, past its cache.
pub list_ignoring : ℕ → Db → List ℕ
list_ignoring userid db = map (λ row. row.otherid) (select (λ row. row.userid == userid) db.ignores)

-- `INSERT INTO ignoreuser SELECT userid, ignore FROM UNNEST (ignore) ON CONFLICT DO NOTHING`
pub insert_ignores : ℕ → List ℕ → List IgnoreRow → List IgnoreRow
insert_ignores userid [] rows = rows
insert_ignores userid (other ∷ ignore) rows =
    insert_ignores userid ignore
      (insert_new (is_ignore userid other) (record { userid = userid; otherid = other }) rows)

abbrev pub befriends_any : ℕ → List ℕ → FriendRow → Bool
befriends_any userid ignore row =
    (row.userid == userid && elem row.otherid ignore)
    || (row.otherid == userid && elem row.userid ignore)

abbrev pub watches_any : ℕ → List ℕ → WatchRow → Bool
watches_any userid ignore row = row.userid == userid && elem row.otherid ignore

abbrev pub ignores_any : ℕ → List ℕ → IgnoreRow → Bool
ignores_any userid ignore row = row.userid == userid && elem row.otherid ignore

-- The three statements of `insert`.
abbrev pub write_ignores : ℕ → List ℕ → Db → Db
write_ignores userid ignore db = record db {
  ignores = insert_ignores userid ignore db.ignores;
  friends = delete (befriends_any userid ignore) db.friends;
  watches = delete (watches_any userid ignore) db.watches;
}

abbrev pub is_empty : List ℕ → Bool
is_empty [] = true
is_empty (x ∷ xs) = false

-- `not staff.MODS.isdisjoint(ignore)`
abbrev pub includes_staff : List ℕ → Db → Bool
includes_staff ignore db = any (λ other. elem other db.mods) ignore

-- `insert`
pub insert : ℕ → List ℕ → Action Unit
insert userid ignore db =
    if is_empty ignore
    then pure tt db
    else transaction
        (raise_if (elem userid ignore) cannot_ignore_self
          >> raise_if (includes_staff ignore db) cannot_ignore_staff
          >> modify (write_ignores userid ignore))
        db

-- `remove`
pub remove : ℕ → List ℕ → Action Unit
remove userid ignore db =
    if is_empty ignore
    then pure tt db
    else modify (λ db. record db { ignores = delete (ignores_any userid ignore) db.ignores }) db
