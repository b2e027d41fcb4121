-- ===== src/Watches.antt =====
-- weasyl/followuser.py: who watches whom.
pub mod Effects
use weasyl.Prelude.{
  ℕ, Bool, true, false, not, ◌&&◌, ◌||◌, Option, none, some, List, [], ◌∷◌, map, ◌==◌,
  if◌then◌else◌,
}
use weasyl.Sql.{exists, select, first, delete, update, insert_new}
use weasyl.Database.{
  Str, has, WatchRow, FriendRow, Profile, Db, Action, Result, ok, err, pure, raise, raise_if, gets,
  modify, type_error, ◌>>=◌, ◌>>◌, ignored_you, you_ignored, watchuser_record_missing,
}
use weasyl.Ignores
use weasyl.Friends.{is_between, is_pending}
use weasyl.Welcome.{followuser_insert, followuser_remove}

abbrev pub is_watch : ℕ → ℕ → WatchRow → Bool
is_watch userid otherid row = row.userid == userid && row.otherid == otherid

-- `ratings.EXPLICIT.code` and `ratings.MATURE.code`
abbrev pub explicit : ℕ
explicit = 40

abbrev pub mature : ℕ
mature = 30

-- The clause on `pr.config` for a rating.
abbrev pub views_rating : ℕ → Str → Bool
views_rating rating config =
    if rating == explicit
    then has b'p' config
    else if rating == mature
    then has b'a' config || has b'p' config
    else true

-- `wu JOIN profile pr ON wu.userid = pr.userid` with a condition on the profile; `profile.userid` is
-- the primary key.
abbrev pub joined : ℕ → (Profile → Bool) → Db → Bool
joined userid p db = exists (λ pr. pr.userid == userid && p pr) db.profiles

-- The clause of `friends=True`: an accepted friendship in either direction.
abbrev pub befriended : ℕ → ℕ → Db → Bool
befriended userid otherid db =
    exists (λ fu. is_between userid otherid fu && not (is_pending fu.settings)) db.friends

-- `list_followed`: the users to notify who watch `userid` with the given setting.
pub list_followed : ℕ → ℕ → ℕ → Bool → Db → List ℕ
list_followed userid setting rating friends db =
    map (λ wu. wu.userid)
      (select
        (λ wu.
          wu.otherid == userid
          && (has setting wu.settings
              && ((if friends then befriended wu.userid wu.otherid db else true)
                  && joined wu.userid (λ pr. views_rating rating pr.config) db)))
        db.watches)

-- `select_settings`
pub select_settings : ℕ → ℕ → Action Str
select_settings userid otherid db = elim (first (is_watch userid otherid) db.watches) [
  | none ↦ raise watchuser_record_missing db
  | some row ↦ pure row.settings db
]

-- `d.get_config`: '' for no user; the row of a user that is missing cannot be made a dict.
pub get_config : ℕ → Action Str
get_config userid db =
    if userid == 0 then pure [] db else elim (first (λ pr. pr.userid == userid) db.profiles) [
      | none ↦ raise type_error db
      | some pr ↦ pure pr.config db
    ]

-- `WatchSettings.from_code(config).to_code()`: the codes of the five options that the string has, in
-- the order of `result.sort()`.
pub watch_settings : Str → Str
watch_settings config = select (λ code. has code config) (b'c' ∷ b'f' ∷ b'j' ∷ b's' ∷ b't' ∷ [])

-- `insert`
pub insert : ℕ → ℕ → Action Unit
unfolding followuser_insert followuser_remove
insert userid otherid = do
  raise_if (← gets (Ignores.check otherid userid)) ignored_you
  raise_if (← gets (Ignores.check userid otherid)) you_ignored
  config ← get_config userid
  modify (λ db. record db {
    watches =
        insert_new (is_watch userid otherid)
          (record { userid = userid; otherid = otherid; settings = watch_settings config })
          db.watches;
  })
  modify (followuser_remove userid otherid)
  modify (followuser_insert userid otherid)

-- `update`
pub update_settings : ℕ → ℕ → Str → Action Unit
update_settings userid otherid settings = modify (λ db. record db {
  watches = update (is_watch userid otherid) (λ row. record row { settings = settings }) db.watches;
})

-- `remove`
pub remove : ℕ → ℕ → Action Unit
unfolding followuser_remove
remove userid otherid = do
  modify (λ db. record db { watches = delete (is_watch userid otherid) db.watches })
  modify (followuser_remove userid otherid)
