-- ===== src/Database/Tables.antt =====
-- Rows of libweasyl/models/tables.py, and the state that the operations share.
use weasyl.Prelude.{ℕ, Bool, Option, List, ◌==◌, any}
use weasyl.Prelude.Int.{ℤ}

-- Codes of `CharSettingsColumn`s and other short strings, as lists of code points.
abbrev pub Str : Type 0
Str = List ℕ

-- `frienduser.settings`, which a constraint limits to '' and 'p'.
pub data FriendSettings : Type 0 where
  accepted pending : FriendSettings

pub record FriendRow : Type 0 where
  pub userid : ℕ
  pub otherid : ℕ
  pub settings : FriendSettings

pub record WatchRow : Type 0 where
  pub userid : ℕ
  pub otherid : ℕ
  pub settings : Str

pub record IgnoreRow : Type 0 where
  pub userid : ℕ
  pub otherid : ℕ

-- `favorite.type`: 's', 'f' and 'j'.
pub data FavoriteType : Type 0 where
  submit char journal : FavoriteType

pub record FavoriteRow : Type 0 where
  pub userid : ℕ
  pub targetid : ℕ
  pub type : FavoriteType
  pub unixtime : ℕ

pub record CollectionRow : Type 0 where
  pub userid : ℕ
  pub submitid : ℕ
  pub unixtime : ℕ
  pub settings : Str

-- What the modelled operations read and write of `submission`.
pub record Submission : Type 0 where
  pub submitid : ℕ
  pub userid : ℕ
  pub rating : ℕ
  pub hidden : Bool
  pub friends_only : Bool
  pub favorites : ℤ
  pub folderid : Option ℕ
  pub subtype : ℕ
  -- `browse_excluded`, which `IS NOT TRUE` reads
  pub browse_excluded : Bool

-- The same of `character` and of `journal`.
pub record Post : Type 0 where
  pub id : ℕ
  pub userid : ℕ
  pub rating : ℕ
  pub hidden : Bool
  pub friends_only : Bool

-- `profile`, with the settings of its `jsonb_settings` as columns.
pub record Profile : Type 0 where
  pub userid : ℕ
  pub config : Str
  pub allow_collection_requests : Bool
  pub allow_collection_notifs : Bool

pub record FolderRow : Type 0 where
  pub folderid : ℕ
  pub parentid : ℕ
  pub userid : ℕ
  pub title : Str
  pub settings : Str

-- `searchmapsubmit`, and the tables of the same columns for characters and journals: a tag of a post.
pub record TagRow : Type 0 where
  pub targetid : ℕ
  pub tagid : ℕ
  pub settings : Str
  pub added_by : Option ℕ

pub record BlocktagRow : Type 0 where
  pub userid : ℕ
  pub tagid : ℕ
  pub rating : ℕ

-- A row of `welcome`: a notification to `userid`.
pub record Notification : Type 0 where
  pub userid : ℕ
  pub otherid : ℕ
  pub referid : ℕ
  pub targetid : ℕ
  pub unixtime : ℕ
  pub type : ℕ

pub record Db : Type 0 where
  pub friends : List FriendRow
  pub watches : List WatchRow
  pub ignores : List IgnoreRow
  pub favorites : List FavoriteRow
  pub collections : List CollectionRow
  pub submissions : List Submission
  pub characters : List Post
  pub journals : List Post
  pub profiles : List Profile
  pub folders : List FolderRow
  pub submission_tags : List TagRow
  pub blocktags : List BlocktagRow
  pub welcome : List Notification
  -- `staff.MODS`
  pub mods : List ℕ
  -- `d.get_time()`, the same throughout one call
  pub now : ℕ

-- `settings ~ 'c'`: the string contains the code.
abbrev pub has : ℕ → Str → Bool
has code settings = any (λ c. c == code) settings
