-- ===== src/Accounts/Tables.antt =====
-- The rows of libweasyl/models/tables.py that weasyl/login.py reads and writes. Columns that no modelled operation
-- reads are left out.
use weasyl.Prelude.{ℕ, Bool, Option, List}
use weasyl.Database.{Str}
use weasyl.ResetPassword.{HashRow}

-- `logincreate`
pub record PendingRow : Type 0 where
  pub token : Str
  pub username : Str
  pub login_name : Str
  pub hashpass : Str
  pub email : Str
  pub created_at : ℕ
  pub invalid : Bool
  pub invalid_email_addr : Option Str

-- `login`
pub record LoginRow : Type 0 where
  pub userid : ℕ
  pub login_name : Str
  pub email : Str
  pub twofa_secret : Option Str

-- `profile`
pub record ProfileRow : Type 0 where
  pub userid : ℕ
  pub username : Str

-- `username_history`; `deactivated` are the time and the user.
pub record HistoryRow : Type 0 where
  pub userid : ℕ
  pub username : Str
  pub login_name : Str
  pub replaced_at : ℕ
  pub replaced_by : ℕ
  pub active : Bool
  pub deactivated : Option (ℕ × ℕ)
  pub cosmetic : Bool

-- `suspension`
pub record SuspensionRow : Type 0 where
  pub userid : ℕ
  pub release : ℕ

-- `emailverify`
pub record EmailRow : Type 0 where
  pub userid : ℕ
  pub email : Str
  pub token : Str
  pub createtimestamp : ℕ

pub record AccountDb : Type 0 where
  pub pending : List PendingRow
  pub logins : List LoginRow
  pub hashes : List HashRow
  pub profiles : List ProfileRow
  -- The users of `userinfo`, of `permaban` and of `sessions`.
  pub userinfos : List ℕ
  pub bans : List ℕ
  pub sessions : List ℕ
  pub suspensions : List SuspensionRow
  pub emails : List EmailRow
  -- `useralias.alias_name`
  pub aliases : List Str
  pub history : List HistoryRow
  -- The sequence of user ids, and `now()`.
  pub next_userid : ℕ
  pub now : ℕ
