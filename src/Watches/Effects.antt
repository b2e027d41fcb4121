-- ===== src/Watches/Effects.antt =====
-- What watching does to the tables (weasyl/followuser.py).
use weasyl.Prelude.{ℕ, ◌≡◌, ◌⊎◌, inl, inr, refl, true, [], arith, ◌==◌, Bool-cases, Option-cases}
use weasyl.Sql.{exists, first, insert_new, delete}
use weasyl.Sql.Laws.{exists-update}
use weasyl.Database.{WatchRow, Db, Str, ok, err, type_error}
use weasyl.Friends.Requests.{on_terms}
use weasyl.Watches.{is_watch, get_config, watch_settings, insert, update_settings, remove}

pub get_config_outcome :
    (u : ℕ) (db : Db)
    → (get_config u db ≡ (err type_error, db)) ⊎ (c : Str) × (get_config u db ≡ (ok c, db))
unfolding get_config
get_config_outcome u db = elim (Bool-cases (u == 0)) [
  | inl e ↦ inr ([], rw e)
  | inr e ↦ elim (Option-cases (first (λ pr. pr.userid == u) db.profiles)) [
    | inl f ↦ inl (rw (e, f))
    | inr (pr, f) ↦ inr (pr.config, rw (e, f))
  ]
]

-- The row that a watch adds, if there is none.
abbrev pub watch_row : ℕ → ℕ → Str → WatchRow
watch_row u o config = record { userid = u; otherid = o; settings = watch_settings config }

-- A watch changes nothing, or it adds a row on terms and writes neither ignores nor friends.
pub insert_outcome :
    (u o : ℕ) (db : Db)
    → let db' = (insert u o db).1 in
      (db' ≡ db)
      ⊎ (config : Str) × (on_terms u o db ≡ true)
        × (db'.ignores ≡ db.ignores)
        × (db'.friends ≡ db.friends)
        × (db'.watches ≡ insert_new (is_watch u o) (watch_row u o config) db.watches)
unfolding insert
insert_outcome u o db = elim (get_config_outcome u db) [
  | inl bad ↦ inl (ground (arith, bad))
  | inr (config, good) ↦ elim (Bool-cases (on_terms u o db)) [
    | inl terms ↦
        inr (config, terms, ground (arith, good), ground (arith, good), ground (arith, good))
    | inr ignored ↦ inl (ground (arith, good))
  ]
]

pub remove_outcome :
    (u o : ℕ) (db : Db)
    → let db' = (remove u o db).1 in
      (db'.ignores ≡ db.ignores)
      × (db'.friends ≡ db.friends)
      × (db'.watches ≡ delete (is_watch u o) db.watches)
unfolding remove
remove_outcome u o db = (refl, refl, refl)

pub update_settings_outcome :
    (u o : ℕ) (settings : Str) (db : Db)
    → let db' = (update_settings u o settings db).1 in
      (db'.ignores ≡ db.ignores)
      × (db'.friends ≡ db.friends)
      × ((a b : ℕ) → exists (is_watch a b) db'.watches ≡ exists (is_watch a b) db.watches)
unfolding update_settings
update_settings_outcome u o settings db = (
  refl,
  refl,
  λ a b.
      exists-update (is_watch u o) (is_watch a b) (λ row. record row { settings = settings })
        db.watches (λ r h. refl),
)
