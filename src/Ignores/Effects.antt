-- ===== src/Ignores/Effects.antt =====
-- What ignoring and no longer ignoring does (weasyl/ignoreuser.py).
use weasyl.Prelude.{
  ℕ, ◌≡◌, ◌≢◌, ◌<◌, refl, Bool, true, false, ◌&&◌, ◌||◌, List, [], ◌∷◌, arith, ◌==◌, Bool-cases,
  inl, inr, ◌⊎◌,
}
use weasyl.Sql.{exists, insert_new, elem}
use weasyl.Sql.Laws.{exists-insert, exists-delete-false}
use weasyl.Database.{IgnoreRow, Db, ok}
use weasyl.Ignores.{
  is_ignore, check, insert_ignores, ignores_any, write_ignores, is_empty, includes_staff, insert,
  remove,
}

-- The pairs on record after the insertion: those before it, and the user with each listed other.
pub exists-insert_ignores :
    (u o userid : ℕ) (ignore : List ℕ) (rows : List IgnoreRow)
    → exists (is_ignore u o) (insert_ignores userid ignore rows)
      ≡ (exists (is_ignore u o) rows || (userid == u && elem o ignore))
unfolding insert_ignores
exists-insert_ignores u o userid [] rows = ground arith
exists-insert_ignores u o userid (other ∷ ignore) rows =
    let row : IgnoreRow = record { userid = userid; otherid = other } in
    ground (
      arith,
      exists-insert_ignores u o userid ignore (insert_new (is_ignore userid other) row rows),
      exists-insert (is_ignore u o) row rows,
    )

-- A call of `insert` writes all that it should or nothing.
pub insert_outcome :
    (userid : ℕ) (others : List ℕ) (db : Db)
    → ((insert userid others db).1 ≡ db)
      ⊎ ((insert userid others db).1 ≡ write_ignores userid others db)
unfolding insert
insert_outcome userid others db =
    elim (Bool-cases (is_empty others || (elem userid others || includes_staff others db))) [
      | inl stops ↦ inl (ground arith)
      | inr goes ↦ inr (ground arith)
    ]

-- A call of `remove` adds no pair, and touches no other table.
pub remove_outcome :
    (userid : ℕ) (others : List ℕ) (db : Db)
    → ((p : IgnoreRow → Bool)
        → exists p (remove userid others db).1.ignores ≡ true
        → exists p db.ignores ≡ true)
      × ((remove userid others db).1.friends ≡ db.friends)
      × ((remove userid others db).1.watches ≡ db.watches)
unfolding remove
remove_outcome userid [] db = (λ p h. h, refl, refl)
remove_outcome userid (other ∷ others) db = (
  λ p h. elim (Bool-cases (exists p db.ignores)) [
    | inl e ↦ e
    | inr e ↦
        absurd
          (ground (arith, exists-delete-false (ignores_any userid (other ∷ others)) p db.ignores e))
  ],
  refl,
  refl,
)

pub check-exists :
    (u o : ℕ) (db : Db) → 0 < u → 0 < o → check u o db ≡ exists (is_ignore u o) db.ignores
unfolding check
check-exists u o db pu po = ground arith

-- After a call that returns, exactly those are ignored who were before, or were listed.
pub insert-check :
    (userid : ℕ) (others : List ℕ) (u o : ℕ) (db : Db)
    → 0 < u
    → 0 < o
    → (insert userid others db).0 ≡ ok tt
    → check u o (insert userid others db).1 ≡ (check u o db || (userid == u && elem o others))
unfolding insert check
insert-check userid [] u o db pu po e = ground arith
insert-check userid (other ∷ others) u o db pu po e =
    ground (arith, exists-insert_ignores u o userid (other ∷ others) db.ignores)

-- Ignoring raises for a list with oneself or with staff, and then nothing is written. In every
-- other case it succeeds, and afterwards, for any two positive ids, `check` finds the listed users
-- ignored beside those who were before, and nobody else.
pub insert_lem :
    (userid : ℕ) (others : List ℕ) (u o : ℕ) (db : Db)
    → 0 < u
    → 0 < o
    → let (r, db') = insert userid others db in
      ((elem userid others || includes_staff others db ≡ true) × (r ≢ ok tt) × (db' ≡ db))
      ⊎ ((elem userid others || includes_staff others db ≡ false)
          × (r ≡ ok tt)
          × (check u o db' ≡ (check u o db || (userid == u && elem o others))))
unfolding insert
insert_lem userid [] u o db pu po = inr (refl, refl, insert-check userid [] u o db pu po refl)
insert_lem userid (other ∷ others) u o db pu po =
    elim (Bool-cases (elem userid (other ∷ others) || includes_staff (other ∷ others) db)) [
      | inl h ↦ inl (h, ground arith, ground arith)
      | inr h ↦
          let fine : (insert userid (other ∷ others) db).0 ≡ ok tt = ground arith in
          inr (h, fine, insert-check userid (other ∷ others) u o db pu po fine)
    ]
