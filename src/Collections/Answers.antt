-- ===== src/Collections/Answers.antt =====
-- weasyl/collection.py: what happens to the notifications of an offer or request that is accepted.
use weasyl.Prelude.{
  ℕ, ◌≡◌, refl, Bool, false, ◌&&◌, ◌||◌, List, [], ◌∷◌, map, arith, ◌==◌, ◌∙◌, Bool-cases, inl, inr,
}
use weasyl.Sql.{exists, select, count, update}
use weasyl.Sql.Laws.{count-append, count-delete_other}
use weasyl.Database.{CollectionRow, WatchRow, Notification, Db}
use weasyl.Welcome.{target_note, collectrequest_remove}
use weasyl.Collections.{
  may_answer, wants_collected, collection_insert, accept_notes, accept_row, pending_accept,
}

-- A notification that the submission is offered or requested.
abbrev pub asks_for : ℕ → Notification → Bool
asks_for submitid n = (n.type == 3030 || n.type == 3035) && n.targetid == submitid

count-told :
    (t u s : ℕ) (db : Db) (watches : List WatchRow)
    → count (asks_for t) (map (λ wu. target_note 2030 wu.userid u s db) watches) ≡ 0
count-told t u s db [] = refl
count-told t u s db (w ∷ watches) = ground (arith, count-told t u s db watches)

collection_insert-asks :
    (t u s : ℕ) (db : Db)
    → count (asks_for t) (collection_insert u s db).welcome ≡ count (asks_for t) db.welcome
unfolding collection_insert
collection_insert-asks t u s db =
    let told = select (wants_collected u s db) db.watches in
    ground (
      arith,
      count-append (asks_for t) db.welcome (map (λ wu. target_note 2030 wu.userid u s db) told),
      count-told t u s db told,
    )

collectrequest_remove-asks :
    (t u o s : ℕ) (db : Db)
    → (s == t) ≡ false
    → count (asks_for t) (collectrequest_remove u o s db).welcome ≡ count (asks_for t) db.welcome
unfolding collectrequest_remove
collectrequest_remove-asks t u o s db ne = elim (Bool-cases (o == u)) [
  | inl y ↦ rw y (
      count-delete_other (λ n. n.userid == u && (n.type == 3030 && n.targetid == s)) (asks_for t)
        db.welcome (λ n h. ground arith))
  | inr n ↦ rw n (
      count-delete_other
        (λ n. n.userid == u && (n.otherid == o && (n.type == 3035 && n.targetid == s))) (asks_for t)
        db.welcome (λ n h. ground arith))
]

abbrev pub collected_by : ℕ → CollectionRow → Bool
collected_by userid c = c.userid == userid

accept_notes-asks :
    (t userid : ℕ) (rows : List CollectionRow) (db : Db)
    → exists (collected_by t) rows ≡ false
    → count (asks_for t) (accept_notes userid rows db).welcome ≡ count (asks_for t) db.welcome
unfolding accept_notes
accept_notes-asks t userid [] db h = refl
accept_notes-asks t userid (s ∷ rows) db h =
    let db1 = collection_insert s.submitid s.userid db in
    accept_notes-asks t userid rows (collectrequest_remove userid s.submitid s.userid db1)
      (ground arith)
    ∙ collectrequest_remove-asks t userid s.submitid s.userid db1 (ground arith)
    ∙ collection_insert-asks t s.submitid s.userid db

exists-select_no :
    (p q : CollectionRow → Bool) (rows : List CollectionRow)
    → exists q rows ≡ false
    → exists q (select p rows) ≡ false
exists-select_no p q [] h = refl
exists-select_no p q (r ∷ rows) h = ground (arith, exists-select_no p q rows)

-- Accepting offers and requests leaves every notification of an offer or request of a submission,
-- unless the submission's id is also the id of a collector.
pub pending_accept-asks :
    (t userid : ℕ) (pairs : List (ℕ × ℕ)) (db : Db)
    → exists (collected_by t) db.collections ≡ false
    → count (asks_for t) (pending_accept userid pairs db).1.welcome ≡ count (asks_for t) db.welcome
unfolding pending_accept
pending_accept-asks t userid [] db h = refl
pending_accept-asks t userid (pair ∷ pairs) db h =
    let may = may_answer userid (pair ∷ pairs) db.submissions in
    accept_notes-asks t userid (select may db.collections)
      (record db { collections = update may (accept_row db.now) db.collections })
      (exists-select_no may (collected_by t) db.collections h)
