-- ===== src/Announcements/Friends.antt =====
-- weasyl/welcome.py: who hears of posts for friends only.
use weasyl.Prelude.{
  ℕ, ◌≡◌, refl, Bool, true, false, List, [], ◌∷◌, map, arith, ◌==◌, Bool-cases, inl, inr, subst,
}
use weasyl.Sql.{select, count}
use weasyl.Sql.Laws.{count-append}
use weasyl.Database.{WatchRow, Notification, Db}
use weasyl.Watches.{befriended}
use weasyl.Welcome.{target_note}
use weasyl.Announcements.{insert_all, wants_submission, submission_insert}

-- A notification to the user.
abbrev pub is_to : ℕ → Notification → Bool
is_to reader n = n.userid == reader

no_stranger :
    (reader userid submitid rating : ℕ) (db : Db) (watches : List WatchRow)
    → befriended reader userid db ≡ false
    → count (is_to reader) (
        map
          (λ user. target_note 2010 user userid submitid db)
          (map
            (λ wu. wu.userid)
            (select (wants_submission userid submitid rating true db) watches)))
      ≡ 0
no_stranger reader userid submitid rating db [] h = refl
no_stranger reader userid submitid rating db (wu ∷ watches) h =
    let rest = no_stranger reader userid submitid rating db watches h in
    elim (Bool-cases (wants_submission userid submitid rating true db wu)) [
      | inr unwanted ↦ rw unwanted rest
      | inl wanted ↦ elim (Bool-cases (wu.userid == reader)) [
        | inr someone ↦ rw (wanted, someone) rest
        | inl this ↦
            let user : wu.userid ≡ reader = ground arith in
            let owner : wu.otherid ≡ userid = ground arith in
            let friend : befriended wu.userid wu.otherid db ≡ true = ground arith in
            let same_friend : befriended reader userid db ≡ true =
              subst (λ o. befriended reader o db ≡ true) owner
                (subst (λ u. befriended u wu.otherid db ≡ true) user friend) in
            absurd cc
      ]
    ]

-- A submission for friends only brings no notification to who is not the submitter's friend.
pub submission_insert-is_to :
    (reader userid submitid rating : ℕ) (db : Db)
    → befriended reader userid db ≡ false
    → count (is_to reader) (submission_insert userid submitid rating true db).welcome
      ≡ count (is_to reader) db.welcome
unfolding submission_insert insert_all
submission_insert-is_to reader userid submitid rating db h =
    let told =
      map (λ wu. wu.userid) (select (wants_submission userid submitid rating true db) db.watches) in
    ground (
      arith,
      count-append (is_to reader) db.welcome
          (map (λ user. target_note 2010 user userid submitid db) told),
      no_stranger reader userid submitid rating db db.watches h,
    )
