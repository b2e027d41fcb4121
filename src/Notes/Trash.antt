-- ===== src/Notes/Trash.antt =====
-- Who reads a note, and what `remove_list` takes away from whom.
use weasyl.Prelude.{
  ℕ, ◌≡◌, ◌∙◌, refl, Bool, true, false, not, ◌&&◌, ◌||◌, List, [], ◌∷◌, ◌++◌, arith, ◌==◌,
  if◌then◌else◌, Bool-cases, Option-cases, inl, inr,
}
use weasyl.Sql.{exists, count, update, elem, first}
use weasyl.Sql.Laws.{exists-append, count-update, first-found}
use weasyl.Database.{Str, has, ok}
use weasyl.Notes.{
  Message, Mail, read_settings, is_note, select_view, sent_by, trash_sent, received_by,
  trash_received, remove_rows, remove_list, in_inbox, in_outbox, is_unread,
}

has-append : (c d : ℕ) (s : Str) → has c (s ++ d ∷ []) ≡ (has c s || d == c)
has-append c d s = ground (arith, exists-append (λ x. x == c) s (d ∷ []))

has-read_settings : (c : ℕ) (s : Str) → has c (read_settings s) ≡ (has c s && not (c == b'u'))
has-read_settings c [] = refl
has-read_settings c (x ∷ s) = ground (arith, has-read_settings c s)

-- A note that `select_view` shows has the id that was asked for, and is in the inbox or the outbox of
-- who asked.
pub select_view-in_box :
    (userid noteid : ℕ) (mail mail' : Mail) (n : Message)
    → select_view userid noteid mail ≡ (ok n, mail')
    → (n.noteid ≡ noteid) × (in_inbox userid n || in_outbox userid n ≡ true)
unfolding select_view
select_view-in_box userid noteid mail mail' n e =
    elim (Option-cases (first (is_note noteid) mail.messages)) [
      | inl missing ↦ absurd (ground arith)
      | inr (m, found) ↦
          let same : is_note noteid m ≡ true = first-found (is_note noteid) mail.messages m found in
          ground arith
    ]

-- One row of `remove_list`.
abbrev removed : ℕ → List ℕ → Message → Message
removed userid noteids n =
    let sent = if sent_by userid noteids n then trash_sent n else n in
    if received_by userid noteids sent then trash_received sent else sent

abbrev pub in_boxes : ℕ → List ℕ → Message → Bool
in_boxes userid noteids n = elem n.noteid noteids && (in_inbox userid n || in_outbox userid n)

not_in_outbox :
    (userid : ℕ) (noteids : List ℕ) (n : Message)
    → let sent = if sent_by userid noteids n then trash_sent n else n in
      elem sent.noteid noteids && in_outbox userid sent ≡ false
not_in_outbox userid noteids n = elim (Bool-cases (sent_by userid noteids n)) [
  | inl e ↦ rw e (ground (arith, has-append b's' b's' n.settings))
  | inr e ↦ rw e (ground arith)
]

trash_received-outbox :
    (userid : ℕ) (n : Message) → in_outbox userid (trash_received n) ≡ in_outbox userid n
trash_received-outbox userid n =
    ground
      (arith, has-append b's' b'r' (read_settings n.settings), has-read_settings b's' n.settings)

removed-out :
    (userid : ℕ) (noteids : List ℕ) (n : Message)
    → in_boxes userid noteids (removed userid noteids n) ≡ false
removed-out userid noteids n =
    both (if sent_by userid noteids n then trash_sent n else n) (not_in_outbox userid noteids n)
  where
    both :
        (n : Message)
        → elem n.noteid noteids && in_outbox userid n ≡ false
        → in_boxes userid noteids (if received_by userid noteids n then trash_received n else n)
          ≡ false
    both n h = elim (Bool-cases (received_by userid noteids n)) [
      | inl e ↦ rw e (
          ground (
            arith,
            trash_received-outbox userid n,
            has-append b'r' b'r' (read_settings n.settings),
          ))
      | inr e ↦ rw e (ground arith)
    ]

remove_rows-out :
    (userid : ℕ) (noteids : List ℕ) (rows : List Message)
    → exists (in_boxes userid noteids) (remove_rows userid noteids rows) ≡ false
unfolding remove_rows
remove_rows-out userid noteids [] = refl
remove_rows-out userid noteids (n ∷ rows) =
    ground (arith, removed-out userid noteids n, remove_rows-out userid noteids rows)

-- The boxes of somebody else.
remove_rows-count :
    (userid : ℕ) (noteids : List ℕ) (q : Message → Bool) (rows : List Message)
    → ((n : Message) → sent_by userid noteids n ≡ true → q (trash_sent n) ≡ q n)
    → ((n : Message) → received_by userid noteids n ≡ true → q (trash_received n) ≡ q n)
    → count q (remove_rows userid noteids rows) ≡ count q rows
unfolding remove_rows
remove_rows-count userid noteids q rows sent received =
    count-update (received_by userid noteids) q trash_received
      (update (sent_by userid noteids) trash_sent rows) received
    ∙ count-update (sent_by userid noteids) q trash_sent rows sent

remove_rows-empty : (userid : ℕ) (mail : Mail) → exists (in_boxes userid []) mail.messages ≡ false
remove_rows-empty userid mail = none_of mail.messages
  where
    none_of : (rows : List Message) → exists (in_boxes userid []) rows ≡ false
    none_of [] = refl
    none_of (n ∷ rows) = ground (arith, none_of rows)

-- `remove_list` leaves none of the listed notes in the user's inbox or outbox, and every other user has
-- as many notes in the inbox, in the outbox and unread as before.
pub remove_list_lem :
    (userid other : ℕ) (noteids : List ℕ) (mail : Mail)
    → (userid == other) ≡ false
    → let mail' = remove_list userid noteids mail in
      (exists (in_boxes userid noteids) mail'.messages ≡ false)
      × (count (in_inbox other) mail'.messages ≡ count (in_inbox other) mail.messages)
      × (count (in_outbox other) mail'.messages ≡ count (in_outbox other) mail.messages)
      × (count (is_unread other) mail'.messages ≡ count (is_unread other) mail.messages)
unfolding remove_list
remove_list_lem userid other [] mail differs = (remove_rows-empty userid mail, refl, refl, refl)
remove_list_lem userid other (id ∷ noteids) mail differs = (
  remove_rows-out userid (id ∷ noteids) mail.messages,
  remove_rows-count userid (id ∷ noteids) (in_inbox other) mail.messages
      (λ n h. ground (arith, has-append b'r' b's' n.settings)) (λ n h. ground arith),
  remove_rows-count userid (id ∷ noteids) (in_outbox other) mail.messages (λ n h. ground arith)
      (λ n h. trash_received-outbox other n),
  remove_rows-count userid (id ∷ noteids) (is_unread other) mail.messages
      (λ n h. ground (arith, has-append b'u' b's' n.settings)) (λ n h. ground arith),
)
