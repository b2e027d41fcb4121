-- ===== src/Tests/Letters.antt =====
-- weasyl/note.py on small inputs.
use weasyl.Prelude.{◌≡◌, ◌≢◌, ◌⊎◌, refl, true, false, ◌||◌, [], ◌∷◌}
use weasyl.Sql.{exists, count}
use weasyl.Database.{ok}
use weasyl.Forms.Text.{strip}
use weasyl.Notes.{
  Message, Mail, NoteForm, send, select_view, remove_list, in_inbox, in_outbox, is_unread,
}
use weasyl.Notes.Sending.{IsNote, MaySend, Sent, send_lem}
use weasyl.Notes.Trash.{in_boxes, select_view-in_box, remove_list_lem}
use weasyl.Tests.Users.{site}

-- User 1 has sent note 4 to user 2, who takes notes of friends only.
abbrev letter : Message
letter = record {
  noteid = 4;
  userid = 1;
  otherid = 2;
  title = b'H' ∷ b'i' ∷ [];
  content = b'?' ∷ [];
  unixtime = 900;
  settings = b'u' ∷ [];
}

abbrev mail : Mail
mail = record {
  site = record site {
    profiles =
        record {
          userid = 2;
          config = b'z' ∷ [];
          allow_collection_requests = true;
          allow_collection_notifs = true;
        }
        ∷ [];
  };
  messages = letter ∷ [];
  next_noteid = 5;
  permitted = record { userid = 2; sender = 1 } ∷ [];
  vouched_for = 1 ∷ 2 ∷ [];
  staff_notes = [];
}

abbrev form : NoteForm
form = record {
  title = b' ' ∷ b'H' ∷ b'i' ∷ [];
  content = b'!' ∷ [];
  mod_copy = false;
  staff_note = [];
}

send_lem_example :
    let (r, mail') = send 1 form ((b'b' ∷ []) ∷ []) (2 ∷ []) mail in
    let Good = IsNote (strip form.title) (strip form.content) 1 in
    (Good × MaySend 1 2 mail × (r ≡ ok tt) × Sent 1 2 mail mail')
    ⊎ ((¬ (Good × MaySend 1 2 mail)) × (r ≢ ok tt) × (mail' ≡ mail))
send_lem_example = send_lem 1 2 form ((b'b' ∷ []) ∷ []) mail

select_view-letter : (select_view 1 4 mail ≡ (ok letter, mail))
unfolding select_view
select_view-letter = refl

select_view-in_box_example : (letter.noteid ≡ 4) × (in_inbox 1 letter || in_outbox 1 letter ≡ true)
select_view-in_box_example = select_view-in_box 1 4 mail mail letter select_view-letter

remove_list_lem_example :
    let mail' = remove_list 1 (4 ∷ []) mail in
    (exists (in_boxes 1 (4 ∷ [])) mail'.messages ≡ false)
    × (count (in_inbox 2) mail'.messages ≡ count (in_inbox 2) mail.messages)
    × (count (in_outbox 2) mail'.messages ≡ count (in_outbox 2) mail.messages)
    × (count (is_unread 2) mail'.messages ≡ count (is_unread 2) mail.messages)
remove_list_lem_example = remove_list_lem 1 2 (4 ∷ []) mail refl
