-- ===== src/Notes.antt =====
-- weasyl/note.py: private notes between users. `send` gets the parsed names of the recipients and the
-- ids that `d.get_userids` finds for them.
pub mod Sending
pub mod Trash
use weasyl.Prelude.{
  ℕ, suc, ◌+◌, Bool, true, false, not, ◌&&◌, ◌||◌, Option, none, some, List, [], ◌∷◌, ◌++◌, reverse,
  ◌==◌, leb, ltb, if◌then◌else◌, length,
}
use weasyl.Sql.{exists, select, first, count, update, insert, insert_new, elem}
use weasyl.Forms.Text.{strip, filter, truthy}
use weasyl.Database.{
  Str, Db, ActionOn, Error, Result, ok, err, pure, raise, raise_if, modify, has, ◌>>=◌, ◌>>◌,
  content_invalid, title_invalid, title_too_long, recipient_excessive, recipient_invalid,
  note_record_missing, insufficient_permissions,
}
use weasyl.Ignores
use weasyl.Friends
use weasyl.Watches.{get_config}

-- `message`, without its unused folders.
pub record Message : Type 0 where
  pub noteid : ℕ
  pub userid : ℕ
  pub otherid : ℕ
  pub title : Str
  pub content : Str
  pub unixtime : ℕ
  pub settings : Str

-- `permitted_senders`
pub record PermittedSender : Type 0 where
  pub userid : ℕ
  pub sender : ℕ

-- A staff note about a user, as the parts that its text is put together from.
pub record StaffNote : Type 0 where
  pub userid : ℕ
  pub target_user : ℕ
  pub staff_note : Str
  pub title : Str
  pub content : Str

pub record Mail : Type 0 where
  pub site : Db
  pub messages : List Message
  -- the id that the sequence of `message` gives next
  pub next_noteid : ℕ
  pub permitted : List PermittedSender
  -- the users for whom `d.is_vouched_for` holds
  pub vouched_for : List ℕ
  pub staff_notes : List StaffNote

pub record NoteForm : Type 0 where
  pub title : Str
  pub content : Str
  pub mod_copy : Bool
  pub staff_note : Str

abbrev pub is_permitted : ℕ → ℕ → PermittedSender → Bool
is_permitted recipient sender p = p.userid == recipient && p.sender == sender

abbrev pub is_permitted_sender : ℕ → ℕ → Mail → Bool
is_permitted_sender recipient sender mail = exists (is_permitted recipient sender) mail.permitted

-- The options 'y', notes of staff only, and 'z', notes of friends only.
abbrev pub refuses : ℕ → ℕ → Str → Mail → Bool
refuses recipientid userid config mail =
    (has b'y' config && not (is_permitted_sender recipientid userid mail))
    || (has b'z' config
        && (not (Friends.check userid recipientid mail.site)
            && not (is_permitted_sender recipientid userid mail)))

-- `d.get_config` of a user, whose profile is there.
abbrev pub config_of : ℕ → Mail → Str
config_of userid mail = elim (get_config userid mail.site).0 [ ok config ↦ config | err e ↦ [] ]

-- The checks of `send` for the one recipient.
abbrev pub cannot_send : ℕ → ℕ → Mail → Bool
cannot_send userid recipientid mail =
    recipientid == userid
    || Ignores.check recipientid userid mail.site
    || not (elem recipientid mail.vouched_for)
    || Ignores.check userid recipientid mail.site
    || (not (elem userid mail.site.mods)
        && refuses recipientid userid (config_of recipientid mail) mail)

unfoldable pub add_message : ℕ → ℕ → Str → Str → Mail → Mail
add_message userid recipientid title content mail = record mail {
  messages =
      insert
        (record {
          noteid = mail.next_noteid;
          userid = userid;
          otherid = recipientid;
          title = title;
          content = content;
          unixtime = mail.site.now;
          settings = b'u' ∷ [];
        })
        mail.messages;
  next_noteid = mail.next_noteid + 1;
  permitted =
      insert_new (is_permitted userid recipientid)
        (record { userid = userid; sender = recipientid }) mail.permitted;
}

abbrev pub add_staff_note : ℕ → ℕ → NoteForm → Str → Str → Mail → Mail
add_staff_note userid recipientid form title content mail =
    if form.mod_copy && elem userid mail.site.mods
    then record mail {
      staff_notes =
          insert
            (record {
              userid = userid;
              target_user = recipientid;
              staff_note = form.staff_note;
              title = title;
              content = content;
            })
            mail.staff_notes;
    }
    else mail

-- The checks of the form.
abbrev pub form_error : Str → Str → ℕ → Option Error
form_error title content names =
    if not (truthy content)
    then some content_invalid
    else if not (truthy title)
    then some title_invalid
    else if ltb 100 (length title)
    then some title_too_long
    else if ltb 1 names
    then some recipient_excessive
    else none

-- `send`, from what `d.get_userids` finds for at most one name on.
unfoldable pub send_to : ℕ → NoteForm → Str → Str → List ℕ → ActionOn Mail Unit
send_to userid form title content [] mail = raise recipient_invalid mail
send_to userid form title content (recipientid ∷ _) mail =
    if cannot_send userid recipientid mail then raise recipient_invalid mail else (
      ok tt,
      add_staff_note userid recipientid form title content
          (add_message userid recipientid title content mail),
    )

-- `send`
unfoldable pub send : ℕ → NoteForm → List Str → List ℕ → ActionOn Mail Unit
send userid form recipient_sysnames recipientids mail =
    elim (form_error (strip form.title) (strip form.content) (length recipient_sysnames)) [
      | some e ↦ raise e mail
      | none ↦ send_to userid form (strip form.title) (strip form.content) recipientids mail
    ]

-- `REPLACE(settings, 'u', '')`
abbrev pub read_settings : Str → Str
read_settings settings = filter (λ c. not (c == b'u')) settings

abbrev pub is_note : ℕ → Message → Bool
is_note noteid n = n.noteid == noteid

abbrev pub mark_read : Message → Message
mark_read n = record n { settings = read_settings n.settings }

-- `select_view`: the row that the answer is made of, as it was read.
abbrev pub view_found : ℕ → Option Message → ActionOn Mail Message
view_found userid none mail = raise note_record_missing mail
view_found userid (some n) mail =
    if n.userid == userid && has b's' n.settings
    then raise note_record_missing mail
    else if n.otherid == userid && has b'r' n.settings
    then raise note_record_missing mail
    else if not (n.userid == userid || n.otherid == userid)
    then raise insufficient_permissions mail
    else (
      ok n,
      if n.otherid == userid && has b'u' n.settings
          then record mail { messages = update (is_note n.noteid) mark_read mail.messages }
          else mail,
    )

unfoldable pub select_view : ℕ → ℕ → ActionOn Mail Message
select_view userid noteid mail = view_found userid (first (is_note noteid) mail.messages) mail

-- `remove_list`
abbrev pub sent_by : ℕ → List ℕ → Message → Bool
sent_by userid noteids n =
    elem n.noteid noteids && (n.userid == userid && not (has b's' n.settings))

abbrev pub trash_sent : Message → Message
trash_sent n = record n { settings = n.settings ++ b's' ∷ [] }

abbrev pub received_by : ℕ → List ℕ → Message → Bool
received_by userid noteids n =
    elem n.noteid noteids && (n.otherid == userid && not (has b'r' n.settings))

abbrev pub trash_received : Message → Message
trash_received n = record n { settings = read_settings n.settings ++ b'r' ∷ [] }

unfoldable pub remove_rows : ℕ → List ℕ → List Message → List Message
remove_rows userid noteids rows =
    update (received_by userid noteids) trash_received
      (update (sent_by userid noteids) trash_sent rows)

unfoldable pub remove_list : ℕ → List ℕ → Mail → Mail
remove_list userid [] mail = mail
remove_list userid (id ∷ noteids) mail = record mail {
  messages = remove_rows userid (id ∷ noteids) mail.messages;
}

-- The notes of `select_inbox` and `select_outbox`, on all their pages and without a filter.
abbrev pub in_inbox : ℕ → Message → Bool
in_inbox userid n = n.otherid == userid && not (has b'r' n.settings)

abbrev pub in_outbox : ℕ → Message → Bool
in_outbox userid n = n.userid == userid && not (has b's' n.settings)

-- `d.private_messages_unread_count`
abbrev pub is_unread : ℕ → Message → Bool
is_unread userid n = n.otherid == userid && has b'u' n.settings
