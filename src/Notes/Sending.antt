-- ===== src/Notes/Sending.antt =====
-- What sending a note does.
use weasyl.Prelude.{
  ℕ, ◌+◌, ◌≤◌, ◌≡◌, ◌≢◌, ◌⊎◌, refl, sym, true, false, not, ◌&&◌, List, [], ◌∷◌, ◌==◌, arith, length,
  none, if◌then◌else◌, Bool-cases, Option-cases, inl, inr,
}
use weasyl.Sql.{count, elem}
use weasyl.Sql.Laws.{count-insert, exists-insert}
use weasyl.Database.{Str, ok, has}
use weasyl.Ignores
use weasyl.Friends
use weasyl.Forms.Text.{strip, truthy}
use weasyl.Notes.{
  Mail, NoteForm, form_error, cannot_send, refuses, config_of, is_permitted, is_permitted_sender,
  add_message, add_staff_note, send_to, send, is_unread,
}

-- Moderators are accepted, whoever the recipient has written to, and by the options 'y' and 'z' others too.
abbrev pub Accepts : ℕ → ℕ → Mail → Type 0
Accepts recipientid userid mail =
    (elem userid mail.site.mods ≡ true)
    ⊎ ((is_permitted_sender recipientid userid mail ≡ true)
        ⊎ ((has b'y' (config_of recipientid mail) ≡ false)
            × ((has b'z' (config_of recipientid mail) ≡ false)
                ⊎ (Friends.check userid recipientid mail.site ≡ true))))

-- Who may send notes to whom.
abbrev pub MaySend : ℕ → ℕ → Mail → Type 0
MaySend userid recipientid mail =
    (recipientid ≢ userid)
    × (elem recipientid mail.vouched_for ≡ true)
    × (Ignores.check recipientid userid mail.site ≡ false)
    × (Ignores.check userid recipientid mail.site ≡ false)
    × Accepts recipientid userid mail

-- A note with a title, a text and at most one recipient.
abbrev pub IsNote : Str → Str → ℕ → Type 0
IsNote title content names =
    (truthy content ≡ true) × (truthy title ≡ true) × (length title ≤ 100) × (names ≤ 1)

refuses-Accepts :
    (userid recipientid : ℕ) (mail : Mail)
    → (not (elem userid mail.site.mods)
        && refuses recipientid userid (config_of recipientid mail) mail)
      ≡ false
    → Accepts recipientid userid mail
refuses-Accepts userid recipientid mail h = ground arith

Accepts-refuses :
    (userid recipientid : ℕ) (mail : Mail)
    → Accepts recipientid userid mail
    → (not (elem userid mail.site.mods)
        && refuses recipientid userid (config_of recipientid mail) mail)
      ≡ false
Accepts-refuses userid recipientid mail h = ground arith

cannot_send-MaySend :
    (userid recipientid : ℕ) (mail : Mail)
    → cannot_send userid recipientid mail ≡ false
    → MaySend userid recipientid mail
cannot_send-MaySend userid recipientid mail h = ground arith

MaySend-cannot_send :
    (userid recipientid : ℕ) (mail : Mail)
    → MaySend userid recipientid mail
    → cannot_send userid recipientid mail ≡ false
MaySend-cannot_send userid recipientid mail h = ground arith

form_error-IsNote :
    (title content : Str) (names : ℕ)
    → form_error title content names ≡ none
    → IsNote title content names
form_error-IsNote title content names h = ground arith

IsNote-form_error :
    (title content : Str) (names : ℕ)
    → IsNote title content names
    → form_error title content names ≡ none
IsNote-form_error title content names h = ground arith

add_message-unread :
    (userid recipientid other : ℕ) (title content : Str) (mail : Mail)
    → count (is_unread other) (add_message userid recipientid title content mail).messages
      ≡ count (is_unread other) mail.messages + (if recipientid == other then 1 else 0)
unfolding add_message
add_message-unread userid recipientid other title content mail = ground (
  arith,
  count-insert (is_unread other)
      (record {
        noteid = mail.next_noteid;
        userid = userid;
        otherid = recipientid;
        title = title;
        content = content;
        unixtime = mail.site.now;
        settings = b'u' ∷ [];
      })
      mail.messages,
)

add_message-permitted :
    (userid recipientid : ℕ) (title content : Str) (mail : Mail)
    → is_permitted_sender userid recipientid (add_message userid recipientid title content mail)
      ≡ true
unfolding add_message
add_message-permitted userid recipientid title content mail = ground (
  arith,
  exists-insert (is_permitted userid recipientid) (record { userid = userid; sender = recipientid })
      mail.permitted,
)

-- What a note that is sent leaves: one unread note of the recipient more, and nobody else's, and the recipient
-- may answer, unless the sender is not verified.
abbrev pub Sent : ℕ → ℕ → Mail → Mail → Type 0
Sent userid recipientid mail mail' =
    ((other : ℕ)
      → count (is_unread other) mail'.messages
        ≡ count (is_unread other) mail.messages + (if recipientid == other then 1 else 0))
    × ((elem userid mail.vouched_for ≡ false) ⊎ MaySend recipientid userid mail')

answer-MaySend :
    (userid recipientid : ℕ) (mail mail' : Mail)
    → MaySend userid recipientid mail
    → mail'.site ≡ mail.site
    → mail'.vouched_for ≡ mail.vouched_for
    → is_permitted_sender userid recipientid mail' ≡ true
    → (elem userid mail.vouched_for ≡ false) ⊎ MaySend recipientid userid mail'
answer-MaySend userid recipientid mail mail' (differ, _, ignored, ignores, _) site vouched permits =
    elim (Bool-cases (elem userid mail.vouched_for)) [
      | inr e ↦ inl e
      | inl e ↦
          inr
            (λ k. differ (sym k), rw vouched e, rw site ignores, rw site ignored, inr (inl permits))
    ]

send_to-Sent :
    (userid recipientid : ℕ) (form : NoteForm) (title content : Str) (mail : Mail)
    → MaySend userid recipientid mail
    → Sent userid recipientid mail (
        add_staff_note userid recipientid form title content
          (add_message userid recipientid title content mail))
unfolding add_message
send_to-Sent userid recipientid form title content mail may =
    let sent = add_message userid recipientid title content mail in
    let added = λ (other : ℕ). add_message-unread userid recipientid other title content mail in
    let permits = add_message-permitted userid recipientid title content mail in
    let answer = answer-MaySend userid recipientid mail sent may refl refl permits in
    elim (Bool-cases (form.mod_copy && elem userid sent.site.mods)) [
      | inl e ↦ rw e (added, answer)
      | inr e ↦ rw e (added, answer)
    ]

-- `send` to one recipient returns exactly where the form has a text and a title of at most 100 characters and
-- names at most one user, and the sender may send notes to the recipient: who is somebody else and verified,
-- neither of the two ignores the other, and the sender is a moderator, or somebody the recipient has written
-- to, or the recipient takes notes of more than staff, and of more than friends or the two are friends. Then
-- the recipient has one more unread note, all others have as many as before, and the recipient may send notes
-- to the sender, if that one is verified. Else it raises, and nothing is changed.
pub send_lem :
    (userid recipientid : ℕ) (form : NoteForm) (recipient_sysnames : List Str) (mail : Mail)
    → let (r, mail') = send userid form recipient_sysnames (recipientid ∷ []) mail in
      let Good = IsNote (strip form.title) (strip form.content) (length recipient_sysnames) in
      (Good × MaySend userid recipientid mail × (r ≡ ok tt) × Sent userid recipientid mail mail')
      ⊎ ((¬ (Good × MaySend userid recipientid mail)) × (r ≢ ok tt) × (mail' ≡ mail))
unfolding send send_to
send_lem userid recipientid form recipient_sysnames mail =
    let title = strip form.title in
    let content = strip form.content in
    let names = length recipient_sysnames in
    elim (Option-cases (form_error title content names)) [
      | inr (e, bad) ↦ inr (
        λ (good, _).
            let fine = IsNote-form_error title content names good in ground (arith, bad, fine),
        rw (send, bad) (λ h. cc),
        rw (send, bad) refl,
      )
      | inl fine ↦ elim (Bool-cases (cannot_send userid recipientid mail)) [
        | inl bad ↦ inr (
          λ (_, may).
              let can = MaySend-cannot_send userid recipientid mail may in ground (arith, bad, can),
          rw (send, fine, send_to, bad) (λ h. cc),
          rw (send, fine, send_to, bad) refl,
        )
        | inr can ↦
            let may = cannot_send-MaySend userid recipientid mail can in
            inl (
              form_error-IsNote title content names fine,
              may,
              rw (send, fine, send_to, can) refl,
              rw (send, fine, send_to, can)
                  (send_to-Sent userid recipientid form title content mail may),
            )
      ]
    ]
