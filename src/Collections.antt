-- ===== src/Collections.antt =====
-- weasyl/collection.py: offers of submissions to collectors, requests of collectors to owners, and
-- the answers. The caches of counts and headers are left out.
pub mod Throttle
pub mod Invariant
pub mod Answers
use weasyl.Prelude.{
  ℕ, suc, Bool, true, false, not, ◌&&◌, ◌||◌, Option, none, some, List, [], ◌∷◌, ◌++◌, map, ◌==◌,
  leb, ltb, if◌then◌else◌,
}
use weasyl.Sql.{exists, select, first, count, delete, update, insert, elem}
use weasyl.Database.{
  Str, has, CollectionRow, Submission, Notification, WatchRow, Db, Action, ok, pure, raise,
  raise_if, gets, modify, ◌>>=◌, ◌>>◌, ignored_you, you_ignored, collection_unacceptable,
  collection_exists, collection_throttle, rating_exceeded, unexpected, type_error,
}
use weasyl.Ignores
use weasyl.Watches.{explicit, mature, views_rating, joined, get_config}
use weasyl.Folders.{submission_has_folder_flag}
use weasyl.Welcome.{
  notify, target_note, collectoffer_insert, collectrequest_insert, collectrequest_remove,
  collection_remove,
}

abbrev pub is_collection : ℕ → ℕ → CollectionRow → Bool
is_collection userid submitid row = row.userid == userid && row.submitid == submitid

-- `settings ~ '[pr]'`
abbrev pub is_unanswered : CollectionRow → Bool
is_unanswered row = has b'p' row.settings || has b'r' row.settings

-- `owns`
pub owns : ℕ → ℕ → Db → Bool
owns userid submitid db =
    if userid == 0 then false else exists (is_collection userid submitid) db.collections

abbrev pub new_collection : ℕ → ℕ → ℕ → Db → CollectionRow
new_collection code userid submitid db = record {
  userid = userid;
  submitid = submitid;
  unixtime = db.now;
  settings = code ∷ [];
}

-- `INSERT … ON CONFLICT (userid, submitid) DO NOTHING`, and the error for no row.
pub insert_collection : ℕ → ℕ → ℕ → Action Unit
insert_collection code userid submitid db =
    if exists (is_collection userid submitid) db.collections
    then raise collection_exists db
    else modify
        (λ db. record db {
          collections = insert (new_collection code userid submitid db) db.collections;
        })
        db

-- `offer`: `userid` offers the submission to `otherid`.
pub offer : ℕ → ℕ → ℕ → Action Unit
offer userid submitid otherid db = elim (first (λ s. s.submitid == submitid) db.submissions) [
  | none ↦ raise unexpected db
  | some query ↦
      (raise_if query.hidden unexpected
          >> raise_if (not (userid == query.userid)) unexpected
          >> raise_if query.friends_only collection_unacceptable
          >> raise_if (Ignores.check otherid userid db) ignored_you
          >> raise_if (Ignores.check userid otherid db) you_ignored
          >> insert_collection b'p' otherid submitid
          >> modify (collectoffer_insert userid otherid submitid))
        db
]

-- The requests of the collector that the owner has not answered.
abbrev pub is_request_to : ℕ → ℕ → List Submission → CollectionRow → Bool
is_request_to userid otherid subs c =
    c.userid == userid
    && (has b'r' c.settings && exists (λ s. s.submitid == c.submitid && s.userid == otherid) subs)

-- `_check_throttle`; `submission.submitid` is the primary key.
pub check_throttle : ℕ → ℕ → Db → Bool
check_throttle userid otherid db =
    ltb 10 (count (is_request_to userid otherid db.submissions) db.collections)

-- `d.get_profile_settings(otherid).allow_collection_requests`
pub allows_requests : ℕ → Action Bool
allows_requests otherid db =
    if otherid == 0 then (ok true, db) else elim (first (λ pr. pr.userid == otherid) db.profiles) [
      | none ↦ raise type_error db
      | some pr ↦ pure pr.allow_collection_requests db
    ]

-- `d.get_rating`, where the flag is `d.is_sfw_mode()`; `ratings.GENERAL.code` is 10.
pub get_rating : Bool → ℕ → Action ℕ
get_rating sfw userid db =
    if userid == 0 || sfw
    then (ok 10, db)
    else (get_config userid >>= λ config.
          pure (if has b'p' config then explicit else if has b'a' config then mature else 10))
        db

-- `request`, after `d.get_rating`: `userid` asks `otherid` for the submission.
pub request_rated : ℕ → ℕ → ℕ → ℕ → Action Unit
request_rated rating userid submitid otherid db =
    elim (first (λ s. s.submitid == submitid) db.submissions) [
      | none ↦ raise unexpected db
      | some query ↦
          (raise_if query.hidden unexpected
              >> raise_if (not (otherid == query.userid)) unexpected
              >> raise_if (ltb rating query.rating) rating_exceeded
              >> raise_if query.friends_only collection_unacceptable
              >> raise_if (Ignores.check otherid userid db) ignored_you
              >> raise_if (Ignores.check userid otherid db) you_ignored
              >> raise_if (check_throttle userid otherid db) collection_throttle
              >> (allows_requests otherid >>= λ allowed. raise_if (not allowed) unexpected)
              >> insert_collection b'r' userid submitid
              >> modify (collectrequest_insert userid otherid submitid))
            db
    ]

pub request : Bool → ℕ → ℕ → ℕ → Action Unit
request sfw userid submitid otherid =
    get_rating sfw userid >>= λ rating. request_rated rating userid submitid otherid

-- `REGEXP_REPLACE(settings, '[pr]', '')`: the first match goes.
pub answered : Str → Str
answered [] = []
answered (c ∷ s) = if c == b'p' || c == b'r' then s else c ∷ answered s

-- A pair of the list of submissions and collectors.
abbrev pub is_listed : List (ℕ × ℕ) → CollectionRow → Bool
is_listed [] row = false
is_listed ((submitid, userid) ∷ pairs) row =
    is_collection userid submitid row || is_listed pairs row

-- The rows that `userid` may answer: offers to them, and requests for their submissions.
abbrev pub may_answer : ℕ → List (ℕ × ℕ) → List Submission → CollectionRow → Bool
may_answer userid pairs subs c =
    exists (λ s. s.submitid == c.submitid && (userid == c.userid || userid == s.userid)) subs
    && (is_listed pairs c
        && (if userid == c.userid then has b'p' c.settings else has b'r' c.settings))

abbrev is_empty_pairs : List (ℕ × ℕ) → Bool
is_empty_pairs [] = true
is_empty_pairs (x ∷ xs) = false

-- The notification type 2030 of `welcome.collection_insert`, to the watchers of `userid` who see
-- posts of the submission's rating and do not block its tags.
abbrev rating_of : ℕ → Db → Option ℕ
rating_of submitid db = elim (first (λ s. s.submitid == submitid) db.submissions) [
  | none ↦ none
  | some s ↦ some s.rating
]

abbrev sees : Option ℕ → Str → Bool
sees none config = true
sees (some rating) config = views_rating rating config

abbrev blocks : ℕ → ℕ → Option ℕ → Db → Bool
blocks userid submitid none db = false
blocks userid submitid (some rating) db =
    exists
      (λ t.
        t.targetid == submitid
        && exists (λ b. b.userid == userid && (b.tagid == t.tagid && leb b.rating rating))
            db.blocktags)
      db.submission_tags

abbrev pub wants_collected : ℕ → ℕ → Db → WatchRow → Bool
wants_collected userid submitid db wu =
    wu.otherid == userid
    && (has b'c' wu.settings
        && (joined wu.userid (λ pr. sees (rating_of submitid db) pr.config) db
            && not (blocks wu.userid submitid (rating_of submitid db) db)))

pub collection_insert : ℕ → ℕ → Db → Db
collection_insert userid submitid db =
    if submission_has_folder_flag submitid b'n' db then db else record db {
      welcome =
          db.welcome
          ++ map (λ wu. target_note 2030 wu.userid userid submitid db)
              (select (wants_collected userid submitid db) db.watches);
    }

-- The loop of `pending_accept` over the updated rows, with the order of the source's arguments: it
-- passes the submission as the user, and the collector as the submission.
pub accept_notes : ℕ → List CollectionRow → Db → Db
accept_notes userid [] db = db
accept_notes userid (s ∷ updated) db =
    accept_notes userid updated
      (collectrequest_remove userid s.submitid s.userid (collection_insert s.submitid s.userid db))

abbrev pub accept_row : ℕ → CollectionRow → CollectionRow
accept_row now c = record c { unixtime = now; settings = answered c.settings }

-- `pending_accept`
pub pending_accept : ℕ → List (ℕ × ℕ) → Action Unit
pending_accept userid pairs db =
    if is_empty_pairs pairs
    then (ok tt, db)
    else modify
        (accept_notes userid (select (may_answer userid pairs db.submissions) db.collections))
        (record db {
          collections =
              update (may_answer userid pairs db.submissions) (accept_row db.now) db.collections;
        })

-- `pending_reject`; the loop is over the list as given.
pub reject_notes : ℕ → List (ℕ × ℕ) → Db → Db
reject_notes userid [] db = db
reject_notes userid ((submitid, collectorid) ∷ pairs) db =
    reject_notes userid pairs (collectrequest_remove userid collectorid submitid db)

pub pending_reject : ℕ → List (ℕ × ℕ) → Action Unit
pending_reject userid pairs db =
    if is_empty_pairs pairs
    then (ok tt, db)
    else modify (reject_notes userid pairs)
        (record db { collections = delete (may_answer userid pairs db.submissions) db.collections })

-- `remove`
abbrev pub is_collected : ℕ → List ℕ → CollectionRow → Bool
is_collected userid submissions row =
    row.userid == userid && (elem row.submitid submissions && not (is_unanswered row))

abbrev is_empty_ids : List ℕ → Bool
is_empty_ids [] = true
is_empty_ids (x ∷ xs) = false

pub remove : ℕ → List ℕ → Action Unit
remove userid submissions db =
    if is_empty_ids submissions
    then (ok tt, db)
    else modify (collection_remove userid submissions)
        (record db { collections = delete (is_collected userid submissions) db.collections })

-- A call that writes, the state after it, whether it returned or raised, and after several.
pub data CollectionCall : Type 0 where
  offers : ℕ → ℕ → ℕ → CollectionCall
  requests : Bool → ℕ → ℕ → ℕ → CollectionCall
  accepts rejects : ℕ → List (ℕ × ℕ) → CollectionCall
  removes : ℕ → List ℕ → CollectionCall

pub after : CollectionCall → Db → Db
after (offers userid submitid otherid) db = (offer userid submitid otherid db).1
after (requests sfw userid submitid otherid) db = (request sfw userid submitid otherid db).1
after (accepts userid pairs) db = (pending_accept userid pairs db).1
after (rejects userid pairs) db = (pending_reject userid pairs db).1
after (removes userid submissions) db = (remove userid submissions db).1

pub run_collections : List CollectionCall → Db → Db
run_collections [] db = db
run_collections (call ∷ calls) db = run_collections calls (after call db)
