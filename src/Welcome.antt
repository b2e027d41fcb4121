-- ===== src/Welcome.antt =====
-- weasyl/welcome.py: the notifications of friendships, follows, favorites and collections.
use weasyl.Prelude.{ℕ, Bool, false, ◌&&◌, Option, none, some, List, ◌==◌, if◌then◌else◌}
use weasyl.Sql.{first, delete, insert, elem}
use weasyl.Database.{Notification, FavoriteType, submit, char, journal, Db}

abbrev pub notify : Notification → Db → Db
notify row db = record db { welcome = insert row db.welcome }

abbrev pub clear : (Notification → Bool) → Db → Db
clear p db = record db { welcome = delete p db.welcome }

-- `type = …` beside the pair of users.
abbrev pub is_note : ℕ → ℕ → ℕ → Notification → Bool
is_note type userid otherid n = n.userid == userid && (n.otherid == otherid && n.type == type)

-- A notification without a post.
abbrev pub note : ℕ → ℕ → ℕ → Db → Notification
note type userid otherid db = record {
  userid = userid;
  otherid = otherid;
  referid = 0;
  targetid = 0;
  unixtime = db.now;
  type = type;
}

-- `frienduserrequest_insert` and `frienduserrequest_remove`
unfoldable pub frienduserrequest_insert : ℕ → ℕ → Db → Db
frienduserrequest_insert sender recipient db = notify (note 3080 recipient sender db) db

unfoldable pub frienduserrequest_remove : ℕ → ℕ → Db → Db
frienduserrequest_remove sender recipient = clear (is_note 3080 recipient sender)

-- `frienduseraccept_insert` and `frienduseraccept_remove`
unfoldable pub frienduseraccept_insert : ℕ → ℕ → Db → Db
frienduseraccept_insert requester acceptor db = notify (note 3085 requester acceptor db) db

unfoldable pub frienduseraccept_remove : ℕ → ℕ → Db → Db
frienduseraccept_remove requester acceptor = clear (is_note 3085 requester acceptor)

-- `followuser_insert` and `followuser_remove`
unfoldable pub followuser_insert : ℕ → ℕ → Db → Db
followuser_insert userid otherid db = notify (note 3010 otherid userid db) db

unfoldable pub followuser_remove : ℕ → ℕ → Db → Db
followuser_remove userid otherid = clear (is_note 3010 otherid userid)

-- `d.get_ownerid(submitid=…)`
unfoldable pub submission_owner : ℕ → Db → Option ℕ
submission_owner submitid db = elim (first (λ s. s.submitid == submitid) db.submissions) [
  | none ↦ none
  | some s ↦ some s.userid
]

abbrev owned_by : ℕ → Option ℕ → Bool
owned_by userid none = false
owned_by userid (some owner) = owner == userid

-- The type of the notification, where the flag says that it goes to the owner of the submission.
abbrev insert_notiftype : FavoriteType → Bool → ℕ
insert_notiftype submit to_owner = if to_owner then 3020 else 3050
insert_notiftype char to_owner = 3100
insert_notiftype journal to_owner = 3110

-- `favorite_insert`, to `otherid`.
unfoldable pub favorite_insert : ℕ → FavoriteType → ℕ → ℕ → Db → Db
unfolding submission_owner
favorite_insert userid type target otherid db =
    notify
      (record {
        userid = otherid;
        otherid = userid;
        referid = target;
        targetid = 0;
        unixtime = db.now;
        type = insert_notiftype type (owned_by otherid (submission_owner target db));
      })
      db

abbrev pub favorite_notiftype : FavoriteType → ℕ
favorite_notiftype submit = 3020
favorite_notiftype char = 3100
favorite_notiftype journal = 3110

-- `favorite_remove`
unfoldable pub favorite_remove : ℕ → FavoriteType → ℕ → Db → Db
favorite_remove userid type target =
    clear (λ n. n.otherid == userid && (n.referid == target && n.type == favorite_notiftype type))

-- A notification about a submission.
abbrev pub target_note : ℕ → ℕ → ℕ → ℕ → Db → Notification
target_note type userid otherid submitid db = record {
  userid = userid;
  otherid = otherid;
  referid = 0;
  targetid = submitid;
  unixtime = db.now;
  type = type;
}

-- `collectoffer_insert` and `collectrequest_insert`
unfoldable pub collectoffer_insert : ℕ → ℕ → ℕ → Db → Db
collectoffer_insert userid otherid submitid db =
    notify (target_note 3030 otherid userid submitid db) db

unfoldable pub collectrequest_insert : ℕ → ℕ → ℕ → Db → Db
collectrequest_insert userid otherid submitid db =
    notify (target_note 3035 otherid userid submitid db) db

-- `collectrequest_remove`
unfoldable pub collectrequest_remove : ℕ → ℕ → ℕ → Db → Db
collectrequest_remove userid otherid submitid =
    if otherid == userid
    then clear (λ n. n.userid == userid && (n.type == 3030 && n.targetid == submitid))
    else clear (λ n.
      n.userid == userid && (n.otherid == otherid && (n.type == 3035 && n.targetid == submitid)))

-- `collection_remove`
unfoldable pub collection_remove : ℕ → List ℕ → Db → Db
collection_remove userid removed =
    clear (λ n. n.otherid == userid && (n.type == 2030 && elem n.targetid removed))
