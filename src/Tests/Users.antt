-- ===== src/Tests/Users.antt =====
-- weasyl/ignoreuser.py, weasyl/frienduser.py and weasyl/followuser.py on small inputs.
use weasyl.Prelude.{◌≡◌, ◌≢◌, ◌⊎◌, true, false, ◌||◌, ◌&&◌, List, [], ◌∷◌, arith, ◌==◌}
use weasyl.Database.{pending, Db, Fault, serialization_failure, ok, transaction, serializable_retry}
use weasyl.Database.Retry.{gets_through, serializable_retry_lem}
use weasyl.Ignores
use weasyl.Ignores.{includes_staff}
use weasyl.Ignores.Effects.{insert_lem}
use weasyl.Friends
use weasyl.Friends.{is_between}
use weasyl.Friends.Relation.{strangers, relation, requested, IsUnique}
use weasyl.Friends.Requests.{on_terms, request_lem}
use weasyl.Friends.Removal.{remove_lem}
use weasyl.Sql.{delete, elem}
use weasyl.Social.{Call, ignore, befriend, watch, run}
use weasyl.Social.Separation.{IsSeparated}
use weasyl.Social.Invariant.{run-IsSeparated}

-- User 1 has asked user 2, and user 3 ignores user 1. User 9 is a moderator.
abbrev pub site : Db
site = record {
  friends = record { userid = 1; otherid = 2; settings = pending } ∷ [];
  watches = [];
  ignores = record { userid = 3; otherid = 1 } ∷ [];
  favorites = [];
  collections = [];
  submissions = [];
  characters = [];
  journals = [];
  profiles = [];
  folders = [];
  submission_tags = [];
  blocktags = [];
  welcome = [];
  mods = 9 ∷ [];
  now = 1000;
}

site-IsUnique : IsUnique site.friends
site-IsUnique a b = ground arith

site-IsSeparated : IsSeparated site
site-IsSeparated u o pu po ig = (ground arith, ground arith)

abbrev pub conflicts : List Fault
conflicts = serialization_failure ∷ serialization_failure ∷ []

serializable_retry_lem_example :
    serializable_retry conflicts (Friends.request_transaction 2 1) site
    ≡ transaction (Friends.request_transaction 2 1) site
serializable_retry_lem_example =
    serializable_retry_lem conflicts (Friends.request_transaction 2 1) site

request_lem_example :
    let (r, db') = Friends.request conflicts 2 1 site in
    ((on_terms 2 1 site && gets_through conflicts ≡ true)
      × (r ≡ ok tt)
      × (relation 2 1 db'.friends ≡ requested (relation 2 1 site.friends)))
    ⊎ ((on_terms 2 1 site && gets_through conflicts ≡ false) × (r ≢ ok tt) × (db' ≡ site))
request_lem_example = request_lem conflicts 2 1 site (omega arith)

remove_lem_example :
    let (r, db') = Friends.remove conflicts 2 1 site in
    ((gets_through conflicts ≡ true)
      × (r ≡ ok tt)
      × (relation 2 1 db'.friends ≡ strangers)
      × (db'.friends ≡ delete (is_between 2 1) site.friends))
    ⊎ ((gets_through conflicts ≡ false) × (r ≢ ok tt) × (db' ≡ site))
remove_lem_example = remove_lem conflicts 2 1 site site-IsUnique

insert_lem_example :
    let (r, db') = Ignores.insert 2 (1 ∷ []) site in
    ((elem 2 (1 ∷ []) || includes_staff (1 ∷ []) site ≡ true) × (r ≢ ok tt) × (db' ≡ site))
    ⊎ ((elem 2 (1 ∷ []) || includes_staff (1 ∷ []) site ≡ false)
        × (r ≡ ok tt)
        × (Ignores.check 2 1 db' ≡ (Ignores.check 2 1 site || (2 == 2 && elem 1 (1 ∷ [])))))
insert_lem_example = insert_lem 2 (1 ∷ []) 2 1 site (omega arith) (omega arith)

abbrev calls : List Call
calls = befriend conflicts 2 1 ∷ watch 1 2 ∷ ignore 2 (1 ∷ []) ∷ befriend [] 1 2 ∷ []

run-IsSeparated_example : IsSeparated (run calls site) × IsUnique (run calls site).friends
run-IsSeparated_example = run-IsSeparated calls site site-IsSeparated site-IsUnique
