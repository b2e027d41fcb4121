-- ===== src/Social.antt =====
-- Ignoring, befriending and watching together: weasyl/ignoreuser.py, weasyl/frienduser.py and
-- weasyl/followuser.py on one database, in any order of calls.
pub mod Separation
pub mod Invariant
use weasyl.Prelude.{ℕ, List, [], ◌∷◌}
use weasyl.Database.{Str, Db, Fault}
use weasyl.Ignores
use weasyl.Friends
use weasyl.Watches

-- A call of one of the modules' functions that write.
pub data Call : Type 0 where
  ignore unignore : ℕ → List ℕ → Call
  befriend unfriend take_back : List Fault → ℕ → ℕ → Call
  watch unwatch : ℕ → ℕ → Call
  set_watch : ℕ → ℕ → Str → Call

-- The state after a call, whether it returned or raised.
pub after : Call → Db → Db
after (ignore userid others) db = (Ignores.insert userid others db).1
after (unignore userid others) db = (Ignores.remove userid others db).1
after (befriend faults userid otherid) db = (Friends.request faults userid otherid db).1
after (unfriend faults userid otherid) db = (Friends.remove faults userid otherid db).1
after (take_back faults sender recipient) db = (Friends.remove_request faults sender recipient db).1
after (watch userid otherid) db = (Watches.insert userid otherid db).1
after (unwatch userid otherid) db = (Watches.remove userid otherid db).1
after (set_watch userid otherid settings) db =
    (Watches.update_settings userid otherid settings db).1

pub run : List Call → Db → Db
unfolding after
run [] db = db
run (call ∷ calls) db = run calls (after call db)
