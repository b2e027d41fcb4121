-- ===== src/Tests/Posts.antt =====
-- weasyl/favorite.py, weasyl/folder.py, weasyl/collection.py and weasyl/welcome.py on small inputs.
use weasyl.Prelude.{◌≡◌, refl, false, none, List, [], ◌∷◌, arith}
use weasyl.Prelude.Int.{pos}
use weasyl.Database.{submit, Db}
use weasyl.Favorites.{FavoriteCall, favor, unfavor, run_favorites}
use weasyl.Favorites.Invariant.{IsConsistent, run_favorites-IsConsistent}
use weasyl.Folders.{create, move, remove, start, created, moved, removed}
use weasyl.Folders.Tree.{IsTree}
use weasyl.Folders.Invariant.{Reaches-IsTree}
use weasyl.Collections.{
  CollectionCall, offers, requests, accepts, rejects, removes, run_collections,
}
use weasyl.Collections.Invariant.{IsLimited, run_collections-IsLimited}
use weasyl.Sql.{count}
use weasyl.Collections.{pending_accept}
use weasyl.Collections.Answers.{asks_for, pending_accept-asks}
use weasyl.Tests.Users.{site, conflicts}

-- User 2 has posted submission 7, which user 1 has marked.
abbrev gallery : Db
gallery = record site {
  submissions =
      record {
        submitid = 7;
        userid = 2;
        rating = 10;
        hidden = false;
        friends_only = false;
        favorites = pos 1;
        folderid = none;
        subtype = 1010;
        browse_excluded = false;
      }
      ∷ [];
  favorites = record { userid = 1; targetid = 7; type = submit; unixtime = 900 } ∷ [];
}

gallery-IsConsistent : IsConsistent gallery
gallery-IsConsistent = ((refl, tt), λ u type t. ground arith)

abbrev marks : List FavoriteCall
marks =
    favor conflicts 3 submit 7
    ∷ favor [] 3 submit 7
    ∷ unfavor [] 1 submit 7
    ∷ unfavor [] 1 submit 7
    ∷ []

run_favorites-IsConsistent_example : IsConsistent (run_favorites marks gallery)
run_favorites-IsConsistent_example = run_favorites-IsConsistent marks gallery gallery-IsConsistent

-- Folder 1 of user 2, and folder 2 in it.
abbrev shelves : Db
shelves = record site {
  folders =
      record { folderid = 1; parentid = 0; userid = 2; title = b'a' ∷ []; settings = [] }
      ∷ record { folderid = 2; parentid = 1; userid = 2; title = b'b' ∷ []; settings = [] }
      ∷ [];
}

shelves-IsTree : IsTree shelves.folders
shelves-IsTree = (refl, λ id. ground arith, refl)

Reaches-IsTree_example :
    IsTree (remove 2 1 (move 2 2 0 (create 3 2 (b'c' ∷ []) 1 shelves).1).1).1.folders
Reaches-IsTree_example =
    Reaches-IsTree shelves (remove 2 1 (move 2 2 0 (create 3 2 (b'c' ∷ []) 1 shelves).1).1).1
      (removed 2 1 (moved 2 2 0 (created 3 2 (b'c' ∷ []) 1 start refl (omega arith))))
      shelves-IsTree

abbrev trades : List CollectionCall
trades =
    offers 2 7 1
    ∷ requests false 3 7 2
    ∷ accepts 1 ((7, 1) ∷ [])
    ∷ rejects 2 ((7, 3) ∷ [])
    ∷ removes 1 (7 ∷ [])
    ∷ []

gallery-IsLimited : IsLimited gallery
gallery-IsLimited = (λ id. ground arith, λ u o. omega arith)

run_collections-IsLimited_example : IsLimited (run_collections trades gallery)
run_collections-IsLimited_example = run_collections-IsLimited trades gallery gallery-IsLimited

-- The gallery, with submission 7 offered to user 1.
abbrev offered : Db
offered = record gallery {
  collections = record { userid = 1; submitid = 7; unixtime = 950; settings = b'p' ∷ [] } ∷ [];
  welcome =
      record { userid = 1; otherid = 2; referid = 0; targetid = 7; unixtime = 950; type = 3030 }
      ∷ [];
}

pending_accept-asks_example :
    count (asks_for 7) (pending_accept 1 ((7, 1) ∷ []) offered).1.welcome ≡ 1
pending_accept-asks_example = pending_accept-asks 7 1 ((7, 1) ∷ []) offered refl
