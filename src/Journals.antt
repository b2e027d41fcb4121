-- ===== src/Journals.antt =====
-- weasyl/journal.py and weasyl/character.py: who may view a journal or a character, and the pages that list
-- them. The rows of the tables stand in the order of their ids. The joins with `profile`, texts and the
-- counter of views are left out.
pub mod Listed
pub mod Pages
use weasyl.Prelude.{
  ℕ, ◌+◌, Bool, true, false, not, ◌&&◌, ◌||◌, Option, none, some, List, [], ◌∷◌, reverse, take,
  ◌==◌, ltb, leb, if◌then◌else◌,
}
use weasyl.Sql.{exists, select, first, elem}
use weasyl.Database.{
  Post, FriendRow, Db, Result, ok, err, FavoriteType, journal_record_missing,
  character_record_missing, Error, rating_exceeded, friends_only, user_ignored, tag_blocked,
}
use weasyl.Database
use weasyl.Ignores
use weasyl.Friends
use weasyl.Pagination.{
  PageFilter, first_page, prev_filter, next_filter, is_back, compat, Paginated, paginate,
}
use weasyl.BlockedTags.{check_blocked, has_blocked}
use weasyl.SearchTags.Tables.{Tagging, tags_of}

-- The two kinds of posts, which share their checks.
pub data Kind : Type 0 where
  character journal : Kind

abbrev pub feature : Kind → FavoriteType
feature character = Database.char
feature journal = Database.journal

abbrev pub posts : Kind → Db → List Post
posts character db = db.characters
posts journal db = db.journals

abbrev pub missing_error : Kind → Error
missing_error character = character_record_missing
missing_error journal = journal_record_missing

-- The reader: the user, 0 for a guest, the greatest rating to show, and `d.is_sfw_mode()`.
pub record Reader : Type 0 where
  pub userid : ℕ
  pub rating : ℕ
  pub sfw : Bool

abbrev pub is_mod : Reader → Tagging → Bool
is_mod r t = elem r.userid t.site.mods

-- The last branches of `_select_journal_and_check` and `_select_character_and_check`.
unfoldable pub check_post : Kind → Reader → Bool → Post → Tagging → Result Post
check_post kind r ignore j t =
    if j.hidden
    then err (missing_error kind)
    else if ltb r.rating j.rating && ((not (r.userid == j.userid) && not (is_mod r t)) || r.sfw)
    then err rating_exceeded
    else if j.friends_only && not (Friends.check r.userid j.userid t.site)
    then err friends_only
    else if ignore && Ignores.check r.userid j.userid t.site
    then err user_ignored
    else if ignore && check_blocked r.userid (feature kind) j.id t
    then err tag_blocked
    else ok j

-- `_select_journal_and_check` and `_select_character_and_check`, of the ids and the flags `ignore` and `anyway`.
unfoldable pub select_post_and_check : Kind → Reader → ℕ → Bool → Bool → Tagging → Result Post
select_post_and_check kind r id ignore anyway t =
    elim (first (λ j. j.id == id) (posts kind t.site)) [
      | none ↦ err (missing_error kind)
      | some j ↦ if is_mod r t && anyway then ok j else check_post kind r ignore j t
    ]

-- The `EXISTS` of `MACRO_FRIENDUSER_JOURNAL` and `MACRO_FRIENDUSER_CHARACTER`.
abbrev pub is_friend_row : ℕ → ℕ → FriendRow → Bool
is_friend_row userid otherid row =
    ((row.userid == userid && row.otherid == otherid)
      || (row.userid == otherid && row.otherid == userid))
    && not (Friends.is_pending row.settings)

-- The conditions of the listing for a user.
abbrev pub fits_rating : Reader → Post → Bool
fits_rating r j =
    if r.sfw then leb j.rating r.rating else j.userid == r.userid || leb j.rating r.rating

abbrev pub fits_friends : Reader → Post → Db → Bool
fits_friends r j db =
    not j.friends_only
    || (j.userid == r.userid || exists (is_friend_row r.userid j.userid) db.friends)

abbrev pub fits_ignores : Reader → Post → Db → Bool
fits_ignores r j db =
    not (exists (λ row. row.userid == r.userid && row.otherid == j.userid) db.ignores)

abbrev pub fits_tags : Kind → Reader → Post → Tagging → Bool
fits_tags kind r j t =
    j.userid == r.userid
    || not (has_blocked r.userid j.rating j.id (tags_of (feature kind) t) t.site.blocktags)

-- The `WHERE` clause of `select_browse_page` of journals and of `select_query` of characters for no owner,
-- without the page.
unfoldable pub is_listed : Kind → Reader → Tagging → Post → Bool
is_listed kind r t j =
    not j.hidden
    && (if r.userid == 0
        then leb j.rating r.rating && not j.friends_only
        else fits_rating r j
          && (fits_friends r j t.site && (fits_ignores r j t.site && fits_tags kind r j t)))

abbrev pub on_compat : ℕ × ℕ → Post → Bool
on_compat (backid, nextid) j =
    if not (backid == 0)
    then ltb backid j.id
    else if not (nextid == 0)
    then ltb j.id nextid
    else true

abbrev pub on_filter : PageFilter → Post → Bool
on_filter first_page j = true
on_filter (prev_filter backid) j = ltb backid j.id
on_filter (next_filter nextid) j = ltb j.id nextid

-- The condition of the page, and whether the rows ascend. Characters go by `page.compat()`.
abbrev pub on_page : Kind → PageFilter → Post → Bool
on_page character page j = on_compat (compat page) j
on_page journal page j = on_filter page j

abbrev pub ascends : Kind → PageFilter → Bool
ascends character page = not ((compat page).0 == 0)
ascends journal page = is_back page

-- `select_browse_page` of journals and `select_page` of characters
unfoldable pub select_page : Kind → Reader → ℕ → PageFilter → Tagging → Paginated Post
unfolding is_listed
select_page kind r limit page t =
    let rows = select (λ j. is_listed kind r t j && on_page kind page j) (posts kind t.site) in
    let ordered = if ascends kind page then rows else reverse rows in
    paginate (λ j. j.id) (take (limit + 1) ordered) limit page

-- The `WHERE` clause of `select_list` and of `select_latest`, of the journals of `otherid`.
unfoldable pub is_listed_by : Reader → ℕ → Tagging → Post → Bool
is_listed_by r otherid t j =
    (if r.userid == 0 then leb j.rating r.rating else fits_rating r j && fits_tags journal r j t)
    && (j.userid == otherid
        && (not j.hidden && (Friends.check r.userid otherid t.site || not j.friends_only)))

-- `select_list`, and the journal of `select_latest`.
unfoldable pub select_list : Reader → ℕ → Tagging → List Post
unfolding is_listed_by
select_list r otherid t = reverse (select (is_listed_by r otherid t) t.site.journals)

unfoldable pub select_latest : Reader → ℕ → Tagging → Option Post
unfolding is_listed_by
select_latest r otherid t = first (is_listed_by r otherid t) (reverse t.site.journals)
