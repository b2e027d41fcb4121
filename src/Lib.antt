-- ===== src/Lib.antt =====
-- Weasyl, an art site: the parts of its Python server that keep users' relations, notifications, tags,
-- notes, form input, paging and rate limits right. Paths are those of the repository.
--
-- Pure parts.
-- weasyl/pagination.py is Pagination.antt: `paginate` gets the items, the limit and the page filter,
-- and returns the links with the list that the source trims and reverses in place. Pagination/Walk
-- reads on from page to page; its fuel is one more than the number of items, since every page but the
-- last shows at least one. weasyl/util/trie.py is Trie.antt. weasyl/rate_limits.py is RateLimits.antt:
-- one row of `global_rate_limits`, its `UPDATE` on integers, and the checks of the parameters.
-- weasyl/forms.py is Forms.antt, and weasyl/users.py is Users.antt with `parse_sysname` of forms.py; the record
-- `Unicode` stands for NFKD normalization and `str.lower`, and `IsAsciiFaithful` in Users/Words says that the
-- first leaves ASCII text as it is, and that the second lowers its letters.
-- `thread` of weasyl/comment.py is Threads.antt. Its fuel is one more than the number of rows, since a chain of
-- replies has each row once at most; Threads/Order compares it with the forest of replies.
--
-- Parts on the database.
-- Database.antt has the tables of libweasyl/models/tables.py as lists of rows (Database/Tables), the
-- calls as functions from the tables to a result and the tables (Database/Actions), and
-- `serializable_retry` of weasyl/define.py, whose argument lists the attempts that the database fails;
-- its limit is the source's 16. Sql.antt has the statements: a `WHERE` clause is a Boolean function of
-- a row. Times of day and columns that no modelled operation reads are left out.
-- weasyl/ignoreuser.py is Ignores.antt, weasyl/frienduser.py is Friends.antt, weasyl/followuser.py is
-- Watches.antt, and weasyl/welcome.py is Welcome.antt, which holds the notifications they write.
-- Friends/Relation is the abstract view of two users' friendship that the rows implement. Social.antt
-- runs calls of the three on one database: ignoring deletes friendships and watches, and requests and
-- watches look at who is ignored.
-- Announcements.antt has the notifications of weasyl/welcome.py for new posts and streams.
-- The other operations of weasyl/comment.py and weasyl/shout.py are Comments.antt: Comments/Insertion and
-- Comments/Shouts write comments and their notifications, and Comments/Removal hides them with
-- `welcome.comment_remove`, whose recursive query runs as many rounds as the greatest id of the table, since a
-- reply has a greater id than its parent.
-- weasyl/favorite.py is Favorites.antt: favorites, the counter of a submission and who is notified; its
-- calls name one kind and one id, as the controllers' calls give one of three ids. weasyl/folder.py is
-- Folders.antt, whose relation `Reaches` is the sequences of calls, with the check of
-- weasyl/controllers/settings.py before `update_settings`; the form's ids have been read by
-- `d.get_int`.
-- weasyl/collection.py is Collections.antt: offers, requests, their answers and the throttle, with
-- `welcome.collection_insert`; the flag of `request` is `d.is_sfw_mode()`.
-- weasyl/two_factor_auth.py is TwoFactor.antt; the record `Crypto` stands for pyotp, bcrypt, Fernet and
-- `str.upper`, of which nothing is assumed.
-- weasyl/resetpassword.py is ResetPassword.antt, with `normalize_address` of weasyl/emailer.py in
-- ResetPassword/Addresses; the record `Hashes` stands for SHA-256, bcrypt and the database's `lower`, of which
-- nothing is assumed, and the random token is an argument.
-- weasyl/login.py is Accounts.antt: signing up and verifying, with Accounts/Renaming for `change_username` and
-- Accounts/SignIn for `authenticate_bcrypt` and the change of an address. The record `Services` stands for
-- Unicode, bcrypt and the list of disposable domains; tokens are arguments, and the unique indexes of the
-- tables raise. Its rows are Accounts/Tables. Accounts/Calls runs the calls, and Accounts/Kept says what holds
-- of names between them.
-- weasyl/searchtag.py is SearchTags.antt, whose state (SearchTags/Tables) is the shared tables with those
-- of tags. SearchTags/Associate has `associate` and `_set_suggested_tags`, SearchTags/Patterns the patterns of
-- restricted tags, SearchTags/Tokens the undo tokens, SearchTags/Suggestions `suggestion_arbitrate`,
-- `suggestion_action_undo` and `set_tag_feedback`, and SearchTags/Restrictions the lists of tags that are
-- kept for users. The record `Aead` stands for `ChaCha20Poly1305` with the server's key; what is assumed
-- of it is said by `Opens` and `Authenticates` in SearchTags/Tokens/Seal. The random nonce and the time are
-- arguments, sets of names are lists, and ids of tags are positive.
-- `remove` of weasyl/submission.py, weasyl/character.py and weasyl/journal.py is Posts.antt, with what
-- weasyl/welcome.py and weasyl/message.py delete of notifications; Posts/News lists the types that go with a post.
-- weasyl/blocktag.py is BlockedTags.antt, whose writes with the check of the age are BlockedTags/Writes; the views and listings of
-- weasyl/journal.py and weasyl/character.py are Journals.antt: a listing asks the database the questions that
-- the view asks of one post (Journals/Listed), and its pages are those of Pagination.antt (Journals/Pages).
-- weasyl/note.py is Notes.antt: sending, viewing and removing notes; the names of the recipients have been
-- parsed and looked up by `d.get_userids`.
--
-- weasyl/search.py is Search.antt: parsing a query, resolving its names (Search/Resolve), and the joins and
-- conditions of the search of submissions (Search/Submissions), where a submission is found once for every row
-- of the joined tables that fits. The ids of the users come from `d.get_userids`, an argument.
--
-- What is not modelled: the controllers, templates and middleware, media and images, the caches (a
-- cached list is read past its cache), listings that join names and media, the
-- searches of characters, journals and users, the identifiers and the end of sessions, settings of profiles,
-- moderation, and e-mail.
pub mod Prelude
pub mod Pagination
pub mod Trie
pub mod RateLimits
pub mod Forms
pub mod Sql
pub mod BlockedTags
pub mod Database
pub mod Ignores
pub mod Welcome
pub mod Friends
pub mod Watches
pub mod Favorites
pub mod Folders
pub mod Collections
pub mod Comments
pub mod TwoFactor
pub mod ResetPassword
pub mod Accounts
pub mod Announcements
pub mod SearchTags
pub mod Journals
pub mod Posts
pub mod Notes
pub mod Users
pub mod Search
pub mod Threads
pub mod Social
mod Tests
