-- ===== src/Search/Submissions.antt =====
-- `_prepare_search` of weasyl/search.py for submissions: which rows its statement finds, and how often,
-- since a row comes out once for each way to join it. Every submission's user has a profile. The
-- order, the page and the columns of the statement are left out.
use weasyl.Prelude.{
  ℕ, zero, suc, ◌+◌, ◌*◌, Bool, true, false, not, ◌&&◌, ◌||◌, List, [], ◌∷◌, ◌==◌, leb, ltb,
  if◌then◌else◌, all, any,
}
use weasyl.Sql.{exists, count, elem}
use weasyl.Database.{
  Submission, FavoriteType, FavoriteRow, FriendRow, WatchRow, Notification, BlocktagRow, TagRow, Db,
}
use weasyl.Database
use weasyl.Friends.{is_between, is_pending}
use weasyl.SearchTags.Tables.{Tagging}
use weasyl.SearchTags.Associate.{is_of}
use weasyl.Search.Resolve.{ResolvedQuery}

-- The `within` of a search; any other text is `anywhere`.
pub data Within : Type 0 where
  notify fave friend follow anywhere : Within

pub record SearchParams : Type 0 where
  pub userid : ℕ
  pub rating : ℕ
  pub within : Within
  pub cat : ℕ
  pub subcat : ℕ

abbrev pub is_nil : List ℕ → Bool
is_nil [] = true
is_nil (x ∷ xs) = false

abbrev pub is_singleton : List ℕ → Bool
is_singleton (x ∷ []) = true
is_singleton _ = false

-- `is_single_tag`
abbrev pub is_single_tag : SearchParams → ResolvedQuery → Bool
is_single_tag p q =
    p.userid == 0
    && (is_singleton q.required_includes
        && (is_nil q.possible_includes && is_nil q.required_excludes))

-- `a && b` and `a @> b` of two arrays.
abbrev pub overlaps : List ℕ → List ℕ → Bool
overlaps a b = any (λ x. elem x b) a

abbrev pub contains_all : List ℕ → List ℕ → Bool
contains_all a b = all (λ x. elem x a) b

-- The rows that a submission is joined with: the tags alone, or its array.
abbrev pub tag_joins : ResolvedQuery → Submission → Tagging → ℕ
tag_joins q s t =
    count (λ r. is_of s.submitid r && elem r.tagid q.required_includes) t.site.submission_tags

abbrev pub blocked : SearchParams → Tagging → ℕ → List ℕ → Bool
blocked p t rating tags =
    any (λ b. b.userid == p.userid && (b.rating == rating && elem b.tagid tags)) t.site.blocktags

-- The conditions on the array: required, blocked, possible and excluded tags.
abbrev pub array_fits : SearchParams → ResolvedQuery → Submission → Tagging → List ℕ → Bool
array_fits p q s t tags =
    contains_all tags q.required_includes
    && ((p.userid == 0
          || (not (blocked p t 10 tags)
              && ((ltb s.rating 30 || not (blocked p t 30 tags))
                  && (ltb s.rating 40 || not (blocked p t 40 tags)))))
        && ((is_nil q.possible_includes || overlaps tags q.possible_includes)
            && (is_nil q.required_excludes || not (overlaps tags q.required_excludes))))

abbrev pub array_joins : SearchParams → ResolvedQuery → Submission → Tagging → ℕ
array_joins p q s t = count (λ a. a.submitid == s.submitid && array_fits p q s t a.tags) t.arrays

-- The join of `within`, for a user only.
abbrev is_noticed : SearchParams → Submission → Notification → Bool
is_noticed p s n =
    n.targetid == s.submitid && (n.userid == p.userid && (n.type == 2010 || n.type == 2030))

abbrev is_submission : FavoriteType → Bool
is_submission Database.submit = true
is_submission _ = false

abbrev is_faved : SearchParams → Submission → FavoriteRow → Bool
is_faved p s f = f.targetid == s.submitid && (f.userid == p.userid && is_submission f.type)

unfoldable pub within_joins : Within → SearchParams → Submission → Db → ℕ
within_joins notify p s db = count (is_noticed p s) db.welcome
within_joins fave p s db = count (is_faved p s) db.favorites
within_joins friend p s db =
    count (λ f. is_between p.userid s.userid f && not (is_pending f.settings)) db.friends
within_joins follow p s db = count (λ w. w.userid == p.userid && w.otherid == s.userid) db.watches
within_joins anywhere p s db = 1

abbrev pub is_anywhere : Within → Bool
is_anywhere anywhere = true
is_anywhere _ = false

-- `is_global`
abbrev pub is_global : SearchParams → ResolvedQuery → Bool
is_global p q = (p.userid == 0 || is_anywhere p.within) && is_nil q.required_user_includes

-- The category or the subcategory.
abbrev pub in_category : SearchParams → Submission → Bool
in_category p s =
    if not (p.subcat == 0)
    then s.subtype == p.subcat
    else p.cat == 0 || (leb p.cat s.subtype && ltb s.subtype (p.cat + 1000))

-- The conditions on the submission itself.
unfoldable pub content_fits : SearchParams → ResolvedQuery → Submission → Db → Bool
content_fits p q s db =
    leb s.rating p.rating
    && (not s.friends_only
        && (not s.hidden
            && (in_category p s
                && ((p.userid == 0
                      || ((is_nil q.ratings || elem s.rating q.ratings)
                          && not (
                              exists (λ i. i.userid == p.userid && i.otherid == s.userid)
                                db.ignores)))
                    && ((is_nil q.required_user_includes || elem s.userid q.required_user_includes)
                        && ((is_nil q.required_user_excludes
                              || not (elem s.userid q.required_user_excludes))
                            && (not (is_global p q) || not s.browse_excluded)))))))

abbrev pub repeat : ℕ → Submission → List Submission → List Submission
repeat zero s rest = rest
repeat (suc n) s rest = s ∷ repeat n s rest

-- How often a submission comes out, by either plan of the statement.
unfoldable pub times : Bool → SearchParams → ResolvedQuery → Submission → Tagging → ℕ
times single p q s t =
    if content_fits p q s t.site
    then (if single then tag_joins q s t else array_joins p q s t)
      * (if p.userid == 0 then 1 else within_joins p.within p s t.site)
    else 0

unfoldable pub find_by :
    Bool → SearchParams → ResolvedQuery → Tagging → List Submission → List Submission
find_by single p q t [] = []
find_by single p q t (s ∷ rows) = repeat (times single p q s t) s (find_by single p q t rows)

-- The rows of the statement.
unfoldable pub find_submissions : SearchParams → ResolvedQuery → Tagging → List Submission
find_submissions p q t = find_by (is_single_tag p q) p q t t.site.submissions
