-- ===== src/Search/Plans.antt =====
-- The two plans of `_prepare_search` for submissions, by the rows of `searchmapsubmit` and by the array of
-- `submission_tags`, find the same.
use weasyl.Prelude.{
  ℕ, ◌≤◌, ◌≡◌, ◌∙◌, refl, sym, ap, Bool, true, false, ◌&&◌, List, [], ◌∷◌, arith, ◌==◌,
  if◌then◌else◌, all, Bool-cases, inl, inr,
}
use weasyl.Prelude.Strings.{same-eq}
use weasyl.Sql.{exists, count, elem}
use weasyl.Sql.Laws.{count-exists_no, exists-count_no}
use weasyl.Database.{TagRow, Submission}
use weasyl.SearchTags.Tables.{TagArray, Tagging}
use weasyl.SearchTags.Associate.{is_of, is_tag, tagids_of}
use weasyl.SearchTags.Associate.Arrays.{is_synced, AreSynced}
use weasyl.Search.Resolve.{ResolvedQuery}
use weasyl.Search.Submissions.{
  SearchParams, is_singleton, contains_all, is_single_tag, tag_joins, array_fits, array_joins,
  times, find_by, find_submissions,
}

-- The primary keys of the two tables, and an array for every submission with tags.
abbrev pub HasKeys : Tagging → Type 0
HasKeys t =
    ((id tagid : ℕ) → count (is_tag id tagid) t.site.submission_tags ≤ 1)
    × ((id : ℕ) → count (λ a. a.submitid == id) t.arrays ≤ 1)
    × ((id : ℕ)
        → exists (is_of id) t.site.submission_tags ≡ true
        → exists (λ a. a.submitid == id) t.arrays ≡ true)

elem-tagids_of :
    (id x : ℕ) (rows : List TagRow) → elem x (tagids_of (is_of id) rows) ≡ exists (is_tag id x) rows
elem-tagids_of id x [] = refl
elem-tagids_of id x (r ∷ rows) = ground (arith, elem-tagids_of id x rows)

count-single :
    (id x : ℕ) (rows : List TagRow)
    → count (λ r. is_of id r && elem r.tagid (x ∷ [])) rows ≡ count (is_tag id x) rows
count-single id x [] = refl
count-single id x (r ∷ rows) = ground (arith, count-single id x rows)

exists-is_of :
    (id x : ℕ) (rows : List TagRow)
    → exists (is_tag id x) rows ≡ true
    → exists (is_of id) rows ≡ true
exists-is_of id x [] h = cc
exists-is_of id x (r ∷ rows) h = ground (arith, exists-is_of id x rows)

-- Where the arrays follow the rows, a test of an array is a test of the rows.
count-synced :
    (id : ℕ) (g : List ℕ → Bool) (rows : List TagRow) (arrays : List TagArray)
    → all (is_synced rows id) arrays ≡ true
    → count (λ a. a.submitid == id && g a.tags) arrays
      ≡ (if g (tagids_of (is_of id) rows) then count (λ a. a.submitid == id) arrays else 0)
count-synced id g rows [] h = ground arith
count-synced id g rows (a ∷ arrays) h = elim (Bool-cases (a.submitid == id)) [
  | inl e ↦
      let tags : a.tags ≡ tagids_of (is_of id) rows =
        same-eq a.tags (tagids_of (is_of id) rows) (ground arith) in
      let tested : g a.tags ≡ g (tagids_of (is_of id) rows) = ap g tags in
      ground (arith, tested, count-synced id g rows arrays)
  | inr e ↦ ground (arith, count-synced id g rows arrays)
]

count_one :
    {A : Type 0} (p : A → Bool) (rows : List A)
    → count p rows ≤ 1
    → exists p rows ≡ true
    → count p rows ≡ 1
count_one p rows h e = ground (arith, exists-count_no p rows)

singleton_shape : (xs : List ℕ) → is_singleton xs ≡ true → (x : ℕ) × (xs ≡ x ∷ [])
singleton_shape [] h = absurd (cc)
singleton_shape (x ∷ []) h = (x, refl)
singleton_shape (x ∷ y ∷ xs) h = absurd (cc)

fits_single :
    (p : SearchParams) (q : ResolvedQuery) (s : Submission) (t : Tagging) (x : ℕ) (tags : List ℕ)
    → is_single_tag p q ≡ true
    → q.required_includes ≡ x ∷ []
    → array_fits p q s t tags ≡ elem x tags
fits_single p q s t x tags h e =
    let required : contains_all tags q.required_includes ≡ elem x tags && true =
      ap (contains_all tags) e in
    ground (arith, required)

single-joins :
    (p : SearchParams) (q : ResolvedQuery) (s : Submission) (t : Tagging)
    → AreSynced t
    → HasKeys t
    → is_single_tag p q ≡ true
    → tag_joins q s t ≡ array_joins p q s t
single-joins p q s t synced (tag_key, array_key, complete) h =
    let rows = t.site.submission_tags in
    let id = s.submitid in
    let (x, e) = singleton_shape q.required_includes (ground arith) in
    let tags = tagids_of (is_of id) rows in
    let by_rows : tag_joins q s t ≡ count (is_tag id x) rows =
      ap (λ required. count (λ r. is_of id r && elem r.tagid required) rows) e
      ∙ count-single id x rows in
    let by_array : array_joins p q s t
        ≡ (if array_fits p q s t tags then count (λ a. a.submitid == id) t.arrays else 0) =
      count-synced id (array_fits p q s t) rows t.arrays (synced id) in
    let tested : array_fits p q s t tags ≡ exists (is_tag id x) rows =
      fits_single p q s t x tags h e ∙ elem-tagids_of id x rows in
    by_rows ∙ elim (Bool-cases (exists (is_tag id x) rows)) [
      | inl found ↦
          count_one (is_tag id x) rows (tag_key id x) found
          ∙ sym (
              count_one (λ a. a.submitid == id) t.arrays (array_key id)
                (complete id (exists-is_of id x rows found)))
          ∙ sym (by_array ∙ rw (tested, found) refl)
      | inr missing ↦
          count-exists_no (is_tag id x) rows missing ∙ sym (by_array ∙ rw (tested, missing) refl)
    ]

single-times :
    (p : SearchParams) (q : ResolvedQuery) (s : Submission) (t : Tagging)
    → AreSynced t
    → HasKeys t
    → times (is_single_tag p q) p q s t ≡ times false p q s t
unfolding times
single-times p q s t synced keys = elim (Bool-cases (is_single_tag p q)) [
  | inl e ↦ rw (e, single-joins p q s t synced keys e) refl
  | inr e ↦ rw e refl
]

find_by-single :
    (p : SearchParams) (q : ResolvedQuery) (t : Tagging) (rows : List Submission)
    → AreSynced t
    → HasKeys t
    → find_by (is_single_tag p q) p q t rows ≡ find_by false p q t rows
unfolding find_by
find_by-single p q t [] synced keys = refl
find_by-single p q t (s ∷ rows) synced keys =
    rw (single-times p q s t synced keys, find_by-single p q t rows synced keys) refl

-- A search of submissions finds the same rows, as often and in the same order, as the plan that reads
-- every submission's array, also where it takes the faster plan by the rows of `searchmapsubmit`. The
-- arrays follow the rows, as `associate` keeps them, the two tables have their primary keys, and
-- every submission with a tag has an array.
pub find_submissions-find_by :
    (p : SearchParams) (q : ResolvedQuery) (t : Tagging)
    → AreSynced t
    → HasKeys t
    → find_submissions p q t ≡ find_by false p q t t.site.submissions
unfolding find_submissions
find_submissions-find_by p q t synced keys = find_by-single p q t t.site.submissions synced keys
