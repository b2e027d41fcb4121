-- ===== src/Tests/Pure.antt =====
-- weasyl/pagination.py, weasyl/rate_limits.py, weasyl/util/trie.py and weasyl/forms.py on small inputs.
use weasyl.Prelude.{ℕ, ◌^◌, ◌≤◌, ◌<◌, ◌≡◌, ◌↔◌, refl, true, some, List, [], ◌∷◌, arith}
use weasyl.Prelude.Int.{pos}
use weasyl.Pagination.{first_page, next_filter, prev_filter, paginate}
use weasyl.Pagination.Walk.{walk, walk-first_page}
use weasyl.RateLimits.{GlobalRateLimit, Bucket, taken}
use weasyl.RateLimits.Window.{taken-le-twice_capacity}
use weasyl.Trie.{trie, contains_prefix_of}
use weasyl.Trie.Prefixes.{contains_prefix_of-trie}
use weasyl.Forms.{ok, collapse, expect_id, parse_tag}
use weasyl.Forms.Ids.{decimal, expect_id_iff}

abbrev rows : List ℕ
rows = 9 ∷ 7 ∷ 6 ∷ 4 ∷ 1 ∷ []

walk-first_page_example : walk (λ x. x) 2 6 rows first_page ≡ rows
walk-first_page_example = walk-first_page (λ x. x) 2 rows (omega arith) (omega arith)

-- The second page of two, with a page on either side.
paginate_middle :
    let page = paginate (λ x. x) (6 ∷ 4 ∷ 1 ∷ []) 2 (next_filter 7) in
    (page.items ≡ 6 ∷ 4 ∷ [])
    × (page.prev_page ≡ some (prev_filter 6))
    × (page.next_page ≡ some (next_filter 4))
unfolding paginate
paginate_middle = (refl, refl, refl)

abbrev five_a_minute : GlobalRateLimit
five_a_minute = record { capacity = 5; period = 60 }

abbrev bucket : Bucket
bucket = record { available = pos 2; last_update = 1000 }

abbrev request_times : List ℕ
request_times = 1030 ∷ 1031 ∷ 1031 ∷ 1032 ∷ 1090 ∷ []

taken-le-twice_capacity_example : taken five_a_minute request_times bucket ≤ 10
taken-le-twice_capacity_example =
    taken-le-twice_capacity five_a_minute 1030 request_times bucket 2 (omega arith)
      (refl, omega arith) (omega arith) (omega arith)

-- The docstring's example, with the components as numbers.
contains_prefix_of-trie_example :
    contains_prefix_of (1 ∷ 2 ∷ 9 ∷ []) (trie ((1 ∷ 2 ∷ []) ∷ (1 ∷ 3 ∷ []) ∷ [])) ≡ true
contains_prefix_of-trie_example =
    contains_prefix_of-trie ((1 ∷ 2 ∷ []) ∷ (1 ∷ 3 ∷ []) ∷ []) (1 ∷ 2 ∷ 9 ∷ [])

-- "42"
abbrev forty_two : List ℕ
forty_two = b'4' ∷ b'2' ∷ []

expect_id-forty_two : expect_id forty_two ≡ ok 42
unfolding expect_id
expect_id-forty_two = refl

expect_id_iff_example :
    (expect_id forty_two ≡ ok 42) ↔ ((forty_two ≡ decimal 42) × (0 < 42) × (42 < 2 ^ 31))
expect_id_iff_example = expect_id_iff forty_two 42

-- "__Red_ Fox!" without its space
abbrev field : List ℕ
field = b'_' ∷ b'R' ∷ b'e' ∷ b'd' ∷ b'_' ∷ b'_' ∷ b'F' ∷ b'x' ∷ b'!' ∷ []

abbrev tag : List ℕ
tag = b'r' ∷ b'e' ∷ b'd' ∷ b'_' ∷ b'f' ∷ b'x' ∷ []

parse_tag-field : parse_tag field ≡ ok (some tag)
unfolding parse_tag collapse
parse_tag-field = refl
