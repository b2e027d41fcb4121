-- ===== src/Tests/Queries.antt =====
-- weasyl/users.py and weasyl/search.py on small inputs. The stand-in for the tables of Unicode knows
-- ASCII, and the trade mark sign, whose compatibility form is "TM".
use weasyl.Prelude.{◌≡◌, refl, true, false, some, [], ◌∷◌, arith, ◌==◌, if◌then◌else◌}
use weasyl.Prelude.Strings.{codes, same}
use weasyl.Forms
use weasyl.Forms.Text.{Str, lower, strip}
use weasyl.Users.{
  Unicode, Username, created, create, clean, check_name, get_sysname_unchecked, from_stored,
  parse_sysname,
}
use weasyl.Users.Words.{is_ascii, IsAsciiFaithful}
use weasyl.Users.Names.{parse_sysname-create, from_stored-create}
use weasyl.Search.{
  Query, submit, parse, add_criteria, add_criterion, add_term, term_of, find_modifier,
  rating_modifier, add, add_rating, difference, settle_sets,
}
use weasyl.Search.Disjoint.{IsSettled, parse-IsSettled}
use weasyl.Search.Resolve.{ResolvedQuery}
use weasyl.Search.Submissions.{SearchParams, anywhere, find_submissions, find_by}
use weasyl.Search.Plans.{HasKeys, find_submissions-find_by}
use weasyl.Tests.Tags.{tagged, tagged-AreSynced}

abbrev expand : Str → Str
expand [] = []
expand (c ∷ s) = if c == 8482 then b'T' ∷ b'M' ∷ expand s else c ∷ expand s

abbrev small_tables : Unicode
small_tables = record { nfkd = expand; lower_all = lower }

expand_ascii : (s : Str) → is_ascii s ≡ true → expand s ≡ s
expand_ascii [] h = refl
expand_ascii (c ∷ s) h = ground (arith, expand_ascii s)

small_tables-IsAsciiFaithful : IsAsciiFaithful small_tables
small_tables-IsAsciiFaithful s h = (expand_ascii s h, refl)

abbrev fox_name : Username
fox_name = record { display = codes "Red Fox"; sysname = codes "redfox" }

create-fox : create small_tables (codes "  Red;  Fox ") ≡ created fox_name
unfolding create check_name clean get_sysname_unchecked same
create-fox = refl

parse_sysname-create_example :
    parse_sysname small_tables (codes "  Red;  Fox ") ≡ some (codes "redfox")
parse_sysname-create_example =
    parse_sysname-create small_tables small_tables-IsAsciiFaithful (codes "  Red;  Fox ") fox_name
      refl create-fox

from_stored-create_example :
    (from_stored small_tables (codes "Red Fox") ≡ some fox_name)
    × (create small_tables (codes "Red Fox") ≡ created fox_name)
    × (parse_sysname small_tables (codes "Red Fox") ≡ some (codes "redfox"))
from_stored-create_example =
    from_stored-create small_tables small_tables-IsAsciiFaithful (codes "  Red;  Fox ") fox_name
      create-fox

-- Of "x" and the trade mark sign, the name is made with "tm", and looked up without.
create-trade_mark :
    create small_tables (b'x' ∷ 8482 ∷ [])
    ≡ created (record { display = codes "xTM"; sysname = codes "xtm" })
unfolding create check_name clean get_sysname_unchecked same
create-trade_mark = refl

parse_sysname-trade_mark : parse_sysname small_tables (b'x' ∷ 8482 ∷ []) ≡ some (codes "x")
unfolding parse_sysname
parse_sysname-trade_mark = refl

abbrev fox_query : Query
fox_query = record {
  possible_includes = [];
  required_includes = codes "red" ∷ codes "fox" ∷ [];
  required_excludes = codes "blue" ∷ [];
  required_user_includes = codes "ann" ∷ [];
  required_user_excludes = [];
  ratings = 10 ∷ [];
  find = some submit;
}

parse-fox_query :
    parse small_tables (codes "red, |fox -red -blue #general user:Ann |red") submit
    ≡ Forms.ok fox_query
unfolding parse strip add_criteria add_criterion add_term term_of find_modifier rating_modifier add
    add_rating difference settle_sets same Forms.parse_tag Forms.collapse parse_sysname
parse-fox_query = refl

parse-IsSettled_example : IsSettled fox_query
parse-IsSettled_example =
    parse-IsSettled small_tables (codes "red, |fox -red -blue #general user:Ann |red") submit
      fox_query parse-fox_query

abbrev by_tag : ResolvedQuery
by_tag = record {
  possible_includes = [];
  required_includes = 5 ∷ [];
  required_excludes = [];
  required_user_includes = [];
  required_user_excludes = [];
  ratings = [];
  find = submit;
}

abbrev guest : SearchParams
guest = record { userid = 0; rating = 40; within = anywhere; cat = 0; subcat = 0 }

tagged-HasKeys : HasKeys tagged
tagged-HasKeys = (λ id tagid. ground arith, λ id. ground arith, λ id h. ground arith)

find_submissions-find_by_example :
    find_submissions guest by_tag tagged ≡ find_by false guest by_tag tagged tagged.site.submissions
find_submissions-find_by_example =
    find_submissions-find_by guest by_tag tagged tagged-AreSynced tagged-HasKeys
