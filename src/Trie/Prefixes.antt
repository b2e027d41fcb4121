-- ===== src/Trie/Prefixes.antt =====
-- A trie (weasyl/util/trie.py) is a set of sequences that answers questions about prefixes.
use weasyl.Prelude.{
  ℕ, ◌≡◌, refl, Bool, true, false, ◌||◌, Option, none, some, List, [], ◌∷◌, ◌&&◌, arith, ◌==◌,
  if◌then◌else◌, any,
}
use weasyl.Trie.{
  Node, Children, complete, inner, nil, child, get, put, setdefault, add, add_all, trie,
  contains_prefix_of,
}

-- The specification: a sequence is an initial part of another.
abbrev pub is_prefix : List ℕ → List ℕ → Bool
is_prefix [] path = true
is_prefix (c ∷ item) [] = false
is_prefix (c ∷ item) (p ∷ path) = p == c && is_prefix item path

get-put :
    (k c : ℕ) (value : Node) (children : Children)
    → get k (put c value children) ≡ (if k == c then some value else get k children)
unfolding get put
get-put k c value nil = refl
get-put k c value (child j node rest) = ground (arith, get-put k c value rest)

-- What is asked of the child under a component, which may be absent.
abbrev asked : List ℕ → Option Node → Bool
asked path none = false
asked path (some node) = contains_prefix_of path node

contains_prefix_of-inner :
    (p : ℕ) (path : List ℕ) (children : Children)
    → contains_prefix_of (p ∷ path) (inner children) ≡ asked path (get p children)
unfolding contains_prefix_of
contains_prefix_of-inner p path children = ground arith

asked-setdefault :
    (p : ℕ) (path : List ℕ) (children : Children)
    → contains_prefix_of path (setdefault p children) ≡ asked path (get p children)
unfolding setdefault contains_prefix_of
asked-setdefault p [] children = ground arith
asked-setdefault p (q ∷ path) children = ground arith

contains_prefix_of-complete : (path : List ℕ) → contains_prefix_of path complete ≡ true
unfolding contains_prefix_of
contains_prefix_of-complete [] = refl
contains_prefix_of-complete (p ∷ path) = refl

or_true : (b : Bool) → (b || true) ≡ true
or_true true = refl
or_true false = refl

-- Adding a sequence adds the questions that it answers, and loses none.
pub contains_prefix_of-add :
    (item path : List ℕ) (node : Node)
    → contains_prefix_of path (add item node)
      ≡ (is_prefix item path || contains_prefix_of path node)
unfolding add
contains_prefix_of-add [] path node = contains_prefix_of-complete path
contains_prefix_of-add (c ∷ item) path complete = rw (contains_prefix_of-complete path, or_true _)
contains_prefix_of-add (c ∷ item) [] (inner children) = unfold contains_prefix_of in refl
contains_prefix_of-add (c ∷ item) (p ∷ path) (inner children) = ground (
  arith,
  contains_prefix_of-inner p path children,
  contains_prefix_of-inner p path (put c (add item (setdefault c children)) children),
  get-put p c (add item (setdefault c children)) children,
  contains_prefix_of-add item path (setdefault c children),
  asked-setdefault c path children,
)

add_all-any :
    (items : List (List ℕ)) (path : List ℕ) (root : Node)
    → contains_prefix_of path (add_all items root)
      ≡ (any (λ item. is_prefix item path) items || contains_prefix_of path root)
unfolding add_all
add_all-any [] path root = refl
add_all-any (item ∷ items) path root =
    ground (arith, add_all-any items path (add item root), contains_prefix_of-add item path root)

-- A trie of any sequences, in any order, repeated or extending one another, contains a prefix of a
-- path exactly when one of the sequences is a prefix of the path.
pub contains_prefix_of-trie :
    (items : List (List ℕ)) (path : List ℕ)
    → contains_prefix_of path (trie items) ≡ any (λ item. is_prefix item path) items
unfolding trie
contains_prefix_of-trie items path = ground (arith, add_all-any items path (inner nil), empty path)
  where
    empty : (path : List ℕ) → contains_prefix_of path (inner nil) ≡ false
    empty [] = unfold contains_prefix_of in refl
    empty (p ∷ path) = unfold contains_prefix_of get in refl
