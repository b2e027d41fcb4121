-- ===== src/Trie.antt =====
-- weasyl/util/trie.py. `_Inner` is a node: `True`, or a dict of children. The components of a
-- path are only hashed and compared, so they are numbers.
pub mod Prefixes
use weasyl.Prelude.{ℕ, Bool, true, false, Option, none, some, List, [], ◌∷◌, ◌==◌, if◌then◌else◌}

mutual
  pub data Node : Type 0 where
    complete : Node
    inner : Children → Node

  -- A dict in insertion order, as a copy of the list of pairs.
  pub data Children : Type 0 where
    nil : Children
    child : ℕ → Node → Children → Children

-- `node.get(component)`
unfoldable pub get : ℕ → Children → Option Node
get component nil = none
get component (child c node rest) = if component == c then some node else get component rest

-- `node[component] = value`
unfoldable pub put : ℕ → Node → Children → Children
put component value nil = child component value nil
put component value (child c node rest) =
    if component == c then child c value rest else child c node (put component value rest)

-- `node.setdefault(component, {})`, read only: the write is the `put` of the caller.
unfoldable pub setdefault : ℕ → Children → Node
unfolding get
setdefault component children = elim (get component children) [
  | none ↦ inner nil
  | some node ↦ node
]

-- `Trie.add`, at the node that the rest of the item leads to. The walk ends early at `True`, and
-- the last node of the walk is replaced by `True`, the root included.
unfoldable pub add : List ℕ → Node → Node
unfolding put setdefault
add [] node = complete
add (component ∷ item) complete = complete
add (component ∷ item) (inner children) =
    inner (put component (add item (setdefault component children)) children)

-- The loop of `Trie.__init__`, and `Trie.__init__`.
unfoldable pub add_all : List (List ℕ) → Node → Node
unfolding add
add_all [] root = root
add_all (item ∷ items) root = add_all items (add item root)

unfoldable pub trie : List (List ℕ) → Node
unfolding add_all
trie items = add_all items (inner nil)

-- `Trie.contains_prefix_of`, from a node.
unfoldable pub contains_prefix_of : List ℕ → Node → Bool
unfolding get
contains_prefix_of [] complete = true
contains_prefix_of [] (inner children) = false
contains_prefix_of (component ∷ path) complete = true
contains_prefix_of (component ∷ path) (inner children) = elim (get component children) [
  | none ↦ false
  | some node ↦ contains_prefix_of path node
]
