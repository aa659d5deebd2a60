-- ===== src/WildcardTree.antt =====
-- src/wildcardtree.cpp: the tree of the online players' names, for searches with `~`. A `char` is its
-- code; the ordered `std::map` of a node's children is a list in that order.
pub mod Words
pub mod Removal
pub mod Search
mod Tests
use baiakthunder.Base.{
  ℕ, ◌+◌, Bool, true, false, ◌&&◌, ◌||◌, not, Option, none, some, List, [], ◌∷◌, ◌++◌, ltb, ◌==◌,
  if◌then◌else◌,
}

mutual
  pub data Node : Type 0 where
    node : Bool → Children → Node

  pub data Children : Type 0 where
    leaf : Children
    child : ℕ → Node → Children → Children

-- WildcardTreeNode::getChild
unfoldable pub get_child : ℕ → Children → Option Node
get_child ch leaf = none
get_child ch (child c n cs) = if c == ch then some n else get_child ch cs

-- The map with the node at a key: in place of the one there, or at its place in the order.
unfoldable pub put_child : ℕ → Node → Children → Children
put_child ch n leaf = child ch n leaf
put_child ch n (child c m cs) =
    if c == ch
    then child ch n cs
    else if ltb ch c
    then child ch n (child c m cs)
    else child c m (put_child ch n cs)

-- std::map::erase
unfoldable pub erase_child : ℕ → Children → Children
erase_child ch leaf = leaf
erase_child ch (child c m cs) = if c == ch then cs else child c m (erase_child ch cs)

abbrev pub is_leaf : Children → Bool
is_leaf leaf = true
is_leaf (child c n cs) = false

abbrev pub or_fresh : Option Node → Node
or_fresh none = node false leaf
or_fresh (some n) = n

abbrev pub mark : Bool → Node → Node
mark true (node b cs) = node true cs
mark false n = n

abbrev pub children_of : Node → Children
children_of (node b cs) = cs

-- WildcardTreeNode::addChild: the node's children with that child there, and the child.
unfoldable pub add_child : ℕ → Bool → Children → Node
unfolding get_child
add_child ch breakpoint cs = mark breakpoint (or_fresh (get_child ch cs))

-- WildcardTreeNode::insert. (The source's loop has no end for an empty name; none is inserted.)
unfoldable pub insert : List ℕ → Node → Node
unfolding add_child put_child
insert [] n = n
insert (c ∷ []) (node b cs) = node b (put_child c (add_child c true cs) cs)
insert (c ∷ d ∷ str) (node b cs) = node b (put_child c (insert (d ∷ str) (add_child c false cs)) cs)

-- What is left of a child on the way up: a node with no name and no children goes.
unfoldable pub prune : ℕ → Node → Children → Children
unfolding put_child erase_child
prune c (node b ds) cs =
    if not (is_leaf ds) || b then put_child c (node b ds) cs else erase_child c cs

-- WildcardTreeNode::remove, down the path and up again; `none` if the path is not there.
unfoldable pub remove_path : List ℕ → Node → Option Node
unfolding get_child prune
remove_path [] (node b cs) = some (node false cs)
remove_path (c ∷ str) (node b cs) = elim (get_child c cs) [
  | none ↦ none
  | some n ↦ elim (remove_path str n) [ none ↦ none | some m ↦ some (node b (prune c m cs)) ]
]

unfoldable pub remove : List ℕ → Node → Node
unfolding remove_path
remove str n = elim (remove_path str n) [ none ↦ n | some m ↦ m ]

pub data ReturnValue : Type 0 where
  no_error player_with_this_name_is_not_online name_is_too_ambiguous : ReturnValue

-- The second loop of `findOne`, from the node that the query leads to.
unfoldable mutual
  pub complete : Node → ReturnValue × List ℕ
  complete (node b cs) = complete_children b cs

  complete_children : Bool → Children → ReturnValue × List ℕ
  complete_children b leaf = (no_error, [])
  complete_children b (child c n leaf) =
      let (r, rest) = complete n in if b then (name_is_too_ambiguous, []) else (r, c ∷ rest)
  complete_children b (child c n (child d m cs)) = (name_is_too_ambiguous, [])

-- The first loop of `findOne`.
unfoldable pub walk : List ℕ → Node → Option Node
unfolding get_child
walk [] n = some n
walk (c ∷ str) (node b cs) = elim (get_child c cs) [ none ↦ none | some n ↦ walk str n ]

-- WildcardTreeNode::findOne, with what `result` holds where it succeeds
unfoldable pub find_one : Node → List ℕ → ReturnValue × List ℕ
unfolding walk complete
find_one n query = elim (walk query n) [
  | none ↦ (player_with_this_name_is_not_online, [])
  | some m ↦ let (r, rest) = complete m in (r, query ++ rest)
]
