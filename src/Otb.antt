-- ===== src/Otb.antt =====
-- src/fileloader.cpp: the tree of nodes in a map or item file. A file is the list of its bytes, and an
-- iterator into it is an index. An exception of the loader is `none`.
pub mod Parsing
pub mod Contents
mod Tests
use baiakthunder.Base.{
  ℕ, zero, suc, ◌+◌, ◌-◌, Bool, true, false, ◌&&◌, ◌||◌, not, Option, none, some, List, [], ◌∷◌,
  ◌++◌, leb, ◌==◌, if◌then◌else◌, length, take, drop,
}

-- Node, with its type and the begin and the end of its properties
mutual
  pub data Node : Type 0 where
    node : ℕ → ℕ → ℕ → Nodes → Node

  pub data Nodes : Type 0 where
    childless : Nodes
    first : Node → Nodes → Nodes

-- A byte as the parser reads it: Node::NodeChar.
pub data NodeChar : Type 0 where
  escape start finish plain : NodeChar

unfoldable pub node_char : ℕ → NodeChar
node_char b =
    if b == 253 then escape else if b == 254 then start else if b == 255 then finish else plain

-- A node on the stack. Its children are those that are complete; the pointer to the end of its
-- properties is set before it is read.
pub record Frame : Type 0 where
  pub type : ℕ
  pub props_begin : ℕ
  pub props_end : ℕ
  pub children : Nodes

-- The stack: empty, with the root complete, or the current node and those that it is in.
pub data NodeStack : Type 0 where
  empty : Node → NodeStack
  inside : Frame → List Frame → NodeStack

abbrev pub new_node : ℕ → ℕ → Frame
new_node type begin = record {
  type = type;
  props_begin = begin;
  props_end = 0;
  children = childless;
}

abbrev pub is_childless : Nodes → Bool
is_childless childless = true
is_childless (first n ns) = false

abbrev pub append_child : Nodes → Node → Nodes
append_child childless n = first n childless
append_child (first m ms) n = first m (append_child ms n)

-- The properties end where the first child begins, or the node ends.
abbrev pub end_props : ℕ → Frame → Frame
end_props it f = if is_childless f.children then record f { props_end = it } else f

abbrev pub to_node : Frame → Node
to_node f = node f.type f.props_begin f.props_end f.children

-- The case of Node::START, with the type that comes next
unfoldable pub open_node : ℕ → ℕ → NodeStack → Option NodeStack
open_node it type (empty root) = none
open_node it type (inside f fs) = some (inside (new_node type (it + 2)) (end_props it f ∷ fs))

-- The case of Node::END
unfoldable pub close_node : ℕ → NodeStack → Option NodeStack
close_node it (empty root) = none
close_node it (inside f []) = some (empty (to_node (end_props it f)))
close_node it (inside f (g ∷ gs)) =
    some (inside (record g { children = append_child g.children (to_node (end_props it f)) }) gs)

-- Behind the last byte the stack has to be empty.
abbrev pub finished : NodeStack → Option Node
finished (empty root) = some root
finished (inside f fs) = none

-- The loop of Loader::parseTree, at an index and the bytes from there on
unfoldable pub parse_from : ℕ → List ℕ → NodeStack → Option Node
parse_from it [] s = finished s
parse_from it (b ∷ []) s = elim (node_char b) [
  | escape ↦ none
  | start ↦ none
  | finish ↦ elim (close_node it s) [ none ↦ none | some t ↦ finished t ]
  | plain ↦ finished s
]
parse_from it (b ∷ c ∷ bytes) s = elim (node_char b) [
  | escape ↦ parse_from (it + 2) bytes s
  | start ↦ elim (open_node it c s) [ none ↦ none | some t ↦ parse_from (it + 2) bytes t ]
  | finish ↦ elim (close_node it s) [ none ↦ none | some t ↦ parse_from (it + 1) (c ∷ bytes) t ]
  | plain ↦ parse_from (it + 1) (c ∷ bytes) s
]

abbrev pub minimal_size : ℕ
minimal_size = 7

abbrev pub same_bytes : List ℕ → List ℕ → Bool
same_bytes [] [] = true
same_bytes [] (y ∷ ys) = false
same_bytes (x ∷ xs) [] = false
same_bytes (x ∷ xs) (y ∷ ys) = x == y && same_bytes xs ys

abbrev pub wildcard : List ℕ
wildcard = 0 ∷ 0 ∷ 0 ∷ 0 ∷ []

-- Loader::Loader: is the file let in?
unfoldable pub accepts : List ℕ → List ℕ → Bool
accepts accepted file =
    if leb (length file) minimal_size
    then false
    else same_bytes (take 4 file) accepted || same_bytes (take 4 file) wildcard

abbrev pub parse_root : List ℕ → Option Node
parse_root [] = none
parse_root (b ∷ []) = none
parse_root (b ∷ type ∷ bytes) =
    if b == 254 then parse_from 6 bytes (inside (new_node type 6) []) else none

-- Loader::parseTree
unfoldable pub parse_tree : List ℕ → Option Node
parse_tree file = parse_root (drop 4 file)

-- The filter of Loader::getProps
unfoldable pub unescape : Bool → List ℕ → List ℕ
unescape last_escaped [] = []
unescape last_escaped (b ∷ bytes) =
    let escaped = b == 253 && not last_escaped in
    let rest = unescape escaped bytes in if escaped then rest else b ∷ rest

-- Loader::getProps; `none` where the node has no properties
unfoldable pub get_props : List ℕ → Node → Option (List ℕ)
get_props file (node type begin end ns) =
    if end - begin == 0 then none else some (unescape false (take (end - begin) (drop begin file)))
