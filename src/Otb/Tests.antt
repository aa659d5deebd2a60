-- ===== src/Otb/Tests.antt =====
-- A root with one child; a property of the child is the byte of Node::END.
use baiakthunder.Base.{ℕ, ◌≡◌, refl, none, some, List, [], ◌∷◌, ◌++◌}
use baiakthunder.Otb.{
  Node, node, childless, first, node_char, open_node, close_node, parse_from, parse_tree,
}
use baiakthunder.Otb.Parsing.{Item, item, no_items, next, encode}
use baiakthunder.Otb.Contents.{contents, parse_tree-contents}

abbrev version : List ℕ
version = 79 ∷ 84 ∷ 66 ∷ 77 ∷ []

abbrev document : Item
document = item 0 (1 ∷ 2 ∷ []) (next (item 4 (255 ∷ 9 ∷ []) no_items) no_items)

document_bytes : encode document ≡ 254 ∷ 0 ∷ 1 ∷ 2 ∷ 254 ∷ 4 ∷ 253 ∷ 255 ∷ 9 ∷ 255 ∷ 255 ∷ []
unfolding encode
document_bytes = refl

document_nodes :
    parse_tree (version ++ encode document)
    ≡ some (node 0 6 8 (first (node 4 10 13 childless) childless))
unfolding parse_tree parse_from encode node_char open_node close_node
document_nodes = refl

-- The root never ends.
unclosed : parse_tree (version ++ 254 ∷ 0 ∷ 1 ∷ 2 ∷ []) ≡ none
unfolding parse_tree parse_from node_char open_node close_node
unclosed = refl

-- A second root
two_roots : parse_tree (version ++ 254 ∷ 0 ∷ 255 ∷ 254 ∷ 0 ∷ 255 ∷ []) ≡ none
unfolding parse_tree parse_from node_char open_node close_node
two_roots = refl

parse_tree-contents_example :
    (n : Node) × (parse_tree (version ++ encode document) ≡ some n)
    × (contents (version ++ encode document) n ≡ document)
parse_tree-contents_example = parse_tree-contents version document refl
