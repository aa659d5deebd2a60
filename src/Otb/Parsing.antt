-- ===== src/Otb/Parsing.antt =====
-- The parser of fileloader.cpp on the format it is for, written out by itself.
use baiakthunder.Base.{
  append_assoc, ℕ, suc, ◌+◌, ◌≡◌, refl, sym, ap, ap₂, ◌∙◌, subst, false, some, List, [], ◌∷◌, ◌++◌,
  arith, leb, if◌then◌else◌, length, drop, Bool-cases, inl, inr, length-append, drop-append,
}
use baiakthunder.Otb.{
  Node, Nodes, node, childless, first, node_char, plain, Frame, NodeStack, inside, new_node,
  append_child, end_props, to_node, open_node, close_node, parse_from, parse_root, parse_tree,
}

-- What a file says: a type, properties and children.
mutual
  pub data Item : Type 0 where
    item : ℕ → List ℕ → Items → Item

  pub data Items : Type 0 where
    no_items : Items
    next : Item → Items → Items

-- A byte that the parser would read as a mark has an escape in front of it.
unfoldable pub escape_bytes : List ℕ → List ℕ
escape_bytes [] = []
escape_bytes (b ∷ bytes) =
    if leb 253 b then 253 ∷ b ∷ escape_bytes bytes else b ∷ escape_bytes bytes

unfoldable mutual
  unfolding escape_bytes

  pub encode : Item → List ℕ
  encode (item type props items) =
      254 ∷ type ∷ (escape_bytes props ++ (encode_all items ++ 255 ∷ []))

  pub encode_all : Items → List ℕ
  encode_all no_items = []
  encode_all (next i is) = encode i ++ encode_all is

-- The nodes of an item that begins at an index.
unfoldable mutual
  unfolding escape_bytes encode

  pub layout : ℕ → Item → Node
  layout it (item type props items) =
      let end = it + 2 + length (escape_bytes props) in
      node type (it + 2) end (layout_all end items)

  pub layout_all : ℕ → Items → Nodes
  layout_all it no_items = childless
  layout_all it (next i is) = first (layout it i) (layout_all (it + length (encode i)) is)

-- One step over a byte that is no mark, before more bytes.
parse-plain :
    (b : ℕ) (xs : List ℕ) (it c : ℕ) (rest : List ℕ) (s : NodeStack)
    → node_char b ≡ plain
    → parse_from it (b ∷ (xs ++ c ∷ rest)) s ≡ parse_from (it + 1) (xs ++ c ∷ rest) s
unfolding parse_from
parse-plain b [] it c rest s h = rw (parse_from, h) refl
parse-plain b (x ∷ xs) it c rest s h = ground (arith, h)

parse-finish :
    (f g : Frame) (gs : List Frame) (it c : ℕ) (rest : List ℕ)
    → parse_from it (255 ∷ c ∷ rest) (inside f (g ∷ gs))
      ≡ parse_from
          (it + 1)
          (c ∷ rest)
          (inside (record g { children = append_child g.children (to_node (end_props it f)) }) gs)
unfolding parse_from node_char close_node
parse-finish f g gs it c rest = refl

parse-start :
    (f : Frame) (fs : List Frame) (it type : ℕ) (rest : List ℕ)
    → parse_from it (254 ∷ type ∷ rest) (inside f fs)
      ≡ parse_from (it + 2) rest (inside (new_node type (it + 2)) (end_props it f ∷ fs))
unfolding parse_from node_char open_node
parse-start f fs it type rest = refl

parse-escaped :
    (b it : ℕ) (rest : List ℕ) (s : NodeStack)
    → parse_from it (253 ∷ b ∷ rest) s ≡ parse_from (it + 2) rest s
unfolding parse_from node_char
parse-escaped b it rest s = refl

not_a_mark : (b : ℕ) → leb 253 b ≡ false → node_char b ≡ plain
unfolding node_char
not_a_mark b h = ground arith

parse-props :
    (props : List ℕ) (it c : ℕ) (rest : List ℕ) (s : NodeStack)
    → parse_from it (escape_bytes props ++ c ∷ rest) s
      ≡ parse_from (it + length (escape_bytes props)) (c ∷ rest) s
unfolding escape_bytes
parse-props [] it c rest s = ap (λ i. parse_from i (c ∷ rest) s) (omega arith)
parse-props (b ∷ props) it c rest s = elim (Bool-cases (leb 253 b)) [
  | inl h ↦ rw h (
      parse-escaped b it (escape_bytes props ++ c ∷ rest) s
      ∙ parse-props props (it + 2) c rest s
      ∙ ap (λ i. parse_from i (c ∷ rest) s) (omega arith))
  | inr h ↦ rw h (
      parse-plain b (escape_bytes props) it c rest s (not_a_mark b h)
      ∙ parse-props props (it + 1) c rest s
      ∙ ap (λ i. parse_from i (c ∷ rest) s) (omega arith))
]

-- The current node after its children from an index on.
abbrev after : ℕ → Frame → Items → Frame
after it f no_items = f
after it f (next i is) =
    after (it + length (encode i))
      (record (end_props it f) { children = append_child f.children (layout it i) }) is

starts : (xs : List ℕ) (c : ℕ) (rest : List ℕ) → (d : ℕ) × (ds : List ℕ) × (xs ++ c ∷ rest ≡ d ∷ ds)
starts [] c rest = (c, rest, refl)
starts (x ∷ xs) c rest = (x, xs ++ c ∷ rest, refl)

parse-props-items :
    (props xs : List ℕ) (it c : ℕ) (rest : List ℕ) (s : NodeStack)
    → parse_from it (escape_bytes props ++ (xs ++ c ∷ rest)) s
      ≡ parse_from (it + length (escape_bytes props)) (xs ++ c ∷ rest) s
parse-props-items props xs it c rest s =
    let (d, ds, e) = starts xs c rest in
    subst
      (λ ys.
        parse_from it (escape_bytes props ++ ys) s
        ≡ parse_from (it + length (escape_bytes props)) ys s)
      (sym e) (parse-props props it d ds s)

-- A frame that has children keeps the end of its properties.
abbrev append_all : Nodes → Nodes → Nodes
append_all childless ns = ns
append_all (first m ms) ns = first m (append_all ms ns)

append_all_none : (ms : Nodes) → append_all ms childless ≡ ms
append_all_none childless = refl
append_all_none (first m ms) = ap (first m) (append_all_none ms)

append_child_all :
    (ms ns : Nodes) (n : Node) → append_all (append_child ms n) ns ≡ append_all ms (first n ns)
append_child_all childless ns n = refl
append_child_all (first m ms) ns n = ap (first m) (append_child_all ms ns n)

after-children :
    (is : Items) (it : ℕ) (t b e : ℕ) (n : Node) (ns : Nodes)
    → after it (record { type = t; props_begin = b; props_end = e; children = first n ns }) is
      ≡ record {
        type = t;
        props_begin = b;
        props_end = e;
        children = first n (append_all ns (layout_all it is));
      }
unfolding layout_all
after-children no_items it t b e n ns =
    ap (λ ms. record { type = t; props_begin = b; props_end = e; children = first n ms })
      (sym (append_all_none ns))
after-children (next i is) it t b e n ns =
    after-children is (it + length (encode i)) t b e n (append_child ns (layout it i))
    ∙ ap (λ ms. record { type = t; props_begin = b; props_end = e; children = first n ms })
        (append_child_all ns (layout_all (it + length (encode i)) is) (layout it i))

-- A new node, once its children are read and it ends.
sealed :
    (is : Items) (t b it end : ℕ)
    → end ≡ it + length (encode_all is)
    → to_node (end_props end (after it (new_node t b) is)) ≡ node t b it (layout_all it is)
unfolding layout_all encode_all
sealed no_items t b it end h = ap (λ k. node t b k childless) (omega (arith, h))
sealed (next i is) t b it end h =
    ap (λ f. to_node (end_props end f))
      (after-children is (it + length (encode i)) t b it (layout it i) childless)

list_then :
    (xs ys : List ℕ) (c : ℕ) (rest : List ℕ)
    → (xs ++ (ys ++ 255 ∷ [])) ++ c ∷ rest ≡ xs ++ (ys ++ 255 ∷ c ∷ rest)
list_then xs ys c rest =
    append_assoc xs (ys ++ 255 ∷ []) (c ∷ rest)
    ∙ ap (λ zs. xs ++ zs) (append_assoc ys (255 ∷ []) (c ∷ rest))

end_props_children : (it : ℕ) (f : Frame) → (end_props it f).children ≡ f.children
end_props_children it f = ground arith

item_end :
    (it : ℕ) (props : List ℕ) (items : Items)
    → it + 2 + length (escape_bytes props) + length (encode_all items) + 1
      ≡ it + suc (suc (length (escape_bytes props ++ (encode_all items ++ 255 ∷ []))))
item_end it props items = omega (
  arith,
  length-append (escape_bytes props) (encode_all items ++ 255 ∷ []),
  length-append (encode_all items) (255 ∷ []),
)

mutual
  unfolding encode layout

  parse-item :
      (i : Item) (f : Frame) (fs : List Frame) (it c : ℕ) (rest : List ℕ)
      → parse_from it (encode i ++ c ∷ rest) (inside f fs)
        ≡ parse_from (it + length (encode i)) (c ∷ rest) (
            inside
              (record (end_props it f) { children = append_child f.children (layout it i) })
              fs)
  parse-item (item type props items) f fs it c rest =
      let g = end_props it f in
      let new = new_node type (it + 2) in
      let end = it + 2 + length (escape_bytes props) in
      let stop = end + length (encode_all items) in
      ap (λ bytes. parse_from it (254 ∷ type ∷ bytes) (inside f fs))
        (list_then (escape_bytes props) (encode_all items) c rest)
      ∙ parse-start f fs it type (escape_bytes props ++ (encode_all items ++ 255 ∷ c ∷ rest))
      ∙ parse-props-items props (encode_all items) (it + 2) 255 (c ∷ rest) (inside new (g ∷ fs))
      ∙ parse-items items new (g ∷ fs) end 255 (c ∷ rest)
      ∙ parse-finish (after end new items) g fs stop c rest
      ∙ ap₂
          (λ k n.
            parse_from k (c ∷ rest) (inside (record g { children = append_child g.children n }) fs))
          (item_end it props items) (sealed items type (it + 2) end stop refl)
      ∙ ap
          (λ ns. parse_from (it + length (encode (item type props items))) (c ∷ rest) (
            inside (record g { children = append_child ns (layout it (item type props items)) })
              fs))
          (end_props_children it f)

  parse-items :
      (is : Items) (f : Frame) (fs : List Frame) (it c : ℕ) (rest : List ℕ)
      → parse_from it (encode_all is ++ c ∷ rest) (inside f fs)
        ≡ parse_from (it + length (encode_all is)) (c ∷ rest) (inside (after it f is) fs)
  parse-items no_items f fs it c rest =
      ap (λ k. parse_from k (c ∷ rest) (inside f fs)) (omega arith)
  parse-items (next i is) f fs it c rest =
      let (d, ds, e) = starts (encode_all is) c rest in
      let f' = record (end_props it f) { children = append_child f.children (layout it i) } in
      ap (λ bytes. parse_from it bytes (inside f fs))
        (append_assoc (encode i) (encode_all is) (c ∷ rest) ∙ ap (λ bytes. encode i ++ bytes) e)
      ∙ parse-item i f fs it d ds
      ∙ ap (λ bytes. parse_from (it + length (encode i)) bytes (inside f' fs)) (sym e)
      ∙ parse-items is f' fs (it + length (encode i)) c rest
      ∙ ap (λ k. parse_from k (c ∷ rest) (inside (after (it + length (encode i)) f' is) fs))
          (omega (arith, length-append (encode i) (encode_all is)))

parse-end :
    (f : Frame) (it : ℕ) → parse_from it (255 ∷ []) (inside f []) ≡ some (to_node (end_props it f))
unfolding parse_from node_char close_node
parse-end f it = refl

parse-root : (i : Item) → parse_root (encode i) ≡ some (layout 4 i)
unfolding encode layout
parse-root (item type props items) =
    let new = new_node type 6 in
    let end = 6 + length (escape_bytes props) in
    parse-props-items props (encode_all items) 6 255 [] (inside new [])
    ∙ parse-items items new [] end 255 []
    ∙ parse-end (after end new items) (end + length (encode_all items))
    ∙ ap some (sealed items type 6 end (end + length (encode_all items)) refl)

-- Behind any four bytes, the parser reads an encoded item to the nodes of that item, with their
-- properties where they stand.
pub parse_tree-encode :
    (id : List ℕ) (i : Item) → length id ≡ 4 → parse_tree (id ++ encode i) ≡ some (layout 4 i)
unfolding parse_tree
parse_tree-encode id i h =
    ap parse_root (subst (λ n. drop n (id ++ encode i) ≡ encode i) h (drop-append id (encode i)))
    ∙ parse-root i
