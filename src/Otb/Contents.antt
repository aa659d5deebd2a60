-- ===== src/Otb/Contents.antt =====
-- The properties that Loader::getProps finds in a parsed file.
use baiakthunder.Base.{
  append_assoc, append_none, ℕ, ◌+◌, ◌-◌, ◌≡◌, refl, sym, ap, ap₂, ◌∙◌, false, Option, none, some,
  List, [], ◌∷◌, ◌++◌, arith, ◌==◌, length, take, drop, Bool-cases, inl, inr, length-append,
  drop-append, take-append,
}
use baiakthunder.Otb.{Node, Nodes, node, childless, first, parse_tree, unescape, get_props}
use baiakthunder.Otb.Parsing.{
  Item, Items, item, no_items, next, escape_bytes, encode, encode_all, layout, layout_all,
  parse_tree-encode,
}

abbrev pub or_none : Option (List ℕ) → List ℕ
or_none none = []
or_none (some bytes) = bytes

-- A parsed tree with the properties of its nodes in place of their indices.
unfoldable mutual
  pub contents : List ℕ → Node → Item
  contents file (node type begin end ns) =
      item type (or_none (get_props file (node type begin end ns))) (contents_all file ns)

  pub contents_all : List ℕ → Nodes → Items
  contents_all file childless = no_items
  contents_all file (first n ns) = next (contents file n) (contents_all file ns)

unescape-escape_bytes : (props : List ℕ) → unescape false (escape_bytes props) ≡ props
unfolding unescape escape_bytes
unescape-escape_bytes [] = refl
unescape-escape_bytes (b ∷ props) = ground (arith, unescape-escape_bytes props)

slice : (xs ys zs : List ℕ) → take (length ys) (drop (length xs) (xs ++ (ys ++ zs))) ≡ ys
slice xs ys zs = ap (take (length ys)) (drop-append xs (ys ++ zs)) ∙ take-append ys zs

escape_bytes_none : (props : List ℕ) → length (escape_bytes props) ≡ 0 → props ≡ []
unfolding escape_bytes
escape_bytes_none [] h = refl
escape_bytes_none (b ∷ props) h = ground arith

props_here :
    (file pre props post : List ℕ) (type begin end : ℕ) (ns : Nodes)
    → file ≡ pre ++ (escape_bytes props ++ post)
    → begin ≡ length pre
    → end ≡ begin + length (escape_bytes props)
    → or_none (get_props file (node type begin end ns)) ≡ props
unfolding get_props
props_here file pre props post type begin end ns f b e = elim (Bool-cases ((end - begin) == 0)) [
  | inl z ↦ rw z (sym (escape_bytes_none props (ground (arith, e))))
  | inr z ↦ rw z (ap (unescape false) cut ∙ unescape-escape_bytes props)
]
  where
    cut : take (end - begin) (drop begin file) ≡ escape_bytes props
    cut =
        let n : end - begin ≡ length (escape_bytes props) = omega (arith, e) in
        ap₂ take n (ap₂ drop b f) ∙ slice pre (escape_bytes props) post

mutual
  unfolding contents encode layout

  contents-layout :
      (i : Item) (file pre post : List ℕ) (it : ℕ)
      → file ≡ pre ++ (encode i ++ post)
      → it ≡ length pre
      → contents file (layout it i) ≡ i
  contents-layout (item type props items) file pre post it f h =
      let head = pre ++ 254 ∷ type ∷ [] in
      let end = it + 2 + length (escape_bytes props) in
      let tail = encode_all items ++ 255 ∷ post in
      let e : file ≡ head ++ (escape_bytes props ++ tail) =
        f
        ∙ ap (λ ys. pre ++ 254 ∷ type ∷ ys)
            (append_assoc (escape_bytes props) (encode_all items ++ 255 ∷ []) post
              ∙ ap (λ ys. escape_bytes props ++ ys)
                  (append_assoc (encode_all items) (255 ∷ []) post))
        ∙ sym (append_assoc pre (254 ∷ type ∷ []) (escape_bytes props ++ tail)) in
      let l : it + 2 ≡ length head = omega (arith, length-append pre (254 ∷ type ∷ []), h) in
      ap₂ (item type)
        (props_here file head props tail type (it + 2) end (layout_all end items) e l refl)
        (contents_all-layout_all items file (head ++ escape_bytes props) (255 ∷ post) end
          (e ∙ sym (append_assoc head (escape_bytes props) tail))
          (omega (arith, length-append head (escape_bytes props), l)))

  contents_all-layout_all :
      (is : Items) (file pre post : List ℕ) (it : ℕ)
      → file ≡ pre ++ (encode_all is ++ post)
      → it ≡ length pre
      → contents_all file (layout_all it is) ≡ is
  contents_all-layout_all no_items file pre post it f h = refl
  contents_all-layout_all (next i is) file pre post it f h =
      let e : file ≡ pre ++ (encode i ++ (encode_all is ++ post)) =
        f ∙ ap (λ ys. pre ++ ys) (append_assoc (encode i) (encode_all is) post) in
      ap₂ next (contents-layout i file pre (encode_all is ++ post) it e h) (
        contents_all-layout_all is file (pre ++ encode i) post (it + length (encode i))
          (e ∙ sym (append_assoc pre (encode i) (encode_all is ++ post)))
          (omega (arith, length-append pre (encode i), h)))

-- A file of four bytes and an encoded item is parsed, and the tree that comes back has the item's
-- types, nesting and properties, whatever bytes are in them.
pub parse_tree-contents :
    (id : List ℕ) (i : Item)
    → length id ≡ 4
    → (n : Node) × (parse_tree (id ++ encode i) ≡ some n) × (contents (id ++ encode i) n ≡ i)
parse_tree-contents id i h = (
  layout 4 i,
  parse_tree-encode id i h,
  contents-layout i (id ++ encode i) id [] 4 (ap (λ ys. id ++ ys) (sym (append_none (encode i))))
      (sym h),
)
