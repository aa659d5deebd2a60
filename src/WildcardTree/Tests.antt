-- ===== src/WildcardTree/Tests.antt =====
-- Three names in a tree: "ab", "abc" and "ad", with a as 1, b as 2, c as 3 and d as 4.
use baiakthunder.Base.{◌≡◌, refl, true, false, [], ◌∷◌, not, ◌&&◌, ◌||◌, arith}
use baiakthunder.WildcardTree.{
  Node, node, leaf, child, insert, remove, find_one, no_error, name_is_too_ambiguous,
}
use baiakthunder.WildcardTree.Words.{has, same_name, IsTidy, has-insert}
use baiakthunder.WildcardTree.Removal.{has-remove}
use baiakthunder.WildcardTree.Search.{Answers, find_one-Answers}

abbrev nobody : Node
nobody = node false leaf

-- "ab" and "ad"
abbrev two_names : Node
two_names =
    node false
      (child 1 (node false (child 2 (node true leaf) (child 4 (node true leaf) leaf))) leaf)

inserted_in_order : insert (1 ∷ 2 ∷ []) (insert (1 ∷ 4 ∷ []) nobody) ≡ two_names
unfolding insert
inserted_in_order = refl

taken_out_again : remove (1 ∷ 2 ∷ []) (remove (1 ∷ 4 ∷ []) two_names) ≡ nobody
unfolding remove
taken_out_again = refl

longer_name_survives :
    find_one (remove (1 ∷ 2 ∷ []) (insert (1 ∷ 2 ∷ 3 ∷ []) two_names)) (1 ∷ 2 ∷ [])
    ≡ (no_error, 1 ∷ 2 ∷ 3 ∷ [])
unfolding find_one insert remove
longer_name_survives = refl

-- A name that another one extends cannot be found by its own letters.
hidden_by_longer :
    find_one (insert (1 ∷ 2 ∷ 3 ∷ []) two_names) (1 ∷ 2 ∷ []) ≡ (name_is_too_ambiguous, 1 ∷ 2 ∷ [])
unfolding find_one insert
hidden_by_longer = refl

two_names-IsTidy : IsTidy two_names
two_names-IsTidy = (refl, (refl, tt, omega arith, (refl, tt, tt, tt)), tt, tt)

has-insert_example :
    IsTidy (insert (1 ∷ 2 ∷ 3 ∷ []) two_names)
    × (has (1 ∷ 2 ∷ 3 ∷ []) (insert (1 ∷ 2 ∷ 3 ∷ []) two_names)
        ≡ (same_name (1 ∷ 2 ∷ 3 ∷ []) (1 ∷ 2 ∷ 3 ∷ []) || has (1 ∷ 2 ∷ 3 ∷ []) two_names))
has-insert_example =
    has-insert (1 ∷ 2 ∷ 3 ∷ []) (1 ∷ 2 ∷ 3 ∷ []) two_names (λ e. cc) two_names-IsTidy

has-remove_example :
    IsTidy (remove (1 ∷ 2 ∷ []) two_names)
    × (has (1 ∷ 4 ∷ []) (remove (1 ∷ 2 ∷ []) two_names)
        ≡ (not (same_name (1 ∷ 2 ∷ []) (1 ∷ 4 ∷ [])) && has (1 ∷ 4 ∷ []) two_names))
has-remove_example = has-remove (1 ∷ 2 ∷ []) (1 ∷ 4 ∷ []) two_names two_names-IsTidy

find_one-Answers_example :
    Answers
      (1 ∷ 2 ∷ [])
      two_names
      (find_one two_names (1 ∷ 2 ∷ [])).0
      (find_one two_names (1 ∷ 2 ∷ [])).1
find_one-Answers_example = find_one-Answers two_names (1 ∷ 2 ∷ []) two_names-IsTidy (λ e. cc)
