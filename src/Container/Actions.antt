-- ===== src/Container/Actions.antt =====
-- Things added to and removed from containers of src/container.cpp, one after the other.
use baiakthunder.Base.{
  ℕ, ◌+◌, ◌-◌, ◌%◌, ◌^◌, ◌≡◌, refl, sym, ap, ◌∙◌, subst, arith, not, leb, ◌==◌, ◌&&◌, Option, some,
  none, Option-cases, Bool-cases, inl, inr, List, [], ◌∷◌, All,
}
use baiakthunder.Container.{
  Info, Item, plain, container, Items, nothing, first, info, with_info, item_weight, get_weight,
  get_item_by_index, get_thing_index, push_back, at, erase_at, look_up, diff, add_thing,
  add_item_back, internal_add_thing, update_thing, replace_thing, remove_thing,
}
use baiakthunder.Container.Weights.{
  weights, IsWeighed, AllWeighed, get_weight_bound, at-weights, erase_at-weights, push_back-weights,
  index-IsWeighed, update_item_weight-edit,
}

pub data Action : Type 0 where
  adding : ℕ → Item → Action
  adding_internally : Item → Action
  adding_back : Item → Action
  updating : (Info → Info) → ℕ → Action
  replacing : ℕ → Item → Action
  removing : ℕ → ℕ → Action

-- An action on the container at a path, with its size and contents
unfoldable pub act_in : List ℕ → ℕ → Items → Item → Action → Item
act_in p m xs t (adding index x) = add_thing p m index x t
act_in p m xs t (adding_internally x) = internal_add_thing p x t
act_in p m xs t (adding_back x) = add_item_back p x t
act_in p m xs t (updating change u) = update_thing p change u xs t
act_in p m xs t (replacing k x) = replace_thing p k x xs t
act_in p m xs t (removing u count) = remove_thing p u count xs t

-- An action where there is a container
unfoldable pub act : List ℕ → Action → Item → Item
act p a t = elim (look_up p t) [
  | none ↦ t
  | some (plain i) ↦ t
  | some (container i m w xs) ↦ act_in p m xs t a
]

unfoldable pub run_actions : List (List ℕ × Action) → Item → Item
run_actions [] t = t
run_actions (s ∷ ss) t = run_actions ss (act s.0 s.1 t)

-- What an action brings in has the right weights itself.
abbrev pub BringsWeighed : Action → Type 0
BringsWeighed (adding index x) = IsWeighed x
BringsWeighed (adding_internally x) = IsWeighed x
BringsWeighed (adding_back x) = IsWeighed x
BringsWeighed (updating change u) = Unit
BringsWeighed (replacing k x) = IsWeighed x
BringsWeighed (removing u count) = Unit

with_info-IsWeighed : (i : Info) (x : Item) → IsWeighed x → IsWeighed (with_info i x)
unfolding with_info IsWeighed
with_info-IsWeighed i (plain j) w = w
with_info-IsWeighed i (container j m v xs) w = w

-- The weights with another item in a place
swapped :
    (k : ℕ) (x y : Item) (xs : Items)
    → get_item_by_index k xs ≡ some y
    → AllWeighed xs
    → IsWeighed x
    → (weights (at k (λ _. x) xs) ≡ (weights xs + diff (get_weight x) (get_weight y)) % 2 ^ 32)
      × AllWeighed (at k (λ _. x) xs)
unfolding diff
swapped k x y xs e a b =
    at-weights k (diff (get_weight x) (get_weight y)) (λ _. x) xs y e a b
      (omega (arith, get_weight_bound x, get_weight_bound y))

look_up-AllWeighed :
    (p : List ℕ) (t : Item) (i : Info) (m w : ℕ) (xs : Items)
    → look_up p t ≡ some (container i m w xs)
    → IsWeighed t
    → AllWeighed xs
unfolding look_up IsWeighed
look_up-AllWeighed [] (plain j) i m w xs e a = absurd cc
look_up-AllWeighed (k ∷ p) (plain j) i m w xs e a = absurd cc
look_up-AllWeighed [] (container j n v ys) i m w xs e a =
    let same : ys ≡ xs = cc in subst AllWeighed same a.1
look_up-AllWeighed (k ∷ p) (container j n v ys) i m w xs e a =
    elim (Option-cases (get_item_by_index k ys)) [
      | inl n ↦ absurd (grind (arith, e, n))
      | inr (y, n) ↦
          let there : look_up p y ≡ some (container i m w xs) =
            sym (ap (λ (o : Option Item). elim o [ none ↦ none | some z ↦ look_up p z ]) n) ∙ e in
          look_up-AllWeighed p y i m w xs there (index-IsWeighed k ys y n a.1)
    ]

module _ (p : List ℕ) (t : Item) (i : Info) (m w : ℕ) (xs : Items)
    (e : look_up p t ≡ some (container i m w xs)) (a : IsWeighed t) (all : AllWeighed xs) where
  update_thing-IsWeighed : (change : Info → Info) (u : ℕ) → IsWeighed (update_thing p change u xs t)
  unfolding update_thing
  update_thing-IsWeighed change u = elim (Option-cases (get_thing_index u xs)) [
    | inl n ↦ rw (update_thing, n) a
    | inr (k, n) ↦
        rw (update_thing, n)
          (elim (Option-cases (get_item_by_index k xs)) [
            | inl h ↦ rw h a
            | inr (y, h) ↦
                let y' = with_info (change (info y)) y in
                rw h (
                  (update_item_weight-edit p _ (at k (λ _. y')) t i m w xs e a (
                    swapped k y' y xs h all
                      (with_info-IsWeighed _ y (index-IsWeighed k xs y h all)))).0)
          ])
  ]

  replace_thing-IsWeighed : (k : ℕ) (x : Item) → IsWeighed x → IsWeighed (replace_thing p k x xs t)
  unfolding replace_thing
  replace_thing-IsWeighed k x b = elim (Option-cases (get_item_by_index k xs)) [
    | inl h ↦ rw (replace_thing, h) a
    | inr (y, h) ↦
        rw (replace_thing, h)
          ((update_item_weight-edit p _ (at k (λ _. x)) t i m w xs e a
            (swapped k x y xs h all b)).0)
  ]

  remove_thing-IsWeighed : (u count : ℕ) → IsWeighed (remove_thing p u count xs t)
  unfolding remove_thing
  remove_thing-IsWeighed u count = elim (Option-cases (get_thing_index u xs)) [
    | inl n ↦ rw (remove_thing, n) a
    | inr (k, n) ↦
        rw (remove_thing, n)
          (elim (Option-cases (get_item_by_index k xs)) [
            | inl h ↦ rw h a
            | inr (y, h) ↦
                rw h (elim (Bool-cases ((info y).stackable && not (count == (info y).count))) [
                  | inl c ↦
                      let j : Info = record (info y) { count = ((info y).count - count) % 2 ^ 8 } in
                      rw c (
                        (update_item_weight-edit p _ (at k (λ _. with_info j y)) t i m w xs e a (
                          swapped k (with_info j y) y xs h all
                            (with_info-IsWeighed j y (index-IsWeighed k xs y h all)))).0)
                  | inr c ↦ rw c (
                      (update_item_weight-edit p _ (erase_at k) t i m w xs e a
                        (erase_at-weights k xs y h all)).0)
                ])
          ])
  ]

  internal_add_thing-IsWeighed : (x : Item) → IsWeighed x → IsWeighed (internal_add_thing p x t)
  unfolding internal_add_thing weights AllWeighed
  internal_add_thing-IsWeighed x b =
      (update_item_weight-edit p (get_weight x) (first x) t i m w xs e a (omega arith, (b, all))).0

  add_thing-IsWeighed : (index : ℕ) (x : Item) → IsWeighed x → IsWeighed (add_thing p m index x t)
  unfolding add_thing internal_add_thing
  add_thing-IsWeighed index x b = elim (Bool-cases (leb m index)) [
    | inl c ↦ rw c a
    | inr c ↦ rw c (internal_add_thing-IsWeighed x b)
  ]

  act_in-IsWeighed : (c : Action) → BringsWeighed c → IsWeighed (act_in p m xs t c)
  unfolding act_in add_item_back
  act_in-IsWeighed (adding index x) b = add_thing-IsWeighed index x b
  act_in-IsWeighed (adding_internally x) b = internal_add_thing-IsWeighed x b
  act_in-IsWeighed (adding_back x) b =
      (update_item_weight-edit p (get_weight x) (push_back x) t i m w xs e a
        (push_back-weights x xs b all)).0
  act_in-IsWeighed (updating change u) b = update_thing-IsWeighed change u
  act_in-IsWeighed (replacing k x) b = replace_thing-IsWeighed k x b
  act_in-IsWeighed (removing u count) b = remove_thing-IsWeighed u count

act-IsWeighed :
    (p : List ℕ) (c : Action) (t : Item) → BringsWeighed c → IsWeighed t → IsWeighed (act p c t)
unfolding act
act-IsWeighed p c t b a = elim (Option-cases (look_up p t)) [
  | inl n ↦ rw (act, n) a
  | inr (plain i, n) ↦ rw (act, n) a
  | inr (container i m w xs, n) ↦
      rw (act, n) (act_in-IsWeighed p t i m w xs n a (look_up-AllWeighed p t i m w xs n a) c b)
]

run_actions-IsWeighed :
    (ss : List (List ℕ × Action)) (t : Item)
    → All (λ (s : List ℕ × Action). BringsWeighed s.1) ss
    → IsWeighed t
    → IsWeighed (run_actions ss t)
unfolding run_actions
run_actions-IsWeighed [] t b a = a
run_actions-IsWeighed (s ∷ ss) t b a =
    run_actions-IsWeighed ss (act s.0 s.1 t) b.1 (act-IsWeighed s.0 s.1 t b.0 a)

-- The weights of an item and of all that it holds, as a sum
unfoldable mutual
  pub true_weight : Item → ℕ
  true_weight (plain i) = item_weight i
  true_weight (container i m w xs) = item_weight i + true_weights xs

  pub true_weights : Items → ℕ
  true_weights nothing = 0
  true_weights (first x xs) = true_weight x + true_weights xs

mutual
  unfolding get_weight true_weight true_weights IsWeighed AllWeighed weights item_weight

  weighed : (t : Item) → IsWeighed t → get_weight t ≡ true_weight t % 2 ^ 32
  weighed (plain i) a = ground arith
  weighed (container i m w xs) a = omega (arith, all_weighed xs a.1, a.0)

  all_weighed : (xs : Items) → AllWeighed xs → weights xs ≡ true_weights xs % 2 ^ 32
  all_weighed nothing a = refl
  all_weighed (first x xs) a = omega (arith, weighed x a.0, all_weighed xs a.1)

-- Whatever is added, replaced, changed or removed, in whatever containers within a container whose
-- weights are right, if what comes in has the right weights: the weight of the outermost container is
-- then the sum of its own and of those of all things in it, as a 32-bit number.
pub run_actions-get_weight :
    (ss : List (List ℕ × Action)) (t : Item)
    → All (λ (s : List ℕ × Action). BringsWeighed s.1) ss
    → IsWeighed t
    → let t' = run_actions ss t in get_weight t' ≡ true_weight t' % 2 ^ 32
run_actions-get_weight ss t b a = weighed (run_actions ss t) (run_actions-IsWeighed ss t b a)
