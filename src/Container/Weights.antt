-- ===== src/Container/Weights.antt =====
-- The weights along a path of containers (src/container.cpp).
use baiakthunder.Base.{
  ℕ, zero, suc, ◌+◌, ◌%◌, ◌^◌, ◌<◌, ◌≡◌, refl, sym, ap, ◌∙◌, subst, arith, Option, some, none,
  Option-cases, inl, inr, List, [], ◌∷◌,
}
use baiakthunder.Container.{
  Info, Item, plain, container, Items, nothing, first, item_weight, get_weight, get_item_by_index,
  push_back, at, erase_at, look_up, edit, update_item_weight, diff,
}

-- The weights of items together, in 32 bits.
unfoldable pub weights : Items → ℕ
weights nothing = 0
weights (first x xs) = (get_weight x + weights xs) % 2 ^ 32

-- Every container has the weight of its contents.
unfoldable mutual
  pub IsWeighed : Item → Type 0
  IsWeighed (plain i) = Unit
  IsWeighed (container i m w xs) = (w ≡ weights xs) × AllWeighed xs

  pub AllWeighed : Items → Type 0
  AllWeighed nothing = Unit
  AllWeighed (first x xs) = IsWeighed x × AllWeighed xs

pub weights_bound : (xs : Items) → weights xs < 2 ^ 32
unfolding weights
weights_bound nothing = omega arith
weights_bound (first x xs) = omega arith

pub get_weight_bound : (x : Item) → get_weight x < 2 ^ 32
unfolding get_weight item_weight
get_weight_bound (plain i) = ground arith
get_weight_bound (container i m w xs) = omega arith

-- One item changed in place.
pub at-weights :
    (k d : ℕ) (f : Item → Item) (xs : Items) (y : Item)
    → get_item_by_index k xs ≡ some y
    → AllWeighed xs
    → IsWeighed (f y)
    → get_weight (f y) ≡ (get_weight y + d) % 2 ^ 32
    → (weights (at k f xs) ≡ (weights xs + d) % 2 ^ 32) × AllWeighed (at k f xs)
unfolding at weights get_item_by_index AllWeighed
at-weights zero d f nothing y e a b w = absurd cc
at-weights (suc k) d f nothing y e a b w = absurd cc
at-weights zero d f (first x xs) y e a b w =
    let same : x ≡ y = cc in
    let heavier : get_weight (f x) ≡ (get_weight x + d) % 2 ^ 32 =
      subst (λ z. get_weight (f z) ≡ (get_weight z + d) % 2 ^ 32) (sym same) w in
    (omega (arith, heavier), (subst (λ z. IsWeighed (f z)) (sym same) b, a.1))
at-weights (suc k) d f (first x xs) y e a b w =
    let (sum, all) = at-weights k d f xs y e a.1 b w in (omega (arith, sum), (a.0, all))

-- One item taken out.
pub erase_at-weights :
    (k : ℕ) (xs : Items) (y : Item)
    → get_item_by_index k xs ≡ some y
    → AllWeighed xs
    → (weights (erase_at k xs) ≡ (weights xs + diff 0 (get_weight y)) % 2 ^ 32)
      × AllWeighed (erase_at k xs)
unfolding erase_at weights get_item_by_index AllWeighed diff
erase_at-weights zero nothing y e a = absurd cc
erase_at-weights (suc k) nothing y e a = absurd cc
erase_at-weights zero (first x xs) y e a =
    let same : x ≡ y = cc in
    let w : get_weight x ≡ get_weight y = ap get_weight same in
    (omega (arith, w, weights_bound xs, get_weight_bound y), a.1)
erase_at-weights (suc k) (first x xs) y e a =
    let (sum, all) = erase_at-weights k xs y e a.1 in (omega (arith, sum), (a.0, all))

pub push_back-weights :
    (y : Item) (xs : Items)
    → IsWeighed y
    → AllWeighed xs
    → (weights (push_back y xs) ≡ (weights xs + get_weight y) % 2 ^ 32)
      × AllWeighed (push_back y xs)
unfolding push_back weights AllWeighed
push_back-weights y nothing b a = (omega arith, (b, tt))
push_back-weights y (first x xs) b a =
    let (sum, all) = push_back-weights y xs b a.1 in (omega (arith, sum), (a.0, all))

pub index-IsWeighed :
    (k : ℕ) (xs : Items) (y : Item) → get_item_by_index k xs ≡ some y → AllWeighed xs → IsWeighed y
unfolding get_item_by_index AllWeighed
index-IsWeighed zero nothing y e a = absurd cc
index-IsWeighed (suc k) nothing y e a = absurd cc
index-IsWeighed zero (first x xs) y e a = let same : x ≡ y = cc in subst IsWeighed same a.0
index-IsWeighed (suc k) (first x xs) y e a = index-IsWeighed k xs y e a.1

at-at : (k : ℕ) (g h : Item → Item) (xs : Items) → at k g (at k h xs) ≡ at k (λ x. g (h x)) xs
unfolding at
at-at zero g h nothing = refl
at-at (suc k) g h nothing = refl
at-at zero g h (first x xs) = refl
at-at (suc k) g h (first x xs) = ap (first x) (at-at k g h xs)

-- What changes the contents of one container by some weight, and then the weights of that container and
-- of all above it by as much, keeps every weight right.
pub update_item_weight-edit :
    (p : List ℕ) (d : ℕ) (f : Items → Items) (t : Item) (i : Info) (m w : ℕ) (xs : Items)
    → look_up p t ≡ some (container i m w xs)
    → IsWeighed t
    → (weights (f xs) ≡ (weights xs + d) % 2 ^ 32) × AllWeighed (f xs)
    → let t' = update_item_weight p d (edit p f t) in
      IsWeighed t' × (get_weight t' ≡ (get_weight t + d) % 2 ^ 32)
unfolding update_item_weight edit look_up get_weight IsWeighed
update_item_weight-edit [] d f (plain j) i m w xs e a h = absurd cc
update_item_weight-edit (k ∷ p) d f (plain j) i m w xs e a h = absurd cc
update_item_weight-edit [] d f (container j n v ys) i m w xs e a h =
    let same : ys ≡ xs = cc in
    let moved =
      subst (λ zs. (weights (f zs) ≡ (weights zs + d) % 2 ^ 32) × AllWeighed (f zs)) (sym same) h in
    ((omega (arith, moved.0, a.0), moved.1), omega arith)
update_item_weight-edit (k ∷ p) d f (container j n v ys) i m w xs e a h =
    let both = at-at k (update_item_weight p d) (edit p f) ys in
    elim (Option-cases (get_item_by_index k ys)) [
      | inl n ↦ absurd (grind (arith, e, n))
      | inr (y, n) ↦
          let there : look_up p y ≡ some (container i m w xs) =
            sym (ap (λ (o : Option Item). elim o [ none ↦ none | some z ↦ look_up p z ]) n) ∙ e in
          let (right, heavier) =
            update_item_weight-edit p d f y i m w xs there (index-IsWeighed k ys y n a.1) h in
          let (sum, all) =
            at-weights k d (λ x. update_item_weight p d (edit p f x)) ys y n a.1 right heavier in
          rw both ((omega (arith, sum, a.0), all), omega arith)
    ]
