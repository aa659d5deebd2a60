-- ===== src/Container.antt =====
-- src/container.cpp: containers within containers, with the weight of all that they hold. A container and
-- the items in it are a tree, and the pointer to a parent is the path from the top, by indices. What
-- setID and setSubType make of an item is an argument. Every thing that is added or removed is an item.
pub mod Weights
pub mod Actions
pub mod Walk
pub mod Queries
pub mod Room
mod Tests
use baiakthunder.Base.{
  ℕ, zero, suc, ◌+◌, ◌-◌, ◌*◌, ◌%◌, ◌^◌, Bool, true, false, not, ltb, leb, ◌==◌, ◌&&◌, Option, some,
  none, List, [], ◌∷◌, if◌then◌else◌, max,
}

-- What an item has apart from what it contains.
pub record Info : Type 0 where
  pub uid : ℕ
  pub stackable : Bool
  pub pickupable : Bool
  pub moveable : Bool
  pub count : ℕ
  pub base_weight : ℕ

-- A container has its greatest size, the weight of its contents, and its contents.
mutual
  pub data Item : Type 0 where
    plain : Info → Item
    container : Info → ℕ → ℕ → Items → Item

  pub data Items : Type 0 where
    nothing : Items
    first : Item → Items → Items

unfoldable pub info : Item → Info
info (plain i) = i
info (container i m w xs) = i

unfoldable pub with_info : Info → Item → Item
with_info i (plain j) = plain i
with_info i (container j m w xs) = container i m w xs

-- Item::getWeight
unfoldable pub item_weight : Info → ℕ
item_weight i =
    if i.stackable then i.base_weight * max 1 i.count % 2 ^ 32 else i.base_weight % 2 ^ 32

-- Container::getWeight, or Item's
unfoldable pub get_weight : Item → ℕ
get_weight (plain i) = item_weight i
get_weight (container i m w xs) = (item_weight i + w) % 2 ^ 32

unfoldable pub get_item_by_index : ℕ → Items → Option Item
get_item_by_index k nothing = none
get_item_by_index zero (first x xs) = some x
get_item_by_index (suc k) (first x xs) = get_item_by_index k xs

-- Container::getThingIndex
unfoldable pub get_thing_index : ℕ → Items → Option ℕ
get_thing_index u nothing = none
get_thing_index u (first x xs) =
    if (info x).uid == u
    then some 0
    else elim (get_thing_index u xs) [ none ↦ none | some k ↦ some (suc k) ]

unfoldable pub push_back : Item → Items → Items
push_back y nothing = first y nothing
push_back y (first x xs) = first x (push_back y xs)

-- The item at an index, changed
unfoldable pub at : ℕ → (Item → Item) → Items → Items
at k f nothing = nothing
at zero f (first x xs) = first (f x) xs
at (suc k) f (first x xs) = first x (at k f xs)

unfoldable pub erase_at : ℕ → Items → Items
erase_at k nothing = nothing
erase_at zero (first x xs) = xs
erase_at (suc k) (first x xs) = first x (erase_at k xs)

-- What stands at a path
unfoldable pub look_up : List ℕ → Item → Option Item
look_up [] t = some t
look_up (k ∷ p) (plain i) = none
look_up (k ∷ p) (container i m w xs) = elim (get_item_by_index k xs) [
  | none ↦ none
  | some y ↦ look_up p y
]

-- The contents of the container at a path, changed
unfoldable pub edit : List ℕ → (Items → Items) → Item → Item
edit p f (plain i) = plain i
edit [] f (container i m w xs) = container i m w (f xs)
edit (k ∷ p) f (container i m w xs) = container i m w (at k (edit p f) xs)

-- Container::updateItemWeight, of the container at a path: all the way up, the difference is added.
unfoldable pub update_item_weight : List ℕ → ℕ → Item → Item
update_item_weight p diff (plain i) = plain i
update_item_weight [] diff (container i m w xs) = container i m ((w + diff) % 2 ^ 32) xs
update_item_weight (k ∷ p) diff (container i m w xs) =
    container i m ((w + diff) % 2 ^ 32) (at k (update_item_weight p diff) xs)

-- The weight that comes for the weight that goes, as 32 bits
unfoldable pub diff : ℕ → ℕ → ℕ
diff new old = (new + (2 ^ 32 - old)) % 2 ^ 32

-- Container::addThing, with the size of the container
unfoldable pub add_thing : List ℕ → ℕ → ℕ → Item → Item → Item
add_thing p capacity index x t =
    if leb capacity index then t else update_item_weight p (get_weight x) (edit p (first x) t)

-- Container::internalAddThing
unfoldable pub internal_add_thing : List ℕ → Item → Item → Item
internal_add_thing p x t = update_item_weight p (get_weight x) (edit p (first x) t)

-- Container::addItemBack
unfoldable pub add_item_back : List ℕ → Item → Item → Item
add_item_back p x t = update_item_weight p (get_weight x) (edit p (push_back x) t)

-- Container::updateThing, of the item `u` among `xs`
unfoldable pub update_thing : List ℕ → (Info → Info) → ℕ → Items → Item → Item
update_thing p change u xs t = elim (get_thing_index u xs) [
  | none ↦ t
  | some k ↦ elim (get_item_by_index k xs) [
    | none ↦ t
    | some y ↦
        let y' = with_info (change (info y)) y in
        update_item_weight p (diff (get_weight y') (get_weight y)) (edit p (at k (λ _. y')) t)
  ]
]

-- Container::replaceThing, among `xs`
unfoldable pub replace_thing : List ℕ → ℕ → Item → Items → Item → Item
replace_thing p k x xs t = elim (get_item_by_index k xs) [
  | none ↦ t
  | some y ↦ update_item_weight p (diff (get_weight x) (get_weight y)) (edit p (at k (λ _. x)) t)
]

-- Container::removeThing, of so many of the item `u` among `xs`; a count is below 2^31.
unfoldable pub remove_thing : List ℕ → ℕ → ℕ → Items → Item → Item
remove_thing p u count xs t = elim (get_thing_index u xs) [
  | none ↦ t
  | some k ↦ elim (get_item_by_index k xs) [
    | none ↦ t
    | some y ↦
        let i = info y in
        let y' = with_info (record i { count = (i.count - count) % 2 ^ 8 }) y in
        if i.stackable && not (count == i.count)
        then update_item_weight p (diff (get_weight y') (get_weight y)) (edit p (at k (λ _. y')) t)
        else update_item_weight p (diff 0 (get_weight y)) (edit p (erase_at k) t)
  ]
]
