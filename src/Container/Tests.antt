-- ===== src/Container/Tests.antt =====
-- A backpack with coins and a bag of one key in it.
use baiakthunder.Base.{
  ℕ, ◌+◌, ◌%◌, ◌^◌, ◌≡◌, refl, true, false, List, [], ◌∷◌, none, arith, ◌<◌, ◌≤◌, some, ◌<◌,
}
use baiakthunder.Container.{
  Info, Item, plain, container, Items, nothing, first, get_weight, item_weight, look_up,
  get_item_by_index, add_thing, update_item_weight, edit, at, get_thing_index, remove_thing,
  replace_thing, info, with_info, diff,
}
use baiakthunder.Container.Weights.{IsWeighed, AllWeighed, weights}
use baiakthunder.Container.Actions.{
  Action, adding, removing, replacing, run_actions, act, act_in, true_weight,
  run_actions-get_weight,
}
use baiakthunder.Container.Queries.{
  Asked, Flags, no_error, container_not_enough_room, size, is_among, query_add, query_max_count,
}
use baiakthunder.Container.Room.{query_add_room}
use baiakthunder.Container.Walk.{
  held, holds, get_item_holding_count, is_holding_item, get_item_holding_count_lem,
}

abbrev thing : ℕ → ℕ → Info
thing u weight = record {
  uid = u;
  stackable = false;
  pickupable = true;
  moveable = true;
  count = 1;
  base_weight = weight;
}

abbrev coins : Info
coins = record {
  uid = 2;
  stackable = true;
  pickupable = true;
  moveable = true;
  count = 50;
  base_weight = 10;
}

abbrev bag : Item
bag = container (thing 3 800) 8 100 (first (plain (thing 4 100)) nothing)

abbrev backpack : Item
backpack = container (thing 1 1800) 20 1400 (first (plain coins) (first bag nothing))

backpack-IsWeighed : IsWeighed backpack
unfolding IsWeighed AllWeighed weights get_weight item_weight
backpack-IsWeighed = (refl, (tt, ((refl, (tt, tt)), tt)))

-- A sword goes into the bag, twenty coins are taken, and the key is exchanged for another bag.
abbrev history : List (List ℕ × Action)
history =
    (1 ∷ [], adding 0 (plain (thing 5 3500)))
    ∷ ([], removing 2 20)
    ∷ (1 ∷ [], replacing 1 (container (thing 6 800) 8 0 nothing))
    ∷ []

weight_after : get_weight (run_actions history backpack) ≡ 1800 + 300 + 800 + 3500 + 800
unfolding run_actions act act_in look_up get_item_by_index add_thing update_item_weight edit at
    get_thing_index remove_thing replace_thing info with_info diff get_weight item_weight
weight_after = refl

run_actions-get_weight_example :
    get_weight (run_actions history backpack) ≡ true_weight (run_actions history backpack) % 2 ^ 32
unfolding IsWeighed AllWeighed weights
run_actions-get_weight_example =
    run_actions-get_weight history backpack (tt, (tt, ((refl, tt), tt))) backpack-IsWeighed

abbrev inside : Items
inside = first (plain coins) (first bag nothing)

get_item_holding_count_lem_example :
    (get_item_holding_count 4 inside ≡ some (held inside % 2 ^ 32))
    × ((u : ℕ) → is_holding_item 4 u inside ≡ some (holds u inside))
unfolding held
get_item_holding_count_lem_example = get_item_holding_count_lem 4 inside (omega arith)

abbrev seven : Items
seven = first (plain coins) (
    first (plain coins) (
      first (plain coins) (
        first (plain coins)
          (first (plain coins) (first (plain coins) (first (plain coins) nothing))))))

-- A bag of eight places, of which seven are taken.
abbrev nearly_full : Asked
nearly_full = record {
  uid = 9;
  unlocked = true;
  parents = 1 ∷ [];
  top = none;
  capacity = 8;
  items = seven;
}

query_add_room_example :
    let flags : Flags = record {
      no_limit = false;
      child_is_owner = false;
      ignore_not_moveable = false;
    } in
    (size seven + 1 < 8 → query_add nearly_full flags none (thing 5 3500) 1 ≡ no_error)
    × (8 ≤ size seven + 1
        → query_add nearly_full flags none (thing 5 3500) 1 ≡ container_not_enough_room)
    × (size seven + 1 ≡ 8
        → false ≡ false
        → query_max_count (λ i j. false) nearly_full flags none (thing 5 3500) 1 ≡ (no_error, 1))
unfolding is_among
query_add_room_example =
    query_add_room (λ i j. false) nearly_full (thing 5 3500) 1
      (record { unlocked = refl; pickupable = refl; other = refl; not_above = refl; top = refl })
      (omega arith) (omega arith)
