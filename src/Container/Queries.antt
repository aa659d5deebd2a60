-- ===== src/Container/Queries.antt =====
-- What a container of src/container.cpp is asked before a thing is moved. Whether two items are equal, and
-- what the carrier or the tile at the top answers, are arguments.
use baiakthunder.Base.{
  ℕ, ◌+◌, ◌-◌, ◌*◌, ◌%◌, ◌^◌, Bool, true, false, not, ltb, leb, ◌==◌, ◌&&◌, ◌||◌, Option, some,
  none, List, [], ◌∷◌, if◌then◌else◌, max,
}
use baiakthunder.Container.{Info, Items, nothing, first, info, get_item_by_index, get_thing_index}

pub data Answer : Type 0 where
  no_error not_possible cannot_pickup this_is_impossible container_not_enough_room not_moveable :
      Answer

pub record Flags : Type 0 where
  pub no_limit : Bool
  pub child_is_owner : Bool
  pub ignore_not_moveable : Bool

-- The container that is asked: its parents by identifiers, and what a top other than itself answers.
pub record Asked : Type 0 where
  pub uid : ℕ
  pub unlocked : Bool
  pub parents : List ℕ
  pub top : Option (ℕ → Answer)
  pub capacity : ℕ
  pub items : Items

unfoldable pub size : Items → ℕ
size nothing = 0
size (first x xs) = 1 + size xs

unfoldable pub is_among : ℕ → List ℕ → Bool
is_among u [] = false
is_among u (v ∷ vs) = u == v || is_among u vs

unfoldable pub is_no_error : Answer → Bool
is_no_error no_error = true
is_no_error not_possible = false
is_no_error cannot_pickup = false
is_no_error this_is_impossible = false
is_no_error container_not_enough_room = false
is_no_error not_moveable = false

-- Container::queryAdd; no index is INDEX_WHEREEVER. The capacity less one is taken in 32 bits.
unfoldable pub query_add : Asked → Flags → Option ℕ → Info → ℕ → Answer
query_add c flags index i count =
    let anywhere : Bool = elim index [ none ↦ true | some k ↦ false ] in
    let full = leb ((c.capacity + (2 ^ 32 - 1)) % 2 ^ 32) (size c.items) in
    let above : Answer = elim c.top [ none ↦ no_error | some answer ↦ answer count ] in
    if flags.child_is_owner
    then no_error
    else if not c.unlocked
    then not_possible
    else if not i.pickupable
    then cannot_pickup
    else if i.uid == c.uid
    then this_is_impossible
    else if is_among i.uid c.parents
    then this_is_impossible
    else if not flags.no_limit && (anywhere && full)
    then container_not_enough_room
    else above

-- How much more of an item would fit on the equal ones. Of the index only that there is one counts.
unfoldable pub free_on_stacks : (Info → Info → Bool) → Asked → Flags → Info → ℕ → Items → ℕ
free_on_stacks equals c flags i count nothing = 0
free_on_stacks equals c flags i count (first x xs) =
    let j = info x in
    let rest = free_on_stacks equals c flags i count xs in
    if not (j.uid == i.uid)
      && (equals j i && ltb j.count 100)
      && is_no_error (query_add c flags (some 0) i count)
    then 100 - j.count + rest
    else rest

-- How much more of an item would fit on the one at an index
unfoldable pub free_on_stack : (Info → Info → Bool) → Asked → Flags → Info → ℕ → ℕ → ℕ
free_on_stack equals c flags i count k = elim (get_item_by_index k c.items) [
  | none ↦ 0
  | some x ↦
      let j = info x in
      if equals i j && ltb j.count 100 && is_no_error (query_add c flags (some k) i count)
      then 100 - j.count
      else 0
]

-- Container::queryMaxCount, with maxQueryCount
unfoldable pub query_max_count :
    (Info → Info → Bool) → Asked → Flags → Option ℕ → Info → ℕ → Answer × ℕ
query_max_count equals c flags index i count =
    let free_slots = c.capacity - size c.items in
    let n : ℕ = elim index [
      | none ↦ free_on_stacks equals c flags i count c.items
      | some k ↦ free_on_stack equals c flags i count k
    ] in
    let max_query_count = (free_slots * 100 + n) % 2 ^ 32 in
    if flags.no_limit
    then (no_error, max 1 count)
    else if i.stackable
    then (if ltb max_query_count count
        then (container_not_enough_room, max_query_count)
        else (no_error, max_query_count))
    else if free_slots == 0
    then (container_not_enough_room, free_slots)
    else (no_error, free_slots)

-- Container::queryRemove
unfoldable pub query_remove : Asked → Flags → Info → ℕ → Answer
query_remove c flags i count = elim (get_thing_index i.uid c.items) [
  | none ↦ not_possible
  | some k ↦
      if count == 0 || (i.stackable && ltb i.count count)
      then not_possible
      else if not i.moveable && not flags.ignore_not_moveable
      then not_moveable
      else no_error
]
