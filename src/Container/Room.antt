-- ===== src/Container/Room.antt =====
-- The room in a container of src/container.cpp, as its queries see it.
use baiakthunder.Base.{
  ℕ, ◌+◌, ◌-◌, ◌%◌, ◌^◌, ◌<◌, ◌≤◌, ◌≡◌, refl, Bool, true, false, leb, ◌==◌, none, arith,
}
use baiakthunder.Container.{Info}
use baiakthunder.Container.Queries.{
  no_error, container_not_enough_room, Flags, Asked, size, is_among, query_add, query_max_count,
}

-- An item that may be picked up and can go into an unlocked container, without a carrier above.
pub record MayEnter (c : Asked) (i : Info) : Type 0 where
  pub unlocked : c.unlocked ≡ true
  pub pickupable : i.pickupable ≡ true
  pub other : (i.uid == c.uid) ≡ false
  pub not_above : is_among i.uid c.parents ≡ false
  pub top : c.top ≡ none

-- An item that may go into a container of some capacity, at no index and with no flags, is let in exactly
-- if two slots at least are free. So with a single free slot one that does not stack is refused for want
-- of room, while the count of what fits is one, and no error.
pub query_add_room :
    (equals : Info → Info → Bool) (c : Asked) (i : Info) (count : ℕ)
    → MayEnter c i
    → 0 < c.capacity
    → c.capacity < 2 ^ 31
    → let flags : Flags = record {
      no_limit = false;
      child_is_owner = false;
      ignore_not_moveable = false;
    } in
      (size c.items + 1 < c.capacity → query_add c flags none i count ≡ no_error)
      × (c.capacity ≤ size c.items + 1 → query_add c flags none i count ≡ container_not_enough_room)
      × (size c.items + 1 ≡ c.capacity
          → i.stackable ≡ false
          → query_max_count equals c flags none i count ≡ (no_error, 1))
unfolding query_add query_max_count
query_add_room equals c i count m some_room small =
    let roomy : size c.items + 1 < c.capacity
        → leb ((c.capacity + (2 ^ 32 - 1)) % 2 ^ 32) (size c.items) ≡ false =
      λ lt. ground arith in
    let full : c.capacity ≤ size c.items + 1
        → leb ((c.capacity + (2 ^ 32 - 1)) % 2 ^ 32) (size c.items) ≡ true =
      λ le. ground arith in
    (
      λ lt. rw (m.unlocked, m.pickupable, m.other, m.not_above, roomy lt, m.top) refl,
      λ le. rw (m.unlocked, m.pickupable, m.other, m.not_above, full le) refl,
      λ e s. ground (arith, e, s),
    )
