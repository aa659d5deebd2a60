-- ===== src/Position/Tests.antt =====
-- position.h at concrete positions.
use baiakthunder.Base.{◌≡◌, ◌⊎◌, refl, true, false}
use baiakthunder.Position.{Position, before, after, plus, are_in_range}
use baiakthunder.Position.Order.{before_total, after_refl, are_in_range_comm}

abbrev here : Position
here = record { x = 65000; y = 20; z = 7 }

abbrev there : Position
there = record { x = 1000; y = 20; z = 250 }

plus_wraps : plus here there ≡ record { x = 464; y = 40; z = 1 }
unfolding plus
plus_wraps = refl

before_total_example :
    (before here here ≡ false)
    × (before here there ≡ true → before there here ≡ true → before here here ≡ true)
    × (before here there ≡ true → before there here ≡ false)
    × ((before here there ≡ true) ⊎ (before there here ≡ true) ⊎ (here ≡ there))
before_total_example = before_total here there here

after_refl_example : (after here here ≡ true) × (before here here ≡ false)
after_refl_example = after_refl here

are_in_range_comm_example :
    are_in_range 64000 0 250 here there ≡ are_in_range 64000 0 250 there here
are_in_range_comm_example = are_in_range_comm 64000 0 250 here there

are_in_range_far : are_in_range 64000 0 242 here there ≡ false
unfolding are_in_range
are_in_range_far = refl
