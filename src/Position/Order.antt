-- ===== src/Position/Order.antt =====
-- The order of positions in position.h, and their arithmetic.
use baiakthunder.Base.{ℕ, ◌^◌, ◌<◌, ◌≡◌, ◌≢◌, ◌⊎◌, true, false, arith}
use baiakthunder.Position.{Position, before, after, same, differ, plus, minus, are_in_range}

-- The coordinates are values of their types.
pub record IsPosition (p : Position) : Type 0 where
  pub x : p.x < 2 ^ 16
  pub y : p.y < 2 ^ 16
  pub z : p.z < 2 ^ 8

-- `operator<` is a strict total order: no position is before itself, it is transitive, and of two
-- positions exactly one is before the other or they are equal.
pub before_total :
    (p q r : Position)
    → (before p p ≡ false)
      × (before p q ≡ true → before q r ≡ true → before p r ≡ true)
      × (before p q ≡ true → before q p ≡ false)
      × ((before p q ≡ true) ⊎ (before q p ≡ true) ⊎ (p ≡ q))
unfolding before
before_total p q r = (ground arith, λ a b. ground arith, λ a. ground arith, ground arith)

-- `operator>` is not the converse of `operator<`: it holds of equal positions.
pub after_refl : (p : Position) → (after p p ≡ true) × (before p p ≡ false)
unfolding after
after_refl p = (ground arith, ground arith)

-- `operator==` decides equality, and `operator!=` is its negation.
pub same_differ :
    (p q : Position)
    → (same p q ≡ true → p ≡ q)
      × (p ≡ q → same p q ≡ true)
      × (differ p q ≡ true → p ≢ q)
      × (p ≢ q → differ p q ≡ true)
unfolding same differ
same_differ p q = (λ h. ground arith, λ h. ground arith, λ h e. ground arith, λ h. ground arith)

-- `operator-` undoes `operator+`, wraps included.
pub minus-plus : (p q : Position) → IsPosition p → IsPosition q → minus (plus p q) q ≡ p
unfolding minus plus
minus-plus p q hp hq = ground arith

-- Being in range does not depend on the order of the two positions.
pub are_in_range_comm :
    (dx dy dz : ℕ) (p q : Position) → are_in_range dx dy dz p q ≡ are_in_range dx dy dz q p
unfolding are_in_range
are_in_range_comm dx dy dz p q = ground arith
