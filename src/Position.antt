-- ===== src/Position.antt =====
-- src/position.h: map positions, their distances and their order. The coordinates are a `uint16_t`,
-- a `uint16_t` and a `uint8_t`.
pub mod Order
mod Tests
use baiakthunder.Base.{
  ℕ, ◌+◌, ◌-◌, ◌%◌, ◌^◌, ◌<◌, Bool, true, false, not, ◌&&◌, ◌||◌, ltb, leb, ◌==◌, if◌then◌else◌,
}

pub record Position : Type 0 where
  pub x : ℕ
  pub y : ℕ
  pub z : ℕ

-- std::abs(p1 - p2), for two unsigned coordinates
abbrev pub distance : ℕ → ℕ → ℕ
distance a b = if ltb a b then b - a else a - b

-- `areInRange<deltax, deltay, deltaz>`
unfoldable pub are_in_range : ℕ → ℕ → ℕ → Position → Position → Bool
are_in_range dx dy dz p q =
    leb (distance p.x q.x) dx && leb (distance p.y q.y) dy && leb (distance p.z q.z) dz

-- `areInRange<deltax, deltay>`
unfoldable pub are_in_range_flat : ℕ → ℕ → Position → Position → Bool
are_in_range_flat dx dy p q = leb (distance p.x q.x) dx && leb (distance p.y q.y) dy

-- `operator<`: by floor, then by row, then by column
unfoldable pub before : Position → Position → Bool
before p q =
    if ltb p.z q.z
    then true
    else if ltb q.z p.z
    then false
    else if ltb p.y q.y
    then true
    else if ltb q.y p.y
    then false
    else if ltb p.x q.x
    then true
    else if ltb q.x p.x
    then false
    else false

-- `operator>`, as it is written
unfoldable pub after : Position → Position → Bool
unfolding before
after p q = not (before p q)

unfoldable pub same : Position → Position → Bool
same p q = q.x == p.x && q.y == p.y && q.z == p.z

unfoldable pub differ : Position → Position → Bool
differ p q = not (q.x == p.x) || not (q.y == p.y) || not (q.z == p.z)

-- `operator+` and `operator-` wrap each coordinate to its type.
unfoldable pub plus : Position → Position → Position
plus p q = record { x = (p.x + q.x) % 2 ^ 16; y = (p.y + q.y) % 2 ^ 16; z = (p.z + q.z) % 2 ^ 8 }

unfoldable pub minus : Position → Position → Position
minus p q = record {
  x = (p.x + (2 ^ 16 - q.x)) % 2 ^ 16;
  y = (p.y + (2 ^ 16 - q.y)) % 2 ^ 16;
  z = (p.z + (2 ^ 8 - q.z)) % 2 ^ 8;
}
