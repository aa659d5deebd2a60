-- ===== src/Growth/Table.antt =====
-- The experience that the levels of src/player.h need.
use baiakthunder.Base.{ℕ, zero, suc, ◌+◌, ◌-◌, ◌*◌, ◌%◌, ◌^◌, ◌<◌, ◌≤◌, ◌≡◌, refl, arith}
use baiakthunder.Ladder.Steps.{IsLadder}
use baiakthunder.Growth.{get_exp_for_level, max_level}

-- The hundreds of experience from one level to the next: 1, 1, 2, 4, 7, 11 and so on.
unfoldable pub hundreds : ℕ → ℕ
hundreds zero = 1
hundreds (suc k) = hundreds k + k

-- The hundreds of so many steps together.
unfoldable pub all_hundreds : ℕ → ℕ
all_hundreds zero = 0
all_hundreds (suc k) = all_hundreds k + hundreds k

square : (k : ℕ) → 2 * hundreds k + k ≡ k * k + 2
unfolding hundreds
square zero = refl
square (suc k) = omega (arith, square k)

pub cube :
    (k : ℕ)
    → 6 * all_hundreds k + 6 * (k + 1) * (k + 1) + 12 ≡ (k + 1) * (k + 1) * (k + 1) + 17 * (k + 1)
unfolding all_hundreds
cube zero = refl
cube (suc k) = omega (arith, cube k, square k)

hundreds_some : (k : ℕ) → 1 ≤ hundreds k
unfolding hundreds
hundreds_some zero = omega arith
hundreds_some (suc k) = omega (arith, hundreds_some k)

hundreds_bound : (k : ℕ) → k ≤ 2 ^ 19 → (1 ≤ hundreds k) × (hundreds k ≤ 1 + 2 ^ 37)
hundreds_bound k h =
    let le : k * k ≤ k * 2 ^ 19 = grind arith in omega (arith, square k, le, hundreds_some k)

pub all_hundreds_bound : (k : ℕ) → k ≤ 2 ^ 19 → all_hundreds k ≤ k * (1 + 2 ^ 37)
unfolding all_hundreds
all_hundreds_bound zero h = omega arith
all_hundreds_bound (suc k) h =
    omega (arith, all_hundreds_bound k (omega arith), hundreds_bound k (omega arith))

six :
    (k : ℕ)
    → k < 2 ^ 19
    → (((k + 1 + (2 ^ 64 - 6)) * (k + 1) + 17) * (k + 1) + (2 ^ 64 - 12)) % 2 ^ 64
      ≡ 6 * all_hundreds k
six k h = omega (arith, cube k, all_hundreds_bound k (omega arith))

-- Up to level 2^19 no step of the 64-bit formula goes wrong: level k + 1 needs the steps up to it.
pub get_exp_for_level_lem : (k : ℕ) → k < 2 ^ 19 → get_exp_for_level (k + 1) ≡ 100 * all_hundreds k
unfolding get_exp_for_level
get_exp_for_level_lem k h = rw (six k h) (omega (arith, all_hundreds_bound k (omega arith)))

pub get_exp_for_level_bound : (l : ℕ) → get_exp_for_level l < 2 ^ 64
unfolding get_exp_for_level
get_exp_for_level_bound l = omega arith

pub get_exp_for_level_signed : (l : ℕ) → 1 ≤ l → l ≤ max_level → get_exp_for_level l < 2 ^ 63
unfolding get_exp_for_level
get_exp_for_level_signed zero pos le = absurd (omega arith)
get_exp_for_level_signed (suc k) pos le =
    omega (arith, get_exp_for_level_lem k (omega arith), all_hundreds_bound k (omega arith))

pub get_exp_for_level_grows :
    (l : ℕ) → 1 ≤ l → l < max_level → get_exp_for_level l < get_exp_for_level (l + 1)
unfolding all_hundreds get_exp_for_level
get_exp_for_level_grows zero pos lt = absurd (omega arith)
get_exp_for_level_grows (suc k) pos lt = omega (
  arith,
  get_exp_for_level_lem k (omega arith),
  get_exp_for_level_lem (suc k) (omega arith),
  hundreds_bound k (omega arith),
)

pub exp-IsLadder : IsLadder get_exp_for_level max_level
unfolding all_hundreds
exp-IsLadder = record {
  first = get_exp_for_level_lem 0 (omega arith);
  grows = get_exp_for_level_grows;
}
