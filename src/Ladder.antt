-- ===== src/Ladder.antt =====
-- The loops by which src/player.cpp and src/guild.cpp raise and lower a level until it fits the experience.
pub mod Steps
use baiakthunder.Base.{ℕ, zero, suc, Bool, ltb, leb, ◌&&◌, if◌then◌else◌}

-- `while (experience >= nextLevelExp)`: one level up; the level then needs what the next one did, which
-- comes from the table again, and the loop ends early where the table does not grow. The first number
-- is fuel.
unfoldable pub climb : {A : Type 0} → (A → ℕ) → (A → A) → ℕ → ℕ → A → ℕ → ℕ → A × ℕ × ℕ
climb next_exp promote zero exp a curr next = (a, curr, next)
climb next_exp promote (suc n) exp a curr next =
    let a' = promote a in
    let next' = next_exp a' in
    let rest = climb next_exp promote n exp a' next next' in
    if leb next exp then (if leb next' next then (a', next, next') else rest) else (a, curr, next)

-- `while (level > least && experience < currLevelExp)`: one level down.
unfoldable pub descend : {A : Type 0} → (A → ℕ) → (A → ℕ) → (A → A) → ℕ → ℕ → ℕ → A → ℕ → A × ℕ
descend level curr_exp demote least zero exp a curr = (a, curr)
descend level curr_exp demote least (suc n) exp a curr =
    let a' = demote a in
    let rest = descend level curr_exp demote least n exp a' (curr_exp a') in
    if ltb least (level a) && ltb exp curr then rest else (a, curr)
