-- ===== src/Growth.antt =====
-- The growth of a player in src/player.cpp: levels by experience, the magic level by mana spent, and
-- skills by tries. What the Lua callbacks make of an amount is an argument, and so are the tables of a
-- vocation that src/vocation.cpp computes in floating point. A 32-bit value that can be negative is
-- kept as the number that its bits spell.
pub mod Table
pub mod Levels
pub mod Experience
pub mod Changes
pub mod Tries
pub mod Vocations
pub mod Spending
pub mod Top
pub mod Death
mod Tests
use baiakthunder.Base.{
  ℕ, zero, suc, ◌+◌, ◌-◌, ◌*◌, ◌/◌, ◌%◌, ◌^◌, Bool, true, false, max, ltb, leb, ◌==◌, ◌&&◌, ◌||◌,
  if◌then◌else◌,
}
use baiakthunder.Ladder.{climb, descend}

pub record Vocation : Type 0 where
  pub gain_hp : ℕ
  pub gain_mana : ℕ
  pub gain_cap : ℕ
  pub base_speed : ℕ
  pub req_mana : ℕ → ℕ

pub record Skill : Type 0 where
  pub tries : ℕ
  pub level : ℕ
  pub percent : ℕ

pub record Player : Type 0 where
  pub vocation : Vocation
  pub set_max_speed : Bool
  pub not_gain_mana : Bool
  pub var_health : ℕ
  pub var_mana : ℕ
  pub experience : ℕ
  pub level : ℕ
  pub level_percent : ℕ
  pub health : ℕ
  pub health_max : ℕ
  pub mana : ℕ
  pub mana_max : ℕ
  pub capacity : ℕ
  pub base_speed : ℕ
  pub mag_level : ℕ
  pub mana_spent : ℕ
  pub mag_level_percent : ℕ

-- std::max<int32_t>, of a number that is not negative and a sum or difference
unfoldable pub max_int32 : ℕ → ℕ → ℕ
max_int32 least v = let v' = v % 2 ^ 32 in if ltb v' (2 ^ 31) then max least v' else least

-- Player::getExpForLevel, on 64 bits; what is subtracted is the added 2^64 short of it.
unfoldable pub get_exp_for_level : ℕ → ℕ
get_exp_for_level lv =
    (((lv + (2 ^ 64 - 6)) * lv + 17) * lv + (2 ^ 64 - 12)) % 2 ^ 64 / 6 * 100 % 2 ^ 64

-- Player::getPercentLevel
unfoldable pub get_percent_level : ℕ → ℕ → ℕ
get_percent_level count next_level_count =
    let result = count * 100 % 2 ^ 64 / next_level_count % 256 in
    if next_level_count == 0 then 0 else if ltb 100 result then 0 else result

unfoldable pub get_max_health : Player → ℕ
get_max_health p = max_int32 1 (p.health_max + p.var_health)

unfoldable pub get_max_mana : Player → ℕ
get_max_mana p = max_int32 0 (p.mana_max + p.var_mana)

-- Player::updateBaseSpeed
unfoldable pub update_base_speed : Player → Player
update_base_speed p = record p {
  base_speed =
      if p.set_max_speed
      then 1500
      else (p.vocation.base_speed + 2 * (p.level + (2 ^ 32 - 1))) % 2 ^ 32;
}

-- What a level adds, in Player::addExperience
unfoldable pub promote : Player → Player
promote p = record p {
  level = (p.level + 1) % 2 ^ 32;
  health_max = (p.health_max + p.vocation.gain_hp) % 2 ^ 32;
  health = (p.health + p.vocation.gain_hp) % 2 ^ 32;
  mana_max = (p.mana_max + p.vocation.gain_mana) % 2 ^ 32;
  mana = (p.mana + p.vocation.gain_mana) % 2 ^ 32;
  capacity = (p.capacity + p.vocation.gain_cap) % 2 ^ 32;
}

-- What a level takes, in Player::removeExperience
unfoldable pub demote : Player → Player
demote p = record p {
  level = (p.level + (2 ^ 32 - 1)) % 2 ^ 32;
  health_max = max_int32 0 (p.health_max + (2 ^ 32 - p.vocation.gain_hp));
  mana_max = max_int32 0 (p.mana_max + (2 ^ 32 - p.vocation.gain_mana));
  capacity = max_int32 0 (p.capacity + (2 ^ 32 - p.vocation.gain_cap));
}

unfoldable pub level_exp : Player → ℕ
level_exp p = get_exp_for_level p.level

unfoldable pub next_level_exp : Player → ℕ
next_level_exp p = get_exp_for_level ((p.level + 1) % 2 ^ 32)

-- The health, mana and speed of another level than before
unfoldable pub settle : ℕ → Player → Player
settle prev_level p =
    let p' : Player = record p { health = get_max_health p; mana = get_max_mana p } in
    if p.level == prev_level then p else update_base_speed p'

unfoldable pub set_percent : Player → ℕ → ℕ → Player
set_percent p curr next = record p {
  level_percent =
      if ltb curr next
      then get_percent_level ((p.experience + (2 ^ 64 - curr)) % 2 ^ 64) (next - curr)
      else 0;
}

-- More levels than experience below 2^61 is worth
abbrev pub max_level : ℕ
max_level = 2 ^ 19

-- Player::addExperience, for an amount that the Lua callback turns into another
unfoldable pub add_experience : (ℕ → ℕ) → Player → ℕ → Player
add_experience on_gain p exp =
    let curr = level_exp p in
    let next = next_level_exp p in
    let p1 : Player = record p { experience = (p.experience + on_gain exp) % 2 ^ 64 } in
    let (p2, curr', next') = climb next_level_exp promote max_level p1.experience p1 curr next in
    if leb next curr
    then record p { level_percent = 0 }
    else if on_gain exp == 0
    then p
    else set_percent (settle p.level p2) curr' next'

-- Player::removeExperience; what is left is a 64-bit difference, read with its sign.
unfoldable pub remove_experience : (ℕ → ℕ) → Player → ℕ → Player
remove_experience on_lose p exp =
    let left = (p.experience + (2 ^ 64 - on_lose exp)) % 2 ^ 64 in
    let p1 : Player = record p { experience = if ltb left (2 ^ 63) then left else 0 } in
    let (p2, curr') =
      descend (λ (q : Player). q.level) level_exp demote 1 p.level p1.experience p1 (level_exp p) in
    if p.experience == 0 || exp == 0 || on_lose exp == 0
    then p
    else set_percent (settle p.level p2) curr' (next_level_exp p2)
