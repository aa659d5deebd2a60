-- ===== src/Growth/Death.antt =====
-- What a player loses of the magic level at a death, in Player::death of src/player.cpp. The share is taken
-- in floating point there, and is a function of the sum here. What a magic level needs is read from a
-- cache of 64 bits there, which answers what was computed.
use baiakthunder.Base.{
  ℕ, zero, suc, ◌+◌, ◌-◌, ◌%◌, ◌^◌, ◌<◌, ◌≤◌, ◌≡◌, true, false, ltb, if◌then◌else◌, arith, dec_lt,
}
use baiakthunder.Growth.{Player, get_percent_level}

-- What the levels up to one need together
unfoldable pub sum_mana : (ℕ → ℕ) → ℕ → ℕ
sum_mana req zero = 0
sum_mana req (suc l) = sum_mana req l + req (suc l)

-- `while (lostMana > manaSpent && magLevel > 0)`: the magic level, the mana spent and what is still lost.
unfoldable pub take_levels : (ℕ → ℕ) → ℕ → ℕ → ℕ → ℕ × ℕ × ℕ
take_levels req zero spent lost = (zero, spent, lost)
take_levels req (suc l) spent lost =
    let rest = take_levels req l (req (suc l)) (lost - spent) in
    if ltb spent lost then rest else (suc l, spent, lost)

unfoldable pub lose_mana : (ℕ → ℕ) → Player → Player
lose_mana share p =
    let req = p.vocation.req_mana in
    let lost = share ((sum_mana req p.mag_level + p.mana_spent) % 2 ^ 64) in
    let (level, spent, left) = take_levels req p.mag_level p.mana_spent lost in
    let spent' = (spent + (2 ^ 64 - left)) % 2 ^ 64 in
    let next = req (level + 1) in
    record p {
      mag_level = level;
      mana_spent = spent';
      mag_level_percent = if ltb (req level) next then get_percent_level spent' next else 0;
    }

-- What is left after the levels that are taken
record Taken (req : ℕ → ℕ) (level spent lost : ℕ) (r : ℕ × ℕ × ℕ) : Type 0 where
  lower : r.0 ≤ level
  enough : r.2 ≤ r.1
  less : r.2 ≤ lost
  total : sum_mana req r.0 + r.1 + lost ≡ sum_mana req level + spent + r.2

take_levels-Taken :
    (req : ℕ → ℕ) (level spent lost : ℕ)
    → lost ≤ sum_mana req level + spent
    → Taken req level spent lost (take_levels req level spent lost)
unfolding take_levels sum_mana
take_levels-Taken req zero spent lost le = record {
  lower = omega arith;
  enough = omega arith;
  less = omega arith;
  total = omega arith;
}
take_levels-Taken req (suc l) spent lost le = elim (dec_lt spent lost) [
  | yes h ↦
      let more : ltb spent lost ≡ true = ground arith in
      let r = take_levels-Taken req l (req (suc l)) (lost - spent) (omega arith) in
      rw more (record {
        lower = omega (arith, r.lower);
        enough = r.enough;
        less = omega (arith, r.less);
        total = omega (arith, r.total);
      })
  | no h ↦
      let done : ltb spent lost ≡ false = ground arith in
      rw done (record {
        lower = omega arith;
        enough = omega arith;
        less = omega arith;
        total = omega arith;
      })
]

-- The mana that a player has spent in all, over every magic level, becomes less at a death by exactly the
-- share of it that is lost, and the magic level does not rise.
pub lose_mana_total :
    (share : ℕ → ℕ) (p : Player)
    → ((n : ℕ) → share n ≤ n)
    → sum_mana p.vocation.req_mana p.mag_level + p.mana_spent < 2 ^ 64
    → let p' = lose_mana share p in
      let all = sum_mana p.vocation.req_mana p.mag_level + p.mana_spent in
      (sum_mana p.vocation.req_mana p'.mag_level + p'.mana_spent + share all ≡ all)
      × (p'.mag_level ≤ p.mag_level)
unfolding lose_mana
lose_mana_total share p less small =
    let req = p.vocation.req_mana in
    let all = sum_mana req p.mag_level + p.mana_spent in
    let whole : all % 2 ^ 64 ≡ all = omega arith in
    let t = take_levels-Taken req p.mag_level p.mana_spent (share all) (omega (arith, less all)) in
    rw whole (omega (arith, t.total, t.enough, t.less, less all), t.lower)
