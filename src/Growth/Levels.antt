-- ===== src/Growth/Levels.antt =====
-- What so many levels more or less make of a player (src/player.cpp).
use baiakthunder.Base.{ℕ, zero, suc, ◌+◌, ◌-◌, ◌*◌, ◌^◌, ◌<◌, ◌≡◌, refl, ap, arith}
use baiakthunder.Ladder.Steps.{times}
use baiakthunder.Growth.{Player, Vocation, promote, demote, max_int32, max_level}

-- Nothing overflows up to the level `max_level`.
pub record HasRoom (p : Player) : Type 0 where
  pub health_max : p.health_max + max_level * p.vocation.gain_hp < 2 ^ 31
  pub mana_max : p.mana_max + max_level * p.vocation.gain_mana < 2 ^ 31
  pub capacity : p.capacity + max_level * p.vocation.gain_cap < 2 ^ 31

-- The second player is the first so many levels on.
pub record Raised (k : ℕ) (p q : Player) : Type 0 where
  pub vocation : q.vocation ≡ p.vocation
  pub health_max : q.health_max ≡ p.health_max + k * p.vocation.gain_hp
  pub mana_max : q.mana_max ≡ p.mana_max + k * p.vocation.gain_mana
  pub capacity : q.capacity ≡ p.capacity + k * p.vocation.gain_cap

pub record Small (k : ℕ) (p : Player) : Type 0 where
  pub health_max : p.health_max + k * p.vocation.gain_hp < 2 ^ 31
  pub mana_max : p.mana_max + k * p.vocation.gain_mana < 2 ^ 31
  pub capacity : p.capacity + k * p.vocation.gain_cap < 2 ^ 31

pub times-promote-Raised : (k : ℕ) (p : Player) → Small k p → Raised k p (times k promote p)
unfolding times promote
times-promote-Raised zero p s = record {
  vocation = refl;
  health_max = omega arith;
  mana_max = omega arith;
  capacity = omega arith;
}
times-promote-Raised (suc k) p s =
    let r = times-promote-Raised k (promote p) (record {
      health_max = omega (arith, s.health_max);
      mana_max = omega (arith, s.mana_max);
      capacity = omega (arith, s.capacity);
    }) in
    record {
      vocation = r.vocation;
      health_max = omega (arith, r.health_max, s.health_max);
      mana_max = omega (arith, r.mana_max, s.mana_max);
      capacity = omega (arith, r.capacity, s.capacity);
    }

lowered : (v a g g' : ℕ) → v ≡ a + g → v < 2 ^ 31 → g' ≡ g → max_int32 0 (v + (2 ^ 32 - g')) ≡ a
unfolding max_int32
lowered v a g g' e lt same = ground (arith, same)

-- The first player has been as much below the second.
pub times-demote-Raised :
    (k : ℕ) (p q : Player) → Small k p → Raised k p q → Raised 0 p (times k demote q)
unfolding times demote
times-demote-Raised zero p q s r = r
times-demote-Raised (suc k) p q s r =
    let job = r.vocation in
    times-demote-Raised k p (demote q)
      (record {
        health_max = omega (arith, s.health_max);
        mana_max = omega (arith, s.mana_max);
        capacity = omega (arith, s.capacity);
      })
      (record {
        vocation = job;
        health_max =
            lowered q.health_max (p.health_max + k * p.vocation.gain_hp) p.vocation.gain_hp
              q.vocation.gain_hp (omega (arith, r.health_max))
              (omega (arith, r.health_max, s.health_max)) (ap (λ (v : Vocation). v.gain_hp) job);
        mana_max =
            lowered q.mana_max (p.mana_max + k * p.vocation.gain_mana) p.vocation.gain_mana
              q.vocation.gain_mana (omega (arith, r.mana_max))
              (omega (arith, r.mana_max, s.mana_max)) (ap (λ (v : Vocation). v.gain_mana) job);
        capacity =
            lowered q.capacity (p.capacity + k * p.vocation.gain_cap) p.vocation.gain_cap
              q.vocation.gain_cap (omega (arith, r.capacity))
              (omega (arith, r.capacity, s.capacity)) (ap (λ (v : Vocation). v.gain_cap) job);
      })
