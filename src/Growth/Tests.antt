-- ===== src/Growth/Tests.antt =====
-- A player of level 8 on the way to level 9.
use baiakthunder.Base.{
  ℕ, ◌+◌, ◌*◌, ◌≡◌, ltb, if◌then◌else◌, refl, arith, false, none, [], ◌∷◌, ◌/◌, ◌≤◌,
}
use baiakthunder.Ladder.{climb, descend}
use baiakthunder.Growth.{
  Player, Skill, Vocation, get_exp_for_level, add_experience, remove_experience, promote, demote,
  next_level_exp, level_exp, max_int32, set_percent, settle, update_base_speed,
}
use baiakthunder.Growth.Table.{all_hundreds, get_exp_for_level_lem}
use baiakthunder.Growth.Experience.{IsLeveled}
use baiakthunder.Growth.Changes.{
  Callbacks, gain, lose, run_changes, balance, gains, run_changes-IsLeveled,
  remove_experience-add_experience,
}
use baiakthunder.Growth.Tries.{Cache, level_text, skills, add_skill_advance, add_mana_spent}
use baiakthunder.Growth.Vocations.{Coherent}
use baiakthunder.Growth.Spending.{needed, Spent, add_skill_advance-Spent}
use baiakthunder.Growth.Death.{sum_mana, lose_mana, lose_mana_total}
use baiakthunder.Growth.Top.{add_mana_spent_text_only}

abbrev knight : Vocation
knight = record {
  gain_hp = 15;
  gain_mana = 5;
  gain_cap = 2500;
  base_speed = 220;
  req_mana = λ l. l + l;
}

abbrev hero : Player
hero = record {
  vocation = knight;
  set_max_speed = false;
  not_gain_mana = false;
  var_health = 0;
  var_mana = 0;
  experience = 4300;
  level = 8;
  level_percent = 4;
  health = 100;
  health_max = 185;
  mana = 20;
  mana_max = 35;
  capacity = 47000;
  base_speed = 234;
  mag_level = 2;
  mana_spent = 3;
  mag_level_percent = 50;
}

hero-IsLeveled : IsLeveled hero
unfolding get_exp_for_level
hero-IsLeveled = record {
  least = omega arith;
  below = omega arith;
  reached = omega arith;
  next = omega arith;
}

-- Level 9 needs 6400 and level 10 needs 9300 experience.
two_levels_up : (add_experience (λ n. n) hero 5000).level ≡ 10
unfolding add_experience climb promote settle set_percent update_base_speed next_level_exp level_exp
    get_exp_for_level
two_levels_up = refl

three_levels_down : (remove_experience (λ n. n) hero 3000).health_max ≡ 140
unfolding remove_experience descend demote settle set_percent update_base_speed next_level_exp
    level_exp get_exp_for_level max_int32
three_levels_down = refl

get_exp_for_level_lem_example : get_exp_for_level 100 ≡ 100 * all_hundreds 99
get_exp_for_level_lem_example = get_exp_for_level_lem 99 (omega arith)

abbrev honest : Callbacks
honest = record { on_gain = λ n. n; on_lose = λ n. n }

run_changes-IsLeveled_example :
    let q = run_changes honest hero (gain 5000 ∷ lose 8000 ∷ gain 100 ∷ []) in
    IsLeveled q × (q.experience ≡ balance honest 4300 (gain 5000 ∷ lose 8000 ∷ gain 100 ∷ []))
unfolding gains get_exp_for_level
run_changes-IsLeveled_example =
    run_changes-IsLeveled honest hero (gain 5000 ∷ lose 8000 ∷ gain 100 ∷ [])
      (tt, (omega arith, (tt, tt))) hero-IsLeveled (omega arith)

remove_experience-add_experience_example :
    let q = remove_experience (λ n. 2 * n) (add_experience (λ n. 2 * n) hero 2500) 2500 in
    (q.level ≡ 8)
    × (q.experience ≡ 4300)
    × (q.health_max ≡ 185)
    × (q.mana_max ≡ 35)
    × (q.capacity ≡ 47000)
unfolding get_exp_for_level
remove_experience-add_experience_example =
    remove_experience-add_experience (λ n. 2 * n) (λ n. 2 * n) hero 2500 hero-IsLeveled
      (record { health_max = omega arith; mana_max = omega arith; capacity = omega arith })
      (omega arith) refl (omega arith) (omega arith)

abbrev sword : Skill
sword = record { tries = 5; level = 10; percent = 20 }

abbrev fresh : Cache
fresh l = none

fresh-Coherent : (width : ℕ) (computed : ℕ → ℕ) → Coherent width computed fresh
unfolding Coherent
fresh-Coherent width computed l v e = absurd cc

-- A level costs its number; 40 tries pay for the levels 11, 12 and 13, but not for those up to 16.
add_skill_advance-Spent_example :
    let (k', _, cache') = add_skill_advance (λ n. n) (λ l. l) fresh sword 40 in
    Spent (λ l. l) 16 10 5 40 k'.level k'.tries × Coherent 32 (λ l. l) cache'
unfolding needed
add_skill_advance-Spent_example =
    add_skill_advance-Spent (λ n. n) (λ l. l) fresh 16 sword 40 (omega arith) (λ l lt. omega arith)
      (λ l le. omega arith) (fresh-Coherent 32 (λ l. l)) (omega arith) (omega arith) (omega arith)
      (omega arith)

-- A table that ends at level 11 for the sword, and at level 3 for magic.
abbrev ending : ℕ → ℕ → ℕ
ending top l = if ltb top l then 0 else l + l

add_mana_spent_text_only_example :
    let p : Player = record hero { vocation = record knight { req_mana = ending 3 } } in
    let (k', sent, _) = add_skill_advance (λ n. n) (ending 11) fresh sword 40 in
    let (p', sent', _) = add_mana_spent (λ n. n) fresh p 40 in
    (k' ≡ record { tries = 0; level = 11; percent = 0 })
    × (sent ≡ level_text 11 ∷ skills ∷ [])
    × (p' ≡ record p { mag_level = 3; mana_spent = 0 })
    × (sent' ≡ level_text 3 ∷ [])
add_mana_spent_text_only_example =
    add_mana_spent_text_only (λ n. n) (ending 11) fresh fresh sword
      (record hero { vocation = record knight { req_mana = ending 3 } }) 40 (omega arith)
      (fresh-Coherent 32 (ending 11))
      (record {
        grows = ground arith;
        ends = ground arith;
        fits = ground arith;
        short = ground arith;
        reached = ground arith;
        small = omega arith;
      })
      (omega arith) refl (fresh-Coherent 64 (ending 3))
      (record {
        grows = ground arith;
        ends = ground arith;
        fits = ground arith;
        short = ground arith;
        reached = ground arith;
        small = omega arith;
      })

-- A tenth of 2 + 4 + 3 is lost.
lose_mana_total_example :
    let p' = lose_mana (λ n. n / 10) hero in
    (sum_mana (λ l. l + l) p'.mag_level + p'.mana_spent + 9 / 10 ≡ 9) × (p'.mag_level ≤ 2)
unfolding sum_mana
lose_mana_total_example = lose_mana_total (λ n. n / 10) hero (λ n. omega arith) (omega arith)
