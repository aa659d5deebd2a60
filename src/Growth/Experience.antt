-- ===== src/Growth/Experience.antt =====
-- The level and the experience of a player in src/player.cpp.
use baiakthunder.Base.{
  ℕ, ◌+◌, ◌-◌, ◌*◌, ◌%◌, ◌^◌, ◌<◌, ◌≤◌, ◌≡◌, refl, sym, ap, ◌∙◌, subst, arith, ltb, leb, ◌==◌, ◌||◌,
  true, false, if◌then◌else◌, Bool-cases, inl, inr, dec_lt,
}
use baiakthunder.Ladder.{climb, descend}
use baiakthunder.Ladder.Steps.{
  times_keeps, refit, Fits, Climbed, climb-Climbed, Descended, descend-Descended,
}
use baiakthunder.Growth.{
  Player, promote, demote, level_exp, next_level_exp, get_exp_for_level, max_level, settle,
  set_percent, update_base_speed, add_experience, remove_experience,
}
use baiakthunder.Growth.Table.{exp-IsLadder, get_exp_for_level_bound, get_exp_for_level_signed}
use baiakthunder.Growth.Levels.{HasRoom, Raised, Small, times-promote-Raised, times-demote-Raised}

-- The level is the one that the experience is worth.
abbrev pub IsLeveled : Player → Type 0
IsLeveled p = Fits get_exp_for_level max_level p.experience p.level

-- What stays when health, mana, speed and percent are set.
pub record Same (p q : Player) : Type 0 where
  pub experience : q.experience ≡ p.experience
  pub level : q.level ≡ p.level
  pub raised : Raised 0 p q

unraised : (p : Player) → Raised 0 p p
unraised p = record {
  vocation = refl;
  health_max = omega arith;
  mana_max = omega arith;
  capacity = omega arith;
}

settle-Same : (prev : ℕ) (p : Player) → Same p (settle prev p)
unfolding settle update_base_speed
settle-Same prev p = elim (Bool-cases (p.level == prev)) [
  | inl h ↦ rw h (record { experience = refl; level = refl; raised = unraised p })
  | inr h ↦ rw h (record {
    experience = refl;
    level = refl;
    raised = record {
      vocation = refl;
      health_max = omega arith;
      mana_max = omega arith;
      capacity = omega arith;
    };
  })
]

settled-Same : (prev curr next : ℕ) (p : Player) → Same p (set_percent (settle prev p) curr next)
unfolding set_percent
settled-Same prev curr next p =
    let s = settle-Same prev p in
    record {
      experience = s.experience;
      level = s.level;
      raised = record {
        vocation = s.raised.vocation;
        health_max = s.raised.health_max;
        mana_max = s.raised.mana_max;
        capacity = s.raised.capacity;
      };
    }

gain_climb : Player → ℕ → Player × ℕ × ℕ
gain_climb p exp =
    let p1 : Player = record p { experience = (p.experience + exp) % 2 ^ 64 } in
    climb next_level_exp promote max_level p1.experience p1 (level_exp p) (next_level_exp p)

lose_descend : Player → ℕ → Player × ℕ
lose_descend p left =
    descend (λ (q : Player). q.level) level_exp demote 1 p.level left
      (record p { experience = left }) (level_exp p)

up : (q : Player) → q.level < max_level → (promote q).level ≡ q.level + 1
unfolding promote
up q lt = omega arith

up_entry : (q : Player) → q.level < max_level → next_level_exp q ≡ get_exp_for_level (q.level + 1)
unfolding next_level_exp
up_entry q lt = ap get_exp_for_level (omega arith)

down : (q : Player) → 1 ≤ q.level → q.level < max_level → (demote q).level ≡ q.level - 1
unfolding demote
down q pos lt = omega arith

down_entry :
    (q : Player) → 1 ≤ q.level → q.level < max_level → level_exp q ≡ get_exp_for_level q.level
unfolding level_exp
down_entry q pos lt = refl

gain_climb-Climbed :
    (p : Player) (exp : ℕ)
    → IsLeveled p
    → p.experience + exp < get_exp_for_level max_level
    → Climbed get_exp_for_level max_level
        (λ (q : Player). q.level)
        promote
        (p.experience + exp)
        (record p { experience = p.experience + exp })
        (gain_climb p exp)
unfolding gain_climb level_exp
gain_climb-Climbed p exp f small =
    let e : (p.experience + exp) % 2 ^ 64 ≡ p.experience + exp =
      omega (arith, get_exp_for_level_bound max_level) in
    rw e (
      climb-Climbed get_exp_for_level max_level (λ (q : Player). q.level) promote next_level_exp
        exp-IsLadder up up_entry max_level (p.experience + exp)
        (record p { experience = p.experience + exp }) (level_exp p) (next_level_exp p) f.least
        f.below (omega arith) small refl (up_entry p f.below) (omega (arith, f.reached)))

lose_descend-Descended :
    (p : Player) (left : ℕ)
    → IsLeveled p
    → left ≤ p.experience
    → Descended get_exp_for_level max_level
        (λ (q : Player). q.level)
        demote
        left
        (record p { experience = left })
        (lose_descend p left)
unfolding lose_descend level_exp
lose_descend-Descended p left f le =
    descend-Descended get_exp_for_level max_level (λ (q : Player). q.level) demote level_exp 1
      exp-IsLadder (omega arith) down down_entry p.level left (record p { experience = left })
      (level_exp p) f.least f.below (omega arith) (omega (arith, f.next)) refl

-- What a gain and a loss come to, where the level fits before.
gained :
    (on_gain : ℕ → ℕ) (p : Player) (exp : ℕ)
    → IsLeveled p
    → 0 < on_gain exp
    → add_experience on_gain p exp ≡ (
        let (q, curr, next) = gain_climb p (on_gain exp) in
        set_percent (settle p.level q) curr next)
unfolding add_experience gain_climb level_exp
gained on_gain p exp f pos =
    let not_top : leb (next_level_exp p) (get_exp_for_level p.level) ≡ false =
      ground (arith, up_entry p f.below, exp-IsLadder.grows p.level f.least f.below) in
    let some_exp : (on_gain exp == 0) ≡ false = ground arith in rw (not_top, some_exp) refl

unmoved :
    (on_gain : ℕ → ℕ) (p : Player) (exp : ℕ)
    → IsLeveled p
    → on_gain exp ≡ 0
    → add_experience on_gain p exp ≡ p
unfolding add_experience level_exp
unmoved on_gain p exp f none =
    let not_top : leb (next_level_exp p) (get_exp_for_level p.level) ≡ false =
      ground (arith, up_entry p f.below, exp-IsLadder.grows p.level f.least f.below) in
    rw (not_top, none) refl

lost :
    (on_lose : ℕ → ℕ) (p : Player) (exp : ℕ)
    → IsLeveled p
    → 0 < p.experience
    → 0 < exp
    → 0 < on_lose exp
    → on_lose exp ≤ 2 ^ 63
    → remove_experience on_lose p exp ≡ (
        let (q, curr) = lose_descend p (p.experience - on_lose exp) in
        set_percent (settle p.level q) curr (next_level_exp q))
unfolding remove_experience lose_descend level_exp
lost on_lose p exp f some_exp some some_loss small =
    let short = get_exp_for_level_signed (p.level + 1) (omega arith) (omega (arith, f.below)) in
    let d = (p.experience + (2 ^ 64 - on_lose exp)) % 2 ^ 64 in
    let left : (if ltb d (2 ^ 63) then d else 0) ≡ p.experience - on_lose exp =
      ground (arith, short, f.next) in
    let real : (p.experience == 0 || exp == 0 || on_lose exp == 0) ≡ false = ground arith in
    rw (left, real) refl

Raised-on : (k : ℕ) (p q r : Player) → Raised k p q → Raised 0 q r → Raised k p r
Raised-on k p q r a b = record {
  vocation = b.vocation ∙ a.vocation;
  health_max = omega (arith, a.health_max, b.health_max);
  mana_max = omega (arith, a.mana_max, b.mana_max);
  capacity = omega (arith, a.capacity, b.capacity);
}

few :
    (k : ℕ) (e : ℕ) (p : Player) → HasRoom p → k ≤ max_level → Small k (record p { experience = e })
few k e p room le =
    let h : k * p.vocation.gain_hp ≤ max_level * p.vocation.gain_hp = grind arith in
    let m : k * p.vocation.gain_mana ≤ max_level * p.vocation.gain_mana = grind arith in
    let c : k * p.vocation.gain_cap ≤ max_level * p.vocation.gain_cap = grind arith in
    record {
      health_max = omega (arith, h, room.health_max);
      mana_max = omega (arith, m, room.mana_max);
      capacity = omega (arith, c, room.capacity);
    }

pub few_levels : (k : ℕ) (p : Player) → HasRoom p → k ≤ max_level → Small k p
few_levels k p room le =
    let s = few k p.experience p room le in
    record { health_max = s.health_max; mana_max = s.mana_max; capacity = s.capacity }

-- The experience has no part in what levels add.
from_exp : (k e : ℕ) (p q : Player) → Raised k (record p { experience = e }) q → Raised k p q
from_exp k e p q r = record {
  vocation = r.vocation;
  health_max = r.health_max;
  mana_max = r.mana_max;
  capacity = r.capacity;
}

to_exp : (k e : ℕ) (p q : Player) → Raised k p q → Raised k p (record q { experience = e })
to_exp k e p q r = record {
  vocation = r.vocation;
  health_max = r.health_max;
  mana_max = r.mana_max;
  capacity = r.capacity;
}

-- The second player is the first with that experience, and with what the levels between add.
pub record Grown (p q : Player) (exp : ℕ) : Type 0 where
  pub experience : q.experience ≡ exp
  pub fits : IsLeveled q
  pub k : ℕ
  pub level_lem : q.level ≡ p.level + k
  pub raised : HasRoom p → Raised k p q

pub add_experience-Grown :
    (on_gain : ℕ → ℕ) (p : Player) (exp : ℕ)
    → IsLeveled p
    → p.experience + on_gain exp < get_exp_for_level max_level
    → Grown p (add_experience on_gain p exp) (p.experience + on_gain exp)
add_experience-Grown on_gain p exp f small = elim (dec_lt 0 (on_gain exp)) [
  | no h ↦ rw (unmoved on_gain p exp f (omega arith)) (record {
    experience = omega arith;
    fits = f;
    k = 0;
    level_lem = omega arith;
    raised = λ room. unraised p;
  })
  | yes h ↦
      let p1 : Player = record p { experience = p.experience + on_gain exp } in
      let c = gain_climb-Climbed p (on_gain exp) f small in
      let (q, curr, next) = gain_climb p (on_gain exp) in
      let s = settled-Same p.level curr next q in
      let kept : q.experience ≡ p1.experience =
        ap (λ (v : Player). v.experience) c.which
        ∙ times_keeps c.k promote (λ (v : Player). v.experience) p1 (λ v. unfold promote in refl) in
      rw (gained on_gain p exp f h) (record {
        experience = s.experience ∙ kept;
        fits =
            refit get_exp_for_level max_level p1.experience _ q.level _ c.fits (s.experience ∙ kept)
              s.level;
        k = c.k;
        level_lem = omega (arith, s.level, c.level_lem);
        raised = λ room. from_exp c.k p1.experience p _ (
            Raised-on c.k p1 q _
              (subst (Raised c.k p1) (sym c.which) (
                times-promote-Raised c.k p1
                  (few c.k p1.experience p room (omega (arith, c.level_lem, c.fits.below)))))
              s.raised);
      })
]

-- The second player has that experience left, and less by what the levels between had added.
pub record Shrunk (p q : Player) (exp : ℕ) : Type 0 where
  pub experience : q.experience ≡ exp
  pub fits : IsLeveled q
  pub k : ℕ
  pub level_lem : q.level + k ≡ p.level
  pub raised : (o : Player) → Small k o → Raised k o p → Raised 0 o q

-- The loss that counts: for no experience the callback is not asked.
abbrev pub loss : (ℕ → ℕ) → ℕ → ℕ
loss on_lose exp = if exp == 0 then 0 else on_lose exp

unlost :
    (on_lose : ℕ → ℕ) (p : Player) (exp : ℕ)
    → (p.experience == 0 || exp == 0 || on_lose exp == 0) ≡ true
    → remove_experience on_lose p exp ≡ p
unfolding remove_experience
unlost on_lose p exp stop = rw stop refl

pub remove_experience-Shrunk :
    (on_lose : ℕ → ℕ) (p : Player) (exp : ℕ)
    → IsLeveled p
    → on_lose exp ≤ 2 ^ 63
    → Shrunk p (remove_experience on_lose p exp) (p.experience - loss on_lose exp)
remove_experience-Shrunk on_lose p exp f small =
    elim (Bool-cases (p.experience == 0 || exp == 0 || on_lose exp == 0)) [
      | inl h ↦ rw (unlost on_lose p exp h) (record {
        experience = ground arith;
        fits = f;
        k = 0;
        level_lem = omega arith;
        raised = λ o s r. r;
      })
      | inr h ↦
          let some_exp : 0 < p.experience = ground arith in
          let some : 0 < exp = ground arith in
          let some_loss : 0 < on_lose exp = ground arith in
          let real : loss on_lose exp ≡ on_lose exp = ground arith in
          let left = p.experience - on_lose exp in
          let p1 : Player = record p { experience = left } in
          let c = lose_descend-Descended p left f (omega arith) in
          let (q, curr) = lose_descend p left in
          let s = settled-Same p.level curr (next_level_exp q) q in
          let kept : q.experience ≡ left =
            ap (λ (v : Player). v.experience) c.which
            ∙ times_keeps c.k demote (λ (v : Player). v.experience) p1
                (λ v. unfold demote in refl) in
          rw (lost on_lose p exp f some_exp some some_loss small, real)
            (record {
              experience = s.experience ∙ kept;
              fits =
                  refit get_exp_for_level max_level left _ q.level _ c.fits (s.experience ∙ kept)
                    s.level;
              k = c.k;
              level_lem = omega (arith, s.level, c.level_lem);
              raised = λ o small_levels r.
                  Raised-on 0 o q _
                    (subst (Raised 0 o) (sym c.which)
                      (times-demote-Raised c.k o p1 small_levels (to_exp c.k left o p r)))
                    s.raised;
            })
    ]
