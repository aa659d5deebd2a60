-- ===== src/Guild/Level.antt =====
-- The level of a guild in src/guild.cpp, by its experience.
use baiakthunder.Base.{
  ℕ, zero, suc, ◌+◌, ◌-◌, ◌*◌, ◌/◌, ◌%◌, ◌^◌, ◌<◌, ◌≤◌, ◌≡◌, refl, sym, ap, ◌∙◌, subst, arith, true,
  false, ltb, leb, if◌then◌else◌, dec_lt,
}
use baiakthunder.Growth
use baiakthunder.Growth.Table.{
  all_hundreds, all_hundreds_bound, cube, get_exp_for_level_lem, get_exp_for_level_signed,
  exp-IsLadder,
}
use baiakthunder.Ladder.{climb, descend}
use baiakthunder.Ladder.Steps.{times_keeps, refit, IsLadder, Fits, climb-Climbed, descend-Descended}
use baiakthunder.Guild.{
  Guild, get_exp_for_level, promote, demote, level_exp, next_level_exp, add_experience, max_level,
}

three :
    (k : ℕ)
    → k < 2 ^ 16
    → (50 * k * k * k + (2 ^ 64 - 150 * k * k % 2 ^ 64) + 400 * k) % 2 ^ 64 ≡ 300 * all_hundreds k
three k h =
    let sq : k * k ≤ k * 2 ^ 16 = grind arith in
    omega (arith, cube k, all_hundreds_bound k (omega arith))

-- From level 1 to level 2^16 a guild needs the experience that a player needs.
pub get_exp_for_level_same :
    (l : ℕ) → 1 ≤ l → l ≤ 2 ^ 16 → get_exp_for_level l ≡ Growth.get_exp_for_level l
unfolding get_exp_for_level
get_exp_for_level_same zero pos le = absurd (omega arith)
get_exp_for_level_same (suc k) pos le =
    let back : (suc k + (2 ^ 64 - 1)) % 2 ^ 64 ≡ k = omega arith in
    let whole : Growth.get_exp_for_level (k + 1) ≡ 100 * all_hundreds k =
      get_exp_for_level_lem k (omega arith) in
    let hundred : 300 * all_hundreds k / 3 ≡ 100 * all_hundreds k = omega arith in
    rw (back, three k (omega arith))
      (hundred ∙ sym whole ∙ ap Growth.get_exp_for_level (omega arith))

guild-IsLadder : IsLadder get_exp_for_level max_level
guild-IsLadder = record {
  first = get_exp_for_level_same 1 (omega arith) (omega arith) ∙ exp-IsLadder.first;
  grows = λ l pos lt.
      subst (λ n. n < get_exp_for_level (l + 1)) (sym (get_exp_for_level_same l pos (omega arith)))
        (subst (λ n. Growth.get_exp_for_level l < n)
          (sym (get_exp_for_level_same (l + 1) (omega arith) (omega arith)))
          (exp-IsLadder.grows l pos (omega arith)));
}

-- The level is the one that the experience is worth.
abbrev pub IsLeveled : Guild → Type 0
IsLeveled g = Fits get_exp_for_level max_level g.experience g.level

up : (g : Guild) → g.level < max_level → (promote g).level ≡ g.level + 1
unfolding promote
up g lt = omega arith

up_entry : (g : Guild) → g.level < max_level → next_level_exp g ≡ get_exp_for_level (g.level + 1)
unfolding next_level_exp
up_entry g lt = refl

down : (g : Guild) → 1 ≤ g.level → g.level < max_level → (demote g).level ≡ g.level - 1
unfolding demote
down g pos lt = omega arith

down_entry :
    (g : Guild) → 1 ≤ g.level → g.level < max_level → level_exp g ≡ get_exp_for_level g.level
unfolding level_exp
down_entry g pos lt = refl

-- What a change of the experience comes to.
changed :
    (g : Guild) (points e : ℕ)
    → IsLeveled g
    → (if ltb ((g.experience + points) % 2 ^ 64) (2 ^ 63)
        then (g.experience + points) % 2 ^ 64
        else 0)
      ≡ e
    → e < get_exp_for_level max_level
    → let (h, _) = add_experience g points in IsLeveled h × (h.experience ≡ e)
unfolding add_experience
changed g points e f is_e small =
    let g1 : Guild = record g { experience = e } in
    let not_top : leb (next_level_exp g) (level_exp g) ≡ false = ground (
      arith,
      up_entry g f.below,
      down_entry g f.least f.below,
      guild-IsLadder.grows g.level f.least f.below,
    ) in
    rw (not_top, is_e)
      (elim (dec_lt e (level_exp g)) [
        | yes h ↦
            let lower : ltb e (level_exp g) ≡ true = ground arith in
            let c =
              descend-Descended get_exp_for_level max_level (λ (h : Guild). h.level) demote
                level_exp 0 guild-IsLadder (omega arith) down down_entry g.level e g1 (level_exp g)
                f.least f.below (omega arith)
                (omega (arith, f.next, f.reached, down_entry g f.least f.below))
                (down_entry g f.least f.below) in
            let q =
              (descend (λ (h : Guild). h.level) level_exp demote 0 g.level e g1 (level_exp g)).0 in
            let kept : q.experience ≡ e =
              ap (λ (v : Guild). v.experience) c.which
              ∙ times_keeps c.k demote (λ (v : Guild). v.experience) g1
                  (λ v. unfold demote in refl) in
            rw lower (refit get_exp_for_level max_level e _ q.level _ c.fits kept refl, kept)
        | no h ↦
            let higher : ltb e (level_exp g) ≡ false = ground arith in
            let c =
              climb-Climbed get_exp_for_level max_level (λ (h : Guild). h.level) promote
                next_level_exp guild-IsLadder up up_entry max_level e g1 (level_exp g)
                (next_level_exp g) f.least f.below (omega arith) small
                (down_entry g f.least f.below) (up_entry g f.below) (omega arith) in
            let q =
              (climb next_level_exp promote max_level e g1 (level_exp g) (next_level_exp g)).0 in
            let kept : q.experience ≡ e =
              ap (λ (v : Guild). v.experience) c.which
              ∙ times_keeps c.k promote (λ (v : Guild). v.experience) g1
                  (λ v. unfold promote in refl) in
            rw higher (refit get_exp_for_level max_level e _ q.level _ c.fits kept refl, kept)
      ])

-- Points that are gained add to the experience of a guild, points that are lost take from it down to 0,
-- and the level is then again the one that the experience is worth, below the greatest level.
pub add_experience-IsLeveled :
    (g : Guild) (points : ℕ)
    → IsLeveled g
    → g.experience + points < get_exp_for_level max_level
    → let gained = (add_experience g points).0 in
      let lost = (add_experience g (2 ^ 64 - points)).0 in
      (IsLeveled gained × (gained.experience ≡ g.experience + points))
      × (IsLeveled lost × (lost.experience ≡ g.experience - points))
add_experience-IsLeveled g points f small =
    let top : get_exp_for_level max_level < 2 ^ 63 =
      subst (λ n. n < 2 ^ 63) (sym (get_exp_for_level_same max_level (omega arith) (omega arith)))
        (get_exp_for_level_signed max_level (omega arith) (omega arith)) in
    (
      changed g points (g.experience + points) f (ground (arith, top)) small,
      changed g (2 ^ 64 - points) (g.experience - points) f (ground (arith, top)) (omega arith),
    )
