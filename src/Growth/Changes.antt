-- ===== src/Growth/Changes.antt =====
-- Gains and losses of experience in src/player.cpp, one after the other.
use baiakthunder.Base.{
  ℕ, zero, suc, ◌+◌, ◌-◌, ◌^◌, ◌<◌, ◌≤◌, ◌≡◌, refl, sym, ap, ◌∙◌, subst, arith, dec_lt, All, List,
  [], ◌∷◌,
}
use baiakthunder.Ladder.Steps.{Fits}
use baiakthunder.Growth.{Player, get_exp_for_level, max_level, add_experience, remove_experience}
use baiakthunder.Growth.Table.{exp-IsLadder}
use baiakthunder.Growth.Levels.{HasRoom, Raised}
use baiakthunder.Growth.Experience.{
  IsLeveled, loss, few_levels, add_experience-Grown, remove_experience-Shrunk,
}

pub data Change : Type 0 where
  gain lose : ℕ → Change

-- What the callbacks make of a gain and of a loss.
pub record Callbacks : Type 0 where
  pub on_gain : ℕ → ℕ
  pub on_lose : ℕ → ℕ

unfoldable pub change : Callbacks → Player → Change → Player
change c p (gain exp) = add_experience c.on_gain p exp
change c p (lose exp) = remove_experience c.on_lose p exp

unfoldable pub run_changes : Callbacks → Player → List Change → Player
run_changes c p [] = p
run_changes c p (x ∷ xs) = run_changes c (change c p x) xs

-- The experience by itself: a sum of gains, and losses that stop at 0.
unfoldable pub balance : Callbacks → ℕ → List Change → ℕ
balance c n [] = n
balance c n (gain exp ∷ xs) = balance c (n + c.on_gain exp) xs
balance c n (lose exp ∷ xs) = balance c (n - loss c.on_lose exp) xs

unfoldable pub gains : Callbacks → List Change → ℕ
gains c [] = 0
gains c (gain exp ∷ xs) = c.on_gain exp + gains c xs
gains c (lose exp ∷ xs) = gains c xs

-- What the callback makes of a loss is no more than 2^63.
abbrev pub IsBounded : Callbacks → Change → Type 0
IsBounded c (gain exp) = Unit
IsBounded c (lose exp) = c.on_lose exp ≤ 2 ^ 63

-- A player has the level that the experience is worth. After any gains and losses, if the experience and
-- all that is gained together stay below what level 2^19 needs, and none of these losses is above 2^63
-- behind its callback, the experience is the balance, and the level is again the one that it is worth.
pub run_changes-IsLeveled :
    (c : Callbacks) (p : Player) (xs : List Change)
    → All (IsBounded c) xs
    → IsLeveled p
    → p.experience + gains c xs < get_exp_for_level max_level
    → let q = run_changes c p xs in IsLeveled q × (q.experience ≡ balance c p.experience xs)
unfolding run_changes change balance gains
run_changes-IsLeveled c p [] bounded f small = (f, refl)
run_changes-IsLeveled c p (gain exp ∷ xs) bounded f small =
    let q = add_experience c.on_gain p exp in
    let g = add_experience-Grown c.on_gain p exp f (omega arith) in
    let (fits, e) = run_changes-IsLeveled c q xs bounded.1 g.fits (omega (arith, g.experience)) in
    (fits, e ∙ ap (λ n. balance c n xs) g.experience)
run_changes-IsLeveled c p (lose exp ∷ xs) bounded f small =
    let q = remove_experience c.on_lose p exp in
    let s = remove_experience-Shrunk c.on_lose p exp f bounded.0 in
    let (fits, e) = run_changes-IsLeveled c q xs bounded.1 s.fits (omega (arith, s.experience)) in
    (fits, e ∙ ap (λ n. balance c n xs) s.experience)

-- The table does not fall.
rises : (k l : ℕ) → 1 ≤ l → l + k ≤ max_level → get_exp_for_level l ≤ get_exp_for_level (l + k)
unfolding get_exp_for_level
rises zero l pos le = omega arith
rises (suc k) l pos le =
    let h = exp-IsLadder.grows (l + k) (omega arith) (omega arith) in
    let r = rises k l pos (omega arith) in
    subst (λ m. get_exp_for_level l ≤ get_exp_for_level m) {x = l + k + 1} {y = l + suc k}
      (omega arith) (omega arith)

not_above :
    (e l m : ℕ)
    → Fits get_exp_for_level max_level e l
    → Fits get_exp_for_level max_level e m
    → l ≤ m
not_above e l m f g = elim (dec_lt m l) [
  | no h ↦ omega arith
  | yes h ↦
      let r = rises (l - (m + 1)) (m + 1) (omega arith) (omega (arith, f.below)) in
      absurd (
        omega (
          arith,
          f.reached,
          g.next,
          subst (λ n. get_exp_for_level (m + 1) ≤ get_exp_for_level n) {x = m + 1 + (l - (m + 1))}
              {y = l} (omega arith) r,
        ))
]

-- Experience that is gained and then lost again leaves the player with the level, the experience, the
-- greatest health and mana and the capacity of before, if nothing overflows up to level 2^19 and the
-- callbacks agree on the amount.
pub remove_experience-add_experience :
    (on_gain on_lose : ℕ → ℕ) (p : Player) (exp : ℕ)
    → IsLeveled p
    → HasRoom p
    → 0 < exp
    → on_lose exp ≡ on_gain exp
    → on_gain exp ≤ 2 ^ 63
    → p.experience + on_gain exp < get_exp_for_level max_level
    → let q = remove_experience on_lose (add_experience on_gain p exp) exp in
      (q.level ≡ p.level)
      × (q.experience ≡ p.experience)
      × (q.health_max ≡ p.health_max)
      × (q.mana_max ≡ p.mana_max)
      × (q.capacity ≡ p.capacity)
remove_experience-add_experience on_gain on_lose p exp f room some same fit small =
    let g = add_experience-Grown on_gain p exp f small in
    let s =
      remove_experience-Shrunk on_lose (add_experience on_gain p exp) exp g.fits (omega arith) in
    let q = remove_experience on_lose (add_experience on_gain p exp) exp in
    let real : loss on_lose exp ≡ on_gain exp = ground arith in
    let back : q.experience ≡ p.experience = omega (arith, s.experience, g.experience, real) in
    let fits = subst (λ e. Fits get_exp_for_level max_level e q.level) back s.fits in
    let level : q.level ≡ p.level = omega (
      arith,
      not_above p.experience q.level p.level fits f,
      not_above p.experience p.level q.level f fits,
    ) in
    let k : s.k ≡ g.k = omega (arith, level, s.level_lem, g.level_lem) in
    let r : Raised 0 p q =
      s.raised p (few_levels s.k p room (omega (arith, s.level_lem, g.fits.below)))
        (subst (λ n. Raised n p (add_experience on_gain p exp)) (sym k) (g.raised room)) in
    (level, back, omega (arith, r.health_max), omega (arith, r.mana_max), omega (arith, r.capacity))
