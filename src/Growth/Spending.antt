-- ===== src/Growth/Spending.antt =====
-- The loop of src/player.cpp that pays for levels with tries or mana.
use baiakthunder.Base.{
  ℕ, zero, suc, ◌+◌, ◌-◌, ◌%◌, ◌^◌, ◌<◌, ◌≤◌, ◌≡◌, refl, sym, ap, ◌∙◌, subst, arith, Bool, true,
  false, leb, ◌==◌, ◌||◌, if◌then◌else◌, dec_lt, Bool-cases, inl, inr,
}
use baiakthunder.Growth.{Skill}
use baiakthunder.Growth.Tries.{
  Cache, Spending, get_req, pay_level, spend, first_state, after16, add_skill_advance,
}
use baiakthunder.Growth.Vocations.{Coherent, get_req-Read}

-- What the so many levels above a level need together.
unfoldable pub needed : (ℕ → ℕ) → ℕ → ℕ → ℕ
needed req l zero = 0
needed req l (suc k) = req (l + 1) + needed req (l + 1) k

-- So many levels were paid for, and what is left is not enough for another one.
pub record Spent (req : ℕ → ℕ) (top level tries count level' tries' : ℕ) : Type 0 where
  pub k : ℕ
  pub level_lem : level' ≡ level + k
  pub below : level' < top
  pub paid : needed req level k + tries' ≡ tries + count
  pub rest : tries' < req (level' + 1)

if_not :
    {A : Type 0} (b c : Bool) (x y z : A)
    → b ≡ true
    → c ≡ false
    → (if b then (if c then x else y) else z) ≡ y
if_not b c x y z h k = rw (h, k) refl

-- A place in the loop.
record Going (width : ℕ) (req : ℕ → ℕ) (top : ℕ) (s : Spending) : Type 0 where
  below : s.level < top
  curr : s.curr ≡ req s.level
  next : s.next ≡ req (s.level + 1)
  not_top : s.at_top ≡ false
  within : s.tries < s.next
  small : s.tries + s.left < 2 ^ 64
  coherent : Coherent width req s.cache

-- What is paid does not reach the level `top`.
no_top :
    (req : ℕ → ℕ) (r : ℕ) (tries left level next : ℕ)
    → next ≡ req (level + 1)
    → next ≤ tries + left
    → tries < next
    → tries + left < needed req level (suc r)
    → (j : ℕ) × (r ≡ suc j)
unfolding needed
no_top req zero tries left level next e le lt short = absurd (omega (arith, e))
no_top req (suc j) tries left level next e le lt short = (j, refl)

module _ (width : ℕ) (req : ℕ → ℕ) (after : ℕ → ℕ) (top : ℕ)
    (counts : (l : ℕ) → l ≤ top → after l ≡ l + 1) (grows : (l : ℕ) → l < top → req l < req (l + 1))
    (fits : (l : ℕ) → l ≤ top → req l < 2 ^ width) where
  pay_level-Going :
      (s : Spending)
      → Going width req top s
      → s.next ≤ s.tries + s.left
      → s.level + 1 < top
      → Going width req top (pay_level width req after s)
  unfolding pay_level
  pay_level-Going s g le lt =
      let one : after s.level ≡ s.level + 1 = counts s.level (omega (arith, g.below)) in
      let two : after (after s.level) ≡ s.level + 1 + 1 =
        ap after one ∙ counts (s.level + 1) (omega arith) in
      let level : req (after s.level) ≡ req (s.level + 1) = ap req one in
      let entry : req (after (after s.level)) ≡ req (s.level + 1 + 1) = ap req two in
      let r =
        get_req-Read width req s.cache (after (after s.level)) g.coherent
          (fits (after (after s.level)) (omega (arith, two))) in
      let more = grows (s.level + 1) lt in
      record {
        below = omega arith;
        curr = g.next ∙ sym level;
        next = r.value ∙ ap req (two ∙ ap (λ l. l + 1) (sym one));
        not_top = ground (arith, more, entry, r.value, g.next);
        within = omega (arith, entry, r.value, more);
        small = omega arith;
        coherent = r.coherent;
      }

  spend-Spent :
      (n r : ℕ) (s : Spending)
      → Going width req top s
      → s.left ≤ n
      → s.level + suc r ≡ top
      → s.tries + s.left < needed req s.level (suc r)
      → let s' = spend width req after n s in
        (s'.at_top ≡ false)
        × Coherent width req s'.cache
        × Spent req top s.level s.tries s.left s'.level (s'.tries + s'.left)
  unfolding spend needed
  spend-Spent zero r s g le ends short = (
    g.not_top,
    g.coherent,
    record {
      k = 0;
      level_lem = omega arith;
      below = g.below;
      paid = omega arith;
      rest = omega (arith, g.next, g.within);
    },
  )
  spend-Spent (suc n) r s g le ends short = elim (dec_lt (s.tries + s.left) s.next) [
    | yes h ↦
        let stop : leb s.next ((s.tries + s.left) % 2 ^ 64) ≡ false = ground (arith, g.small) in
        rw stop (
          g.not_top,
          g.coherent,
          record {
            k = 0;
            level_lem = omega arith;
            below = g.below;
            paid = omega arith;
            rest = omega (arith, g.next);
          },
        )
    | no h ↦
        let go_on : leb s.next ((s.tries + s.left) % 2 ^ 64) ≡ true = ground (arith, g.small) in
        let (j, more) =
          no_top req r s.tries s.left s.level s.next g.next (omega arith) g.within short in
        let s1 = pay_level width req after s in
        let g1 = pay_level-Going s g (omega arith) (omega (arith, more)) in
        let one : s1.level ≡ s.level + 1 =
          unfold pay_level in counts s.level (omega (arith, g.below)) in
        let total : s1.tries + s1.left + s.next ≡ s.tries + s.left =
          unfold pay_level in omega (arith, g.small, g.within) in
        let shorter : needed req s1.level (suc j) ≡ needed req (s.level + 1) r =
          ap (λ l. needed req l (suc j)) one ∙ ap (needed req (s.level + 1)) (sym more) in
        let (not_top, coherent, q) =
          spend-Spent n j s1 g1 (unfold pay_level in omega (arith, g.within, g.small))
            (omega (arith, one, more, ends)) (omega (arith, total, shorter, short, g.next)) in
        let shift : needed req s1.level q.k ≡ needed req (s.level + 1) q.k =
          ap (λ l. needed req l q.k) one in
        rw
          (if_not _ (pay_level width req after s).at_top (pay_level width req after s) _ s go_on
            g1.not_top)
          (
            not_top,
            coherent,
            record {
              k = suc q.k;
              level_lem = omega (arith, q.level_lem, one);
              below = q.below;
              paid = omega (arith, q.paid, shift, total, g.next);
              rest = q.rest;
            },
          )
  ]

  first_state-Going :
      (cache : Cache) (level tries count : ℕ)
      → Coherent width req cache
      → level < top
      → tries < req (level + 1)
      → tries + count < 2 ^ 64
      → Going width req top (first_state width req after cache level tries count)
  unfolding first_state
  first_state-Going cache level tries count c lt some_left small =
      let one : after level ≡ level + 1 = counts level (omega arith) in
      let entry : req (after level) ≡ req (level + 1) = ap req one in
      let r = get_req-Read width req cache level c (fits level (omega arith)) in
      let r' =
        get_req-Read width req (get_req width req cache level).1 (after level) r.coherent
          (fits (after level) (omega (arith, one))) in
      record {
        below = lt;
        curr = r.value;
        next = r'.value ∙ entry;
        not_top = ground (arith, entry, r.value, r'.value, grows level lt);
        within = omega (arith, entry, r'.value);
        small = small;
        coherent = r'.coherent;
      }

unspent :
    (req : ℕ → ℕ) (top level tries count : ℕ)
    → level < top
    → tries < req (level + 1)
    → count ≡ 0
    → Spent req top level tries count level tries
unfolding needed
unspent req top level tries count lt some_left none_left = record {
  k = 0;
  level_lem = omega arith;
  below = lt;
  paid = omega arith;
  rest = some_left;
}

or_true : (a : Bool) {b : Bool} → b ≡ true → (a || b) ≡ true
or_true a h = ground (arith, h)

or_false : {a b : Bool} → a ≡ false → b ≡ false → (a || b) ≡ false
or_false h k = rw (h, k) refl

after16_lem : (top : ℕ) → top < 2 ^ 16 - 1 → (l : ℕ) → l ≤ top → after16 l ≡ l + 1
unfolding after16
after16_lem top small l le = omega arith

suc_pred : (level top : ℕ) → level < top → level + suc (top - level - 1) ≡ top
suc_pred level top lt = omega arith

-- Tries that do not pay for reaching the level `top`, up to which the table grows and fits the 32 bits of
-- the vocation's cache, raise a skill by as many levels as they pay for, and what is left over is kept:
-- none are lost, and they are fewer than the next level needs. The cache holds values of the table before,
-- and still does.
pub add_skill_advance-Spent :
    (on_gain req : ℕ → ℕ) (cache : Cache) (top : ℕ) (k : Skill) (count : ℕ)
    → top < 2 ^ 16 - 1
    → ((l : ℕ) → l < top → req l < req (l + 1))
    → ((l : ℕ) → l ≤ top → req l < 2 ^ 32)
    → Coherent 32 req cache
    → k.level < top
    → k.tries < req (k.level + 1)
    → k.tries + on_gain count < needed req k.level (top - k.level)
    → k.tries + on_gain count < 2 ^ 64
    → let (k', _, cache') = add_skill_advance on_gain req cache k count in
      Spent req top k.level k.tries (on_gain count) k'.level k'.tries × Coherent 32 req cache'
unfolding add_skill_advance
add_skill_advance-Spent on_gain req cache top k count narrow grows fits c lt some_left short small =
    let counts = after16_lem top narrow in
    let s0 = first_state 32 req after16 cache k.level k.tries (on_gain count) in
    let g =
      first_state-Going 32 req after16 top counts grows fits cache k.level k.tries (on_gain count) c
        lt some_left small in
    let ends = suc_pred k.level top lt in
    let short' : k.tries + on_gain count < needed req k.level (suc (top - k.level - 1)) =
      subst (λ r. k.tries + on_gain count < needed req k.level r) (omega arith) short in
    let (not_top, coherent, r) =
      spend-Spent 32 req after16 top counts grows fits (on_gain count) (top - k.level - 1) s0 g
        (unfold first_state in omega arith) (unfold first_state in ends)
        (unfold first_state in short') in
    elim (Bool-cases (on_gain count == 0)) [
      | inl h ↦
          rw (or_true s0.at_top h) (
            unspent req top k.level k.tries (on_gain count) lt some_left (ground arith),
            g.coherent,
          )
      | inr h ↦
          let s = spend 32 req after16 (on_gain count) s0 in
          let whole : (s.tries + (if s.at_top then 0 else s.left)) % 2 ^ 64 ≡ s.tries + s.left =
            rw not_top (unfold first_state in omega (arith, r.paid)) in
          rw (or_false g.not_top h, whole) (unfold first_state in r, coherent)
    ]
