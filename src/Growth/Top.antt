-- ===== src/Growth/Top.antt =====
-- The last level of a table in src/player.cpp, and what the client of a player is sent of it.
use baiakthunder.Base.{
  ℕ, zero, suc, ◌+◌, ◌%◌, ◌^◌, ◌<◌, ◌≤◌, ◌≡◌, refl, sym, ap, ◌∙◌, subst, arith, Bool, true, false,
  ltb, leb, ◌==◌, ◌||◌, if◌then◌else◌, [], ◌∷◌,
}
use baiakthunder.Growth.{Player, Skill}
use baiakthunder.Growth.Tries.{
  Cache, level_text, skills, Spending, get_req, pay_level, spend, first_state, after16, after32,
  percent_of, add_skill_advance, add_mana_spent,
}
use baiakthunder.Growth.Vocations.{Coherent, get_req-Read}

-- The next level is the last one, it is reached by the tries that are added, and it fits the cache.
pub record IsLast (width : ℕ) (req : ℕ → ℕ) (level tries count : ℕ) : Type 0 where
  pub grows : req level < req (level + 1)
  pub ends : req (level + 2) ≤ req (level + 1)
  pub fits : req (level + 1) < 2 ^ width
  pub short : tries < req (level + 1)
  pub reached : req (level + 1) ≤ tries + count
  pub small : tries + count < 2 ^ 64

if_yes :
    {A : Type 0} (b c : Bool) (x y z : A)
    → b ≡ true
    → c ≡ true
    → (if b then (if c then x else y) else z) ≡ x
if_yes b c x y z h k = rw (h, k) refl

or_false : {a b : Bool} → a ≡ false → b ≡ false → (a || b) ≡ false
or_false h k = rw (h, k) refl

leb-false : {a b c d : ℕ} → a ≡ c → b ≡ d → d < c → leb a b ≡ false
leb-false h k lt = ground (arith, h, k, lt)

leb-true : {a b c d : ℕ} → a ≡ c → b ≡ d → c ≤ d → leb a b ≡ true
leb-true h k le = ground (arith, h, k, le)

-- The loop's variables behind the last level.
record Ended (s : Spending) (level : ℕ) : Type 0 where
  level_lem : s.level ≡ level
  tries : s.tries ≡ 0
  advanced : s.advanced ≡ true
  at_top : s.at_top ≡ true
  sent : s.sent ≡ level_text level ∷ []
  percent : percent_of s 0 ≡ 0

flat :
    (width : ℕ) (req after : ℕ → ℕ) (s : Spending)
    → (pay_level width req after s).at_top ≡ true
    → ltb (pay_level width req after s).curr (pay_level width req after s).next ≡ false
unfolding pay_level
flat width req after s h = ground (arith, h)

module _ (width : ℕ) (req after : ℕ → ℕ) (cache : Cache) (level tries count : ℕ)
    (c : Coherent width req cache) (one : after level ≡ level + 1)
    (two : after (level + 1) ≡ level + 2) (l : IsLast width req level tries count) where
  -- What the three reads of the cache answer.
  record Reads (s0 : Spending) : Type 0 where
    curr : s0.curr ≡ req level
    next : s0.next ≡ req (level + 1)
    behind : (pay_level width req after s0).next ≡ req (level + 2)

  first_state-Reads : Reads (first_state width req after cache level tries count)
  unfolding first_state pay_level
  first_state-Reads =
      let entry : req (after level) ≡ req (level + 1) = ap req one in
      let next : req (after (after level)) ≡ req (level + 2) = ap req (ap after one ∙ two) in
      let r0 = get_req-Read width req cache level c (omega (arith, l.grows, l.fits)) in
      let r1 =
        get_req-Read width req (get_req width req cache level).1 (after level) r0.coherent
          (omega (arith, entry, l.fits)) in
      let r2 =
        get_req-Read width req (get_req width req (get_req width req cache level).1 (after level)).1
          (after (after level)) r1.coherent (omega (arith, next, l.ends, l.fits)) in
      record { curr = r0.value; next = r1.value ∙ entry; behind = r2.value ∙ next }

  first_open : (first_state width req after cache level tries count).at_top ≡ false
  unfolding first_state
  first_open = let r = first_state-Reads in leb-false r.next r.curr l.grows

  pay_last :
      (pay_level width req after (first_state width req after cache level tries count)).at_top
      ≡ true
  unfolding pay_level
  pay_last = let r = first_state-Reads in leb-true r.behind r.next l.ends

  spend_last :
      (n : ℕ)
      → n ≡ count
      → let s0 = first_state width req after cache level tries count in
        spend width req after n s0 ≡ pay_level width req after s0
  unfolding spend first_state
  spend_last zero e = absurd (omega (arith, l.short, l.reached, e))
  spend_last (suc n) e =
      let r = first_state-Reads in
      let go_on : leb (first_state width req after cache level tries count).next
            ((tries + count) % 2 ^ 64)
          ≡ true =
        ground (arith, r.next, l.reached, l.small) in
      if_yes _ _ _ _ _ go_on pay_last

  spend-Ended :
      Ended
        (spend width req after count (first_state width req after cache level tries count))
        (level + 1)
  spend-Ended =
      let s0 = first_state width req after cache level tries count in
      subst (λ s. Ended s (level + 1)) (sym (spend_last count refl))
        (record {
          level_lem = unfold pay_level first_state in one;
          tries = unfold pay_level in refl;
          advanced = unfold pay_level in refl;
          at_top = pay_last;
          sent = unfold pay_level first_state in ap (λ m. level_text m ∷ []) one;
          percent = unfold percent_of in (rw (flat width req after s0 pay_last) refl);
        })

skill_sent :
    (on_gain req : ℕ → ℕ) (cache : Cache) (k : Skill) (count : ℕ)
    → after16 k.level ≡ k.level + 1
    → after16 (k.level + 1) ≡ k.level + 2
    → Coherent 32 req cache
    → IsLast 32 req k.level k.tries (on_gain count)
    → let (k', sent, _) = add_skill_advance on_gain req cache k count in
      (k' ≡ record { tries = 0; level = k.level + 1; percent = 0 })
      × (sent ≡ level_text (k.level + 1) ∷ skills ∷ [])
unfolding add_skill_advance percent_of
skill_sent on_gain req cache k count one two c l =
    let e = spend-Ended 32 req after16 cache k.level k.tries (on_gain count) c one two l in
    let open_still = first_open 32 req after16 cache k.level k.tries (on_gain count) c one two l in
    let some_left : (on_gain count == 0) ≡ false = ground (arith, l.short, l.reached) in
    rw
      (or_false open_still some_left, e.at_top, e.tries, e.advanced, e.level_lem, e.sent, e.percent)
      (refl, refl)

mana_sent :
    (on_gain : ℕ → ℕ) (cache : Cache) (p : Player) (count : ℕ)
    → after32 p.mag_level ≡ p.mag_level + 1
    → after32 (p.mag_level + 1) ≡ p.mag_level + 2
    → p.not_gain_mana ≡ false
    → Coherent 64 p.vocation.req_mana cache
    → IsLast 64 p.vocation.req_mana p.mag_level p.mana_spent (on_gain count)
    → let (p', sent, _) = add_mana_spent on_gain cache p count in
      (p' ≡ record p { mag_level = p.mag_level + 1; mana_spent = 0 })
      × (sent ≡ level_text (p.mag_level + 1) ∷ [])
unfolding add_mana_spent
mana_sent on_gain cache p count one two may c l =
    let req = p.vocation.req_mana in
    let e = spend-Ended 64 req after32 cache p.mag_level p.mana_spent (on_gain count) c one two l in
    let open_still =
      first_open 64 req after32 cache p.mag_level p.mana_spent (on_gain count) c one two l in
    let some_left : (on_gain count == 0) ≡ false = ground (arith, l.short, l.reached) in
    rw (may, or_false open_still some_left, e.at_top, e.level_lem, e.sent) (refl, refl)

-- Reaching the last level, a skill is set to 0 percent, and the client is sent the text and the skills. A
-- magic level keeps the percentage of the level before, and the client is sent the text only, without
-- stats and skills. The caches hold values of their tables, and the last level fits them.
pub add_mana_spent_text_only :
    (on_gain req : ℕ → ℕ) (cache cache' : Cache) (k : Skill) (p : Player) (count : ℕ)
    → k.level + 2 < 2 ^ 16
    → Coherent 32 req cache
    → IsLast 32 req k.level k.tries (on_gain count)
    → p.mag_level + 2 < 2 ^ 32
    → p.not_gain_mana ≡ false
    → Coherent 64 p.vocation.req_mana cache'
    → IsLast 64 p.vocation.req_mana p.mag_level p.mana_spent (on_gain count)
    → let (k', sent, _) = add_skill_advance on_gain req cache k count in
      let (p', sent', _) = add_mana_spent on_gain cache' p count in
      (k' ≡ record { tries = 0; level = k.level + 1; percent = 0 })
      × (sent ≡ level_text (k.level + 1) ∷ skills ∷ [])
      × (p' ≡ record p { mag_level = p.mag_level + 1; mana_spent = 0 })
      × (sent' ≡ level_text (p.mag_level + 1) ∷ [])
add_mana_spent_text_only on_gain req cache cache' k p count narrow c last wide may c' last' =
    let one : after16 k.level ≡ k.level + 1 = unfold after16 in omega arith in
    let two : after16 (k.level + 1) ≡ k.level + 2 = unfold after16 in omega arith in
    let one' : after32 p.mag_level ≡ p.mag_level + 1 = unfold after32 in omega arith in
    let two' : after32 (p.mag_level + 1) ≡ p.mag_level + 2 = unfold after32 in omega arith in
    let (k_lem, sent_lem) = skill_sent on_gain req cache k count one two c last in
    let (p_lem, sent_lem') = mana_sent on_gain cache' p count one' two' may c' last' in
    (k_lem, sent_lem, p_lem, sent_lem')
