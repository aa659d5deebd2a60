-- ===== src/Growth/Tries.antt =====
-- The magic level and the skills of a player in src/player.cpp, by mana spent and by tries.
use baiakthunder.Base.{
  ℕ, zero, suc, ◌+◌, ◌-◌, ◌%◌, ◌^◌, Bool, true, false, not, ltb, leb, ◌==◌, ◌||◌, if◌then◌else◌,
  Option, none, some, List, [], ◌∷◌, ◌++◌,
}
use baiakthunder.Growth.{Player, Skill, get_percent_level}

-- Vocation::cacheSkill of one skill, or Vocation::cacheMana
abbrev pub Cache : Type 0
Cache = ℕ → Option ℕ

-- Vocation::getReqSkillTries and getReqMana: what a level needs is computed once, and then read from a map
-- of values of so many bits. What is computed in floating point is the second argument.
unfoldable pub get_req : ℕ → (ℕ → ℕ) → Cache → ℕ → ℕ × Cache
get_req width computed cache level = elim (cache level) [
  | none ↦ (computed level, λ l. if l == level then some (computed level % 2 ^ width) else cache l)
  | some v ↦ (v, cache)
]

-- What the client is sent: a text that names the new level, the stats, and the skills.
pub data Sent : Type 0 where
  level_text : ℕ → Sent
  stats skills : Sent

-- The variables of the loop, what has been sent and cached, and whether it went round and broke off.
pub record Spending : Type 0 where
  pub level : ℕ
  pub tries : ℕ
  pub left : ℕ
  pub curr : ℕ
  pub next : ℕ
  pub sent : List Sent
  pub cache : Cache
  pub advanced : Bool
  pub at_top : Bool

-- One more level for what it needs. `width` and `computed` are those of the cache, and `after` is the
-- level after a level, in its width.
unfoldable pub pay_level : ℕ → (ℕ → ℕ) → (ℕ → ℕ) → Spending → Spending
pay_level width computed after s =
    let (next, cache) = get_req width computed s.cache (after (after s.level)) in
    record {
      level = after s.level;
      tries = 0;
      left = (s.left + s.tries + (2 ^ 64 - s.next)) % 2 ^ 64;
      curr = s.next;
      next = next;
      sent = s.sent ++ level_text (after s.level) ∷ [];
      cache = cache;
      advanced = true;
      at_top = leb next s.next;
    }

-- `while (tries + count >= nextReqTries)`. The number before the state is fuel.
unfoldable pub spend : ℕ → (ℕ → ℕ) → (ℕ → ℕ) → ℕ → Spending → Spending
spend width computed after zero s = s
spend width computed after (suc n) s =
    let s' = pay_level width computed after s in
    let rest = spend width computed after n s' in
    if leb s.next ((s.tries + s.left) % 2 ^ 64) then (if s'.at_top then s' else rest) else s

unfoldable pub first_state : ℕ → (ℕ → ℕ) → (ℕ → ℕ) → Cache → ℕ → ℕ → ℕ → Spending
first_state width computed after cache level tries count =
    let (curr, cache1) = get_req width computed cache level in
    let (next, cache2) = get_req width computed cache1 (after level) in
    record {
      level = level;
      tries = tries;
      left = count;
      curr = curr;
      next = next;
      sent = [];
      cache = cache2;
      advanced = false;
      at_top = leb next curr;
    }

unfoldable pub after16 : ℕ → ℕ
after16 l = (l + 1) % 2 ^ 16

unfoldable pub after32 : ℕ → ℕ
after32 l = (l + 1) % 2 ^ 32

unfoldable pub percent_of : Spending → ℕ → ℕ
percent_of s tries = if ltb s.curr s.next then get_percent_level tries s.next else 0

-- Player::addSkillAdvance, of one skill: the skill, what the client is sent, and the vocation's cache,
-- which has 32 bits for the tries.
unfoldable pub add_skill_advance : (ℕ → ℕ) → (ℕ → ℕ) → Cache → Skill → ℕ → Skill × List Sent × Cache
add_skill_advance on_gain computed cache k count =
    let s0 = first_state 32 computed after16 cache k.level k.tries (on_gain count) in
    let s = spend 32 computed after16 (on_gain count) s0 in
    let tries = (s.tries + (if s.at_top then 0 else s.left)) % 2 ^ 64 in
    let percent = percent_of s tries in
    let old_percent = if s.advanced then 0 else k.percent in
    if s0.at_top || on_gain count == 0 then (k, [], s0.cache) else (
      record { tries = tries; level = s.level; percent = percent },
      s.sent ++ (if s.advanced || not (old_percent == percent) then skills ∷ [] else []),
      s.cache,
    )

-- Player::addManaSpent: the player, what the client is sent, and the vocation's cache, which has 64 bits
-- for the mana.
unfoldable pub add_mana_spent : (ℕ → ℕ) → Cache → Player → ℕ → Player × List Sent × Cache
add_mana_spent on_gain cache p amount =
    let computed = p.vocation.req_mana in
    let s0 = first_state 64 computed after32 cache p.mag_level p.mana_spent (on_gain amount) in
    let s = spend 64 computed after32 (on_gain amount) s0 in
    let spent = (s.tries + s.left) % 2 ^ 64 in
    let percent = percent_of s spent in
    if p.not_gain_mana
    then (p, [], cache)
    else if s0.at_top || on_gain amount == 0
    then (p, [], s0.cache)
    else if s.at_top
    then (record p { mag_level = s.level; mana_spent = 0 }, s.sent, s.cache)
    else (
      record p { mag_level = s.level; mana_spent = spent; mag_level_percent = percent },
      s.sent
          ++ (if s.advanced || not (p.mag_level_percent == percent)
              then stats ∷ skills ∷ []
              else []),
      s.cache,
    )
