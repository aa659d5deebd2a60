-- ===== src/Party/Sharing.antt =====
-- When the members of a party share experience (src/party.cpp).
use baiakthunder.Base.{
  ℕ, ◌+◌, ◌-◌, ◌*◌, ◌%◌, ◌^◌, ◌≤◌, ◌≡◌, ◌≢◌, ◌⊎◌, ◌↔◌, ◌∙◌, sym, refl, inl, inr, Bool, true, false,
  some, List, [], ◌∷◌, arith, ltb, if◌then◌else◌, All, Bool-cases, Option-cases,
}
use baiakthunder.Position.{are_in_range}
use baiakthunder.Party.{is_empty, Party, World, Env, points_to}
use baiakthunder.Party.Experience.{
  highest_level, min_level, is_active, all_can, can_use_shared_experience,
  can_enable_shared_experience, bool_eq, update_shared_experience, set_shared_experience,
}

-- A level of at least two thirds of another.
abbrev pub IsClose : World → ℕ → ℕ → Type 0
IsClose w x y = 2 * (w.player y).level ≤ 3 * (w.player x).level

highest_level-ge : (w : World) (h : ℕ) (ms : List ℕ) → h ≤ highest_level w h ms
unfolding highest_level
highest_level-ge w h [] = omega arith
highest_level-ge w h (m ∷ ms) =
    ground
      (arith, highest_level-ge w (if ltb h (w.player m).level then (w.player m).level else h) ms)

highest_level-All :
    (w : World) (h : ℕ) (ms : List ℕ) → All (λ m. (w.player m).level ≤ highest_level w h ms) ms
unfolding highest_level
highest_level-All w h [] = tt
highest_level-All w h (m ∷ ms) = (
  ground
      (arith, highest_level-ge w (if ltb h (w.player m).level then (w.player m).level else h) ms),
  highest_level-All w (if ltb h (w.player m).level then (w.player m).level else h) ms,
)

IsClose-to_all :
    (w : World) (x top : ℕ) (ms : List ℕ)
    → 2 * top ≤ 3 * (w.player x).level
    → All (λ m. (w.player m).level ≤ top) ms
    → All (λ m. IsClose w x m) ms
IsClose-to_all w x top [] h a = tt
IsClose-to_all w x top (m ∷ ms) h a = (omega (arith, a.0), IsClose-to_all w x top ms h a.1)

highest_level-IsClose :
    (w : World) (x h : ℕ) (ms : List ℕ)
    → 2 * h ≤ 3 * (w.player x).level
    → All (λ m. IsClose w x m) ms
    → 2 * highest_level w h ms ≤ 3 * (w.player x).level
unfolding highest_level
highest_level-IsClose w x h [] close all = close
highest_level-IsClose w x h (m ∷ ms) close all =
    highest_level-IsClose w x (if ltb h (w.player m).level then (w.player m).level else h) ms
      (ground (arith, all.0)) all.1

-- A player who gains experience in no fight is always active; another has to have done something, at a
-- time that is no longer ago than the fight lasts.
abbrev pub IsActive : Env → World → Party → ℕ → Type 0
IsActive env w pt x =
    ((w.player x).not_gain_in_fight ≡ true)
    ⊎ ((t : ℕ) × (pt.ticks x ≡ some t) × ((w.time + (2 ^ 64 - t)) % 2 ^ 64 ≤ env.pz_locked))

-- What the party led by `l` asks of a player who is to share experience.
pub record MayShare (env : Env) (w : World) (pt : Party) (l x : ℕ) : Type 0 where
  pub members : pt.members ≢ []
  pub leader_level : IsClose w x l
  pub member_levels : All (λ m. IsClose w x m) pt.members
  pub near_leader : are_in_range 30 30 1 (w.player l).position (w.player x).position ≡ true
  pub active : IsActive env w pt x

is_active-IsActive :
    (env : Env) (w : World) (pt : Party) (x : ℕ) → is_active env w pt x ≡ true → IsActive env w pt x
unfolding is_active
is_active-IsActive env w pt x h = elim (Bool-cases (w.player x).not_gain_in_fight) [
  | inl yes_flag ↦ inl yes_flag
  | inr flag ↦ elim (Option-cases (pt.ticks x)) [
    | inl e ↦ absurd (ground (arith, h, flag, e))
    | inr (t, e) ↦ inr (t, e, ground (arith, h, flag, e))
  ]
]

IsActive-is_active :
    (env : Env) (w : World) (pt : Party) (x : ℕ) → IsActive env w pt x → is_active env w pt x ≡ true
unfolding is_active
IsActive-is_active env w pt x (inl h) = rw h refl
IsActive-is_active env w pt x (inr (t, e, recent)) = ground (arith, e, recent)

highest : World → ℕ → Party → ℕ
highest w l pt = highest_level w (w.player l).level pt.members

-- The tests of canUseSharedExperience, one by one
tests_passed :
    (env : Env) (w : World) (pt : Party) (x l : ℕ)
    → pt.leader ≡ some l
    → can_use_shared_experience env w pt x ≡ true
    → (is_empty pt.members ≡ false)
      × (2 * highest w l pt ≤ 3 * (w.player x).level)
      × (are_in_range 30 30 1 (w.player l).position (w.player x).position ≡ true)
      × (is_active env w pt x ≡ true)
unfolding can_use_shared_experience highest min_level
tests_passed env w pt x l e h =
    (ground (arith, h, e), ground (arith, h, e), ground (arith, h, e), ground (arith, h, e))

pass_tests :
    (env : Env) (w : World) (pt : Party) (x l : ℕ)
    → pt.leader ≡ some l
    → is_empty pt.members ≡ false
    → 2 * highest w l pt ≤ 3 * (w.player x).level
    → are_in_range 30 30 1 (w.player l).position (w.player x).position ≡ true
    → is_active env w pt x ≡ true
    → can_use_shared_experience env w pt x ≡ true
unfolding can_use_shared_experience highest min_level
pass_tests env w pt x l e some_members close near active =
    ground (arith, e, some_members, close, near, active)

is_empty_none : (ms : List ℕ) → is_empty ms ≡ false → ms ≢ []
is_empty_none [] h e = absurd cc
is_empty_none (m ∷ ms) h e = absurd cc

none_is_empty : (ms : List ℕ) → ms ≢ [] → is_empty ms ≡ false
none_is_empty [] h = absurd (h refl)
none_is_empty (m ∷ ms) h = refl

-- A party lets a player share experience exactly if the party has members, the player has at least two
-- thirds of the level of its leader and of every member, is in range of the leader, and has been active.
-- Whether the player is in the party is not asked.
pub can_use_shared_experience-MayShare :
    (env : Env) (w : World) (pt : Party) (x l : ℕ)
    → pt.leader ≡ some l
    → (can_use_shared_experience env w pt x ≡ true) ↔ MayShare env w pt l x
can_use_shared_experience-MayShare env w pt x l e = (
  λ h.
      let (some_members, close, near, active) = tests_passed env w pt x l e h in
      record {
        members = is_empty_none pt.members some_members;
        leader_level =
            unfold highest in
            omega (arith, close, highest_level-ge w (w.player l).level pt.members);
        member_levels =
            unfold highest in
            IsClose-to_all w x (highest_level w (w.player l).level pt.members) pt.members close
              (highest_level-All w (w.player l).level pt.members);
        near_leader = near;
        active = is_active-IsActive env w pt x active;
      },
  λ m.
      pass_tests env w pt x l e (none_is_empty pt.members m.members)
        (unfold highest in
          highest_level-IsClose w x (w.player l).level pt.members m.leader_level m.member_levels)
        m.near_leader (IsActive-is_active env w pt x m.active),
)

all_can-MayShare :
    (env : Env) (w : World) (pt : Party) (l : ℕ) (ms : List ℕ)
    → pt.leader ≡ some l
    → (all_can env w pt ms ≡ true) ↔ All (MayShare env w pt l) ms
unfolding all_can
all_can-MayShare env w pt l [] e = (λ h. tt, λ h. refl)
all_can-MayShare env w pt l (m ∷ ms) e =
    let (to, from) = can_use_shared_experience-MayShare env w pt m l e in
    let (to_rest, from_rest) = all_can-MayShare env w pt l ms e in
    (
      λ h. (to (ground (arith, h)), to_rest (ground (arith, h))),
      λ a. ground (arith, from a.0, from_rest a.1),
    )

can_enable-MayShare :
    (env : Env) (w : World) (pt : Party) (l : ℕ)
    → pt.leader ≡ some l
    → (can_enable_shared_experience env w pt ≡ true)
      ↔ (MayShare env w pt l l × All (MayShare env w pt l) pt.members)
unfolding can_enable_shared_experience
can_enable-MayShare env w pt l e =
    let (to, from) = can_use_shared_experience-MayShare env w pt l l e in
    let (to_rest, from_rest) = all_can-MayShare env w pt l pt.members e in
    (
      λ h. (to (ground (arith, h, e)), to_rest (ground (arith, h, e))),
      λ a. ground (arith, e, from a.0, from_rest a.1),
    )

settled :
    (env : Env) (w : World) (p q : ℕ)
    → (w.party p).shared_active ≡ true
    → q ≢ p
    → let w' = update_shared_experience env w p in
      ((w'.party p).shared_enabled ≡ can_enable_shared_experience env w (w.party p))
      × ((w'.party p).members ≡ (w.party p).members)
      × ((w'.party p).leader ≡ (w.party p).leader)
      × ((w'.party p).invitees ≡ (w.party p).invitees)
      × (w'.party q ≡ w.party q)
      × (w'.player ≡ w.player)
unfolding update_shared_experience bool_eq
settled env w p q h ne = ground arith

-- After the update of a party with a leader that shares, it is marked as enabled exactly if its leader
-- and every member may share: the party has members, and each of them has at least two thirds of the
-- level of the leader and of every member, is in range of the leader and has been active. Its members,
-- its leader and its invitees, every other party and all players are as they were.
pub update_shared_experience_settles :
    (env : Env) (w : World) (p q l : ℕ)
    → (w.party p).shared_active ≡ true
    → (w.party p).leader ≡ some l
    → q ≢ p
    → let w' = update_shared_experience env w p in
      let pt = w.party p in
      (((w'.party p).shared_enabled ≡ true)
        ↔ (MayShare env w pt l l × All (MayShare env w pt l) pt.members))
      × ((w'.party p).members ≡ pt.members)
      × ((w'.party p).leader ≡ pt.leader)
      × ((w'.party p).invitees ≡ pt.invitees)
      × (w'.party q ≡ w.party q)
      × (w'.player ≡ w.player)
update_shared_experience_settles env w p q l h e ne =
    let (mark, ms, lead, inv, other, players) = settled env w p q h ne in
    let (to, from) = can_enable-MayShare env w (w.party p) l e in
    ((λ k. to (sym mark ∙ k), λ k. mark ∙ from k), ms, lead, inv, other, players)

-- Only the leader switches shared experience: for the leader the call succeeds and the switch is as
-- asked, and anyone else is refused, with the whole world as it was.
pub set_shared_experience_lem :
    (env : Env) (w : World) (p x : ℕ) (active : Bool)
    → let (w', ok) = set_shared_experience env w p x active in
      let leads = points_to (w.party p).leader x in
      (ok ≡ leads)
      × (w' ≡ (if leads then w' else w))
      × ((w'.party p).shared_active ≡ (if leads then active else (w.party p).shared_active))
unfolding set_shared_experience bool_eq
set_shared_experience_lem env w p x active = (ground arith, ground arith, ground arith)
