-- ===== src/Party/Experience.antt =====
-- Shared experience in src/party.cpp: who may use it, and when the party's mark changes.
use baiakthunder.Base.{
  ℕ, ◌+◌, ◌-◌, ◌*◌, ◌/◌, ◌%◌, ◌^◌, Bool, true, false, ◌&&◌, not, none, some, List, [], ◌∷◌, ◌++◌,
  ltb, ◌==◌, if◌then◌else◌,
}
use baiakthunder.Position.{are_in_range}
use baiakthunder.Party.{
  Party, World, Env, Notice, update, is_empty, points_to, each, to_leader, notify, put_party,
  is_inviting, is_player_invited,
}
use baiakthunder.Party.Text.{shared_on, shared_on_inactive, shared_off}
use baiakthunder.Party.Notice.{creature_shield, text, gain}

unfoldable pub highest_level : World → ℕ → List ℕ → ℕ
highest_level w highest [] = highest
highest_level w highest (m ∷ ms) =
    highest_level w (if ltb highest (w.player m).level then (w.player m).level else highest) ms

-- std::ceil((highest * 2) / 3), in floats, which are exact for levels below 2^22
unfoldable pub min_level : ℕ → ℕ
min_level highest = (highest * 2 + 2) / 3

-- has healed or attacked anything recently
unfoldable pub is_active : Env → World → Party → ℕ → Bool
is_active env w pt x = if (w.player x).not_gain_in_fight then true else elim (pt.ticks x) [
  | none ↦ false
  | some t ↦ if ltb env.pz_locked ((w.time + (2 ^ 64 - t)) % 2 ^ 64) then false else true
]

-- Party::canUseSharedExperience
unfoldable pub can_use_shared_experience : Env → World → Party → ℕ → Bool
can_use_shared_experience env w pt x = if is_empty pt.members then false else elim pt.leader [
  | none ↦ false
  | some l ↦
      if ltb (w.player x).level (min_level (highest_level w (w.player l).level pt.members))
      then false
      else if not (are_in_range 30 30 1 (w.player l).position (w.player x).position)
      then false
      else is_active env w pt x
]

unfoldable pub all_can : Env → World → Party → List ℕ → Bool
all_can env w pt [] = true
all_can env w pt (m ∷ ms) =
    let rest = all_can env w pt ms in
    if not (can_use_shared_experience env w pt m) then false else rest

-- Party::canEnableSharedExperience
unfoldable pub can_enable_shared_experience : Env → World → Party → Bool
can_enable_shared_experience env w pt = elim pt.leader [
  | none ↦ false
  | some l ↦
      if not (can_use_shared_experience env w pt l) then false else all_can env w pt pt.members
]

-- Party::updateAllPartyIcons
unfoldable pub party_icons : Party → List Notice
party_icons pt =
    each pt.members (λ m.
      each pt.members (λ o. creature_shield m o ∷ [])
      ++ to_leader pt.leader (λ l. creature_shield m l ∷ creature_shield l m ∷ []))
    ++ to_leader pt.leader (λ l. creature_shield l l ∷ [])

unfoldable pub bool_eq : Bool → Bool → Bool
bool_eq true b = b
bool_eq false b = not b

-- Party::updateSharedExperience
unfoldable pub update_shared_experience : Env → World → ℕ → World
update_shared_experience env w p =
    let pt = w.party p in
    let result = can_enable_shared_experience env w pt in
    if pt.shared_active
    then if bool_eq result pt.shared_enabled
      then w
      else notify (put_party w p (record pt { shared_enabled = result })) (party_icons pt)
    else w

-- Party::setSharedExperience
unfoldable pub set_shared_experience : Env → World → ℕ → ℕ → Bool → World × Bool
set_shared_experience env w p x active =
    let pt = w.party p in
    let enabled = can_enable_shared_experience env w (record pt { shared_active = active }) in
    if not (points_to pt.leader x)
    then (w, false)
    else if bool_eq pt.shared_active active
    then (w, true)
    else if active
    then (
      notify (put_party w p (record pt { shared_active = active; shared_enabled = enabled }))
          (text x (if enabled then shared_on else shared_on_inactive) ∷ party_icons pt),
      true,
    )
    else (
      notify (put_party w p (record pt { shared_active = active }))
          (text x shared_off ∷ party_icons pt),
      true,
    )

-- Party::shareExperience
unfoldable pub share_experience : Env → World → ℕ → ℕ → World
share_experience env w p experience =
    let pt = w.party p in
    let share = env.on_share_experience p experience in
    notify w
      (each pt.members (λ m. gain m share ∷ []) ++ to_leader pt.leader (λ l. gain l share ∷ []))

-- Party::updatePlayerTicks
unfoldable pub update_player_ticks : Env → World → ℕ → ℕ → ℕ → World
update_player_ticks env w p x points =
    let pt = w.party p in
    if not (points == 0) && not (w.player x).not_gain_in_fight
    then update_shared_experience env
        (put_party w p (record pt { ticks = update pt.ticks x (some w.time) })) p
    else w

-- Party::clearPlayerPoints
unfoldable pub clear_player_points : Env → World → ℕ → ℕ → World
clear_player_points env w p x =
    let pt = w.party p in
    elim (pt.ticks x) [
      | none ↦ w
      | some t ↦
          update_shared_experience env
            (put_party w p (record pt { ticks = update pt.ticks x none })) p
    ]

pub data Shield : Type 0 where
  no_shield whiteyellow whiteblue blue yellow blue_shared yellow_shared blue_no_shared_blink
        blue_no_shared yellow_no_shared_blink yellow_no_shared :
      Shield

-- Player::getPartyShield, for a shield that `x` sees over `y`
unfoldable pub get_party_shield : Env → World → ℕ → ℕ → Shield
get_party_shield env w x y =
    let from_inviting = if is_inviting w y x then whiteyellow else no_shield in
    elim (w.player x).party [
      | none ↦ from_inviting
      | some p ↦
          let pt = w.party p in
          let shared = λ (plain enabled idle blink : Shield).
            if pt.shared_active
            then if pt.shared_enabled
              then enabled
              else if can_use_shared_experience env w pt y
              then idle
              else blink
            else plain in
          if points_to pt.leader y
          then shared yellow yellow_shared yellow_no_shared yellow_no_shared_blink
          else if points_to (w.player y).party p
          then shared blue blue_shared blue_no_shared blue_no_shared_blink
          else if is_player_invited pt y
          then whiteblue
          else from_inviting
    ]
