-- ===== src/Party/Commands.antt =====
-- The players' party commands of src/game.cpp, and what a logout does to the parties.
use baiakthunder.Base.{
  ℕ, suc, Bool, true, false, ◌&&◌, ◌||◌, not, none, some, [], ◌∷◌, ◌==◌, if◌then◌else◌,
}
use baiakthunder.Party.{World, Env, update, points_to, notify, set_party, is_inviting, is_partner}
use baiakthunder.Party.Notice.{text}
use baiakthunder.Party.Text.{already_in_party}
use baiakthunder.Party.Experience.{set_shared_experience}
use baiakthunder.Party.Members.{
  invite_player, join_party, revoke_invitation, pass_party_leadership, leave_party,
  clear_party_invitations,
}

-- Party::Party(leader), on a new object
unfoldable pub new_party : World → ℕ → World
new_party w l = record w {
  player = set_party w.player l (some w.next_party);
  party = update w.party w.next_party (record {
    leader = some l;
    members = [];
    invitees = [];
    ticks = λ i. none;
    shared_active = false;
    shared_enabled = false;
  });
  live = update w.live w.next_party true;
  next_party = suc w.next_party;
}

-- Game::playerInviteToParty
unfoldable pub player_invite_to_party : World → ℕ → ℕ → World
player_invite_to_party w x y =
    if x == y || not (w.online x) || not (w.online y) || is_inviting w y x
    then w
    else elim (w.player y).party [
      | some q ↦ notify w (text x already_in_party ∷ [])
      | none ↦ elim (w.player x).party [
        | none ↦ (invite_player (new_party w x) w.next_party y).0
        | some p ↦ if points_to (w.party p).leader x then (invite_player w p y).0 else w
      ]
    ]

-- Game::playerJoinParty
unfoldable pub player_join_party : Env → World → ℕ → ℕ → World
player_join_party env w x l =
    if not (w.online x) || not (w.online l) || not (is_inviting w l x)
    then w
    else elim (w.player l).party [
      | none ↦ w
      | some p ↦ if not (points_to (w.party p).leader l) then w else elim (w.player x).party [
        | some q ↦ notify w (text x already_in_party ∷ [])
        | none ↦ (join_party env w p x).0
      ]
    ]

-- Game::playerRevokePartyInvitation
unfoldable pub player_revoke_party_invitation : Env → World → ℕ → ℕ → World
player_revoke_party_invitation env w x y = if not (w.online x) then w else elim (w.player x).party [
  | none ↦ w
  | some p ↦
      if not (points_to (w.party p).leader x) || not (w.online y) || not (is_inviting w x y)
      then w
      else revoke_invitation env w p y
]

-- Game::playerPassPartyLeadership
unfoldable pub player_pass_party_leadership : Env → World → ℕ → ℕ → World
player_pass_party_leadership env w x y = if not (w.online x) then w else elim (w.player x).party [
  | none ↦ w
  | some p ↦
      if not (points_to (w.party p).leader x) || not (w.online y) || not (is_partner w x y)
      then w
      else (pass_party_leadership env w p y).0
]

-- Game::playerLeaveParty
unfoldable pub player_leave_party : Env → World → ℕ → World
player_leave_party env w x = if not (w.online x) then w else elim (w.player x).party [
  | none ↦ w
  | some p ↦ if (w.player x).in_fight then w else (leave_party env w p x).0
]

-- Game::playerEnableSharedPartyExperience
unfoldable pub player_enable_shared_party_experience : Env → World → ℕ → Bool → World
player_enable_shared_party_experience env w x active =
    if not (w.online x) then w else elim (w.player x).party [
      | none ↦ w
      | some p ↦
          if (w.player x).in_fight && not (w.player x).in_protection_zone
          then w
          else (set_shared_experience env w p x active).0
    ]

-- The party's part of Player::onRemoveCreature
unfoldable pub on_remove_player : Env → World → ℕ → World
on_remove_player env w x =
    let w1 = clear_party_invitations env w x in
    elim (w1.player x).party [ none ↦ w1 | some p ↦ (leave_party env w1 p x).0 ]

-- Game::removePlayer, which Player::removeList calls next
unfoldable pub remove_player : World → ℕ → World
remove_player w x = record w { online = update w.online x false }

pub data Command : Type 0 where
  invite join revoke pass : ℕ → ℕ → Command
  leave logout : ℕ → Command
  share : ℕ → Bool → Command

-- The dispatcher handles one request after another.
unfoldable pub step : Env → World → Command → World
step env w (invite x y) = player_invite_to_party w x y
step env w (join x l) = player_join_party env w x l
step env w (revoke x y) = player_revoke_party_invitation env w x y
step env w (pass x y) = player_pass_party_leadership env w x y
step env w (leave x) = player_leave_party env w x
step env w (logout x) = remove_player (on_remove_player env w x) x
step env w (share x active) = player_enable_shared_party_experience env w x active
