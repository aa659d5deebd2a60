-- ===== src/Party/Members.antt =====
-- Who is in a party: the members' operations of src/party.cpp, and the invitations of player.cpp.
-- The player pointers that they are given are never null.
use baiakthunder.Base.{
  ℕ, Bool, true, false, ◌&&◌, ◌||◌, not, none, some, List, [], ◌∷◌, ◌++◌, ◌==◌, if◌then◌else◌,
}
use baiakthunder.Party.{
  Player, Party, World, Env, Notice, Text, update, contains, remove, is_empty, points_to, each,
  to_leader, notify, put_party, set_party, add_party_invitation, remove_party_invitation,
  is_empty_party, is_player_invited,
}
use baiakthunder.Party.Notice.{
  close_party_channel, shield_update, creature_skull, creature_shield, text,
}
use baiakthunder.Party.Text.{disbanded, left, joined, leads, revoked, invited}
use baiakthunder.Party.Experience.{update_shared_experience, clear_player_points}

-- Player::sendPlayerPartyIcons
abbrev pub party_icons_of : ℕ → ℕ → List Notice
party_icons_of x y = creature_shield x y ∷ creature_skull x y ∷ []

-- Party::broadcastPartyMessage
unfoldable pub broadcast : Party → Text → Bool → List Notice
broadcast pt t to_invitations =
    each pt.members (λ m. text m t ∷ [])
    ++ to_leader pt.leader (λ l. text l t ∷ [])
    ++ (if to_invitations then each pt.invitees (λ i. text i t ∷ []) else [])

-- The loops of `disband` over the invitees and over the members.
unfoldable pub forget_invitation : ℕ → List ℕ → (ℕ → Player) → ℕ → Player
forget_invitation p [] ps = ps
forget_invitation p (i ∷ is) ps = forget_invitation p is (remove_party_invitation ps i p)

unfoldable pub release_members : List ℕ → (ℕ → Player) → ℕ → Player
release_members [] ps = ps
release_members (m ∷ ms) ps = release_members ms (set_party ps m none)

unfoldable pub disband_notices : Party → ℕ → List Notice
disband_notices pt l =
    (close_party_channel l ∷ shield_update l ∷ creature_skull l l ∷ text l disbanded ∷ [])
    ++ each pt.invitees (λ i. creature_shield l i ∷ [])
    ++ each pt.members (λ m. close_party_channel m ∷ text m disbanded ∷ [])
    ++ each pt.members (λ m.
      (shield_update m ∷ [])
      ++ each pt.members (λ o. creature_skull o m ∷ [])
      ++ (creature_skull m l ∷ creature_skull l m ∷ []))

-- Party::disband. The object is deleted at the end.
unfoldable pub disband : Env → World → ℕ → World
disband env w p =
    let pt = w.party p in
    if env.on_disband p
    then elim pt.leader [
      | none ↦ w
      | some l ↦
          notify
            (record w {
              player =
                  release_members pt.members
                    (forget_invitation p pt.invitees (set_party w.player l none));
              party = update w.party p (record pt { leader = none; members = []; invitees = [] });
              live = update w.live p false;
            })
            (disband_notices pt l)
    ]
    else w

-- Party::removeInvite
unfoldable pub remove_invite : Env → World → ℕ → ℕ → Bool → World × Bool
remove_invite env w p x remove_from_player =
    let pt = w.party p in
    let pt' : Party = record pt { invitees = remove x pt.invitees } in
    let w1 =
      notify (put_party w p pt')
        (to_leader pt.leader (λ l. creature_shield l x ∷ creature_shield x l ∷ [])) in
    let w2 : World =
      if remove_from_player
      then record w1 { player = remove_party_invitation w1.player x p }
      else w1 in
    if contains x pt.invitees
    then (if is_empty_party pt' then disband env w2 p else w2, true)
    else (w, false)

-- The loop of Player::clearPartyInvitations over the inviting parties.
unfoldable pub withdraw : Env → World → ℕ → List ℕ → World
withdraw env w x [] = w
withdraw env w x (p ∷ ps) = withdraw env (remove_invite env w p x false).0 x ps

-- Player::clearPartyInvitations
unfoldable pub clear_party_invitations : Env → World → ℕ → World
clear_party_invitations env w x =
    let w1 = withdraw env w x (w.player x).invitations in
    record w1 { player = update w1.player x (record (w1.player x) { invitations = [] }) }

-- Party::revokeInvitation
unfoldable pub revoke_invitation : Env → World → ℕ → ℕ → World
revoke_invitation env w p x =
    (remove_invite env
      (notify w (text x revoked ∷ to_leader (w.party p).leader (λ l. text l revoked ∷ []))) p x
      true).0

-- Party::invitePlayer
unfoldable pub invite_player : World → ℕ → ℕ → World × Bool
invite_player w p x =
    let pt = w.party p in
    if is_player_invited pt x then (w, false) else (
      notify
          (record w {
            party = update w.party p (record pt { invitees = pt.invitees ++ x ∷ [] });
            player = add_party_invitation w.player x p;
          })
          (to_leader pt.leader (λ l.
              (if is_empty_party pt then shield_update l ∷ creature_skull l l ∷ [] else [])
              ++ (text l invited ∷ creature_shield l x ∷ creature_shield x l ∷ []))
            ++ each pt.members (λ m. creature_shield m x ∷ [])
            ++ (text x invited ∷ [])),
      true,
    )

-- Party::passPartyLeadership
unfoldable pub pass_party_leadership : Env → World → ℕ → ℕ → World × Bool
pass_party_leadership env w p x =
    let pt = w.party p in
    let rest : Party = record pt { members = remove x pt.members } in
    elim pt.leader [
      | none ↦ (w, false)
      | some old ↦
          let pt' : Party = record pt { leader = some x; members = old ∷ remove x pt.members } in
          let w1 = notify (put_party w p pt') (broadcast rest leads true) in
          let w2 = update_shared_experience env w1 p in
          let icons = λ (i : ℕ). creature_shield i old ∷ creature_shield i x ∷ [] in
          if x == old || not (points_to (w.player x).party p) then (w, false) else (
            notify w2 (
                each pt'.members icons
                ++ each pt'.invitees icons
                ++ icons x
                ++ (text x leads ∷ [])),
            true,
          )
    ]

-- The shields and skulls that are sent when somebody joins.
unfoldable pub welcome : Party → ℕ → List Notice
welcome pt x =
    (shield_update x ∷ [])
    ++ each pt.members (λ m. creature_skull m x ∷ party_icons_of x m)
    ++ (creature_skull x x ∷ [])
    ++ to_leader pt.leader (λ l. creature_skull l x ∷ party_icons_of x l)
    ++ (creature_skull x x ∷ [])
    ++ each pt.invitees (λ i. creature_shield x i ∷ [])

-- The part of Party::joinParty behind the first member's case.
unfoldable pub admit : Env → World → ℕ → ℕ → World
admit env w p x =
    let pt = w.party p in
    let pt' : Party = record pt { members = pt.members ++ x ∷ [] } in
    let w1 =
      notify (record w { party = update w.party p pt'; player = set_party w.player x (some p) })
        (broadcast pt' joined false) in
    let w2 = clear_party_invitations env w1 x in
    let w3 = notify w2 (welcome (w2.party p) x) in
    notify (update_shared_experience env w3 p) (text x joined ∷ [])

-- Party::joinParty
unfoldable pub join_party : Env → World → ℕ → ℕ → World × Bool
join_party env w p x =
    let pt = w.party p in
    let w1 : World =
      if is_empty pt.members
      then elim pt.leader [ none ↦ w | some l ↦ clear_party_invitations env w l ]
      else w in
    if env.on_join p x then (admit env w1 p x, true) else (w, false)

-- The leader's case of Party::leaveParty: who leads then, and whether anyone does.
unfoldable pub hand_on : Env → World → ℕ → ℕ → World × Bool
hand_on env w p x =
    let pt = w.party p in
    if not (points_to pt.leader x) then (w, false) else elim pt.members [
      | [] ↦ (w, true)
      | m ∷ ms ↦
          if is_empty ms && is_empty pt.invitees
          then (w, true)
          else ((pass_party_leadership env w p m).0, false)
    ]

-- The member's case: taken off the list, and told.
unfoldable pub detach : World → ℕ → ℕ → World
detach w p x =
    let pt = w.party p in
    let ms = remove x pt.members in
    notify
      (record w {
        party = update w.party p (record pt { members = ms });
        player = set_party w.player x none;
      })
      ((close_party_channel x ∷ shield_update x ∷ [])
        ++ each ms (λ m. creature_skull m x ∷ party_icons_of x m)
        ++ to_leader pt.leader (λ l. creature_skull l x ∷ creature_skull x x ∷ party_icons_of x l)
        ++ each pt.invitees (λ i. creature_shield x i ∷ [])
        ++ (text x left ∷ []))

-- Party::leaveParty
unfoldable pub leave_party : Env → World → ℕ → ℕ → World × Bool
leave_party env w p x =
    let pt = w.party p in
    let (w1, missing_leader) = hand_on env w p x in
    let w2 = update_shared_experience env (detach w1 p x) p in
    let w3 = clear_player_points env w2 p x in
    let w4 = notify w3 (broadcast (w3.party p) left false) in
    if not (points_to (w.player x).party p) && not (points_to pt.leader x)
    then (w, false)
    else if not (env.on_leave p x)
    then (w, false)
    else (if missing_leader || is_empty_party (w4.party p) then disband env w4 p else w4, true)

-- Party::canOpenCorpse
unfoldable pub can_open_corpse : World → ℕ → ℕ → Bool
can_open_corpse w p owner =
    if w.online owner
    then points_to (w.party p).leader owner || points_to (w.player owner).party p
    else false
