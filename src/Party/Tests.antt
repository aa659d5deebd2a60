-- ===== src/Party/Tests.antt =====
-- Three players through the commands of a party.
use baiakthunder.Base.{
  ℕ, ◌+◌, ◌≡◌, refl, true, false, none, some, List, [], ◌∷◌, arith, All, ◌↔◌, if◌then◌else◌, ◌==◌,
}
use baiakthunder.Party.{
  Player, World, Env, set_party, add_party_invitation, is_empty_party, is_player_invited,
  is_inviting,
}
use baiakthunder.Party.Experience.{
  can_use_shared_experience, update_shared_experience, clear_player_points,
}
use baiakthunder.Party.Members.{
  forget_invitation, release_members, disband, remove_invite, withdraw, clear_party_invitations,
  invite_player, pass_party_leadership, admit, join_party, hand_on, detach, leave_party,
}
use baiakthunder.Party.Commands.{
  new_party, player_invite_to_party, player_join_party, player_leave_party, Command, invite, join,
  leave, step,
}
use baiakthunder.Party.Commands.{logout}
use baiakthunder.Party.Coherence.{IsCoherent}
use baiakthunder.Party.Coherence.Histories.{run_commands, run_commands-IsCoherent}
use baiakthunder.Party.Coherence.Refusal.{leave_party_refused}
use baiakthunder.Party.Sharing.{
  MayShare, can_use_shared_experience-MayShare, update_shared_experience_settles,
}

abbrev calm : Env
calm = record {
  on_disband = λ p. true;
  on_leave = λ p x. true;
  on_join = λ p x. true;
  on_share_experience = λ p e. e;
  pz_locked = 60000;
}

abbrev newcomer : ℕ → Player
newcomer x = record {
  level = 100 + x;
  position = record { x = 1000 + x; y = 1000; z = 7 };
  not_gain_in_fight = false;
  in_fight = false;
  in_protection_zone = false;
  party = none;
  invitations = [];
}

abbrev start : World
start = record {
  player = newcomer;
  party = λ p. record {
    leader = none;
    members = [];
    invitees = [];
    ticks = λ i. none;
    shared_active = false;
    shared_enabled = false;
  };
  live = λ p. false;
  next_party = 50;
  online = λ i. true;
  time = 5000;
  outbox = [];
}

abbrev run : World → List Command → World
run w [] = w
run w (c ∷ cs) = run (step calm w c) cs

abbrev formed : World
formed = run start (invite 1 2 ∷ join 2 1 ∷ invite 1 3 ∷ join 3 1 ∷ [])

-- Two invitations taken: player 1 leads 2 and 3, and no invitation is left.
formed_members :
    ((formed.party 50).members ≡ 2 ∷ 3 ∷ [])
    × ((formed.party 50).invitees ≡ [])
    × ((formed.player 3).party ≡ some 50)
    × ((formed.player 3).invitations ≡ [])
unfolding step player_invite_to_party player_join_party new_party invite_player join_party admit
    clear_party_invitations withdraw remove_invite set_party add_party_invitation is_empty_party
    is_player_invited is_inviting update_shared_experience
formed_members = (refl, refl, refl, refl)

-- The leader leaves, and the first member leads.
handed_on :
    let w = run formed (leave 1 ∷ []) in
    ((w.party 50).leader ≡ some 2)
    × ((w.party 50).members ≡ 3 ∷ [])
    × ((w.player 1).party ≡ none)
    × (w.live 50 ≡ true)
unfolding step player_invite_to_party player_join_party new_party invite_player join_party admit
    clear_party_invitations withdraw remove_invite set_party add_party_invitation is_empty_party
    is_player_invited is_inviting update_shared_experience player_leave_party leave_party hand_on
    detach pass_party_leadership clear_player_points
handed_on = (refl, refl, refl, refl)

-- The next leader leaves the last member, and the party is gone.
broken_up :
    let w = run formed (leave 1 ∷ leave 2 ∷ []) in
    ((w.player 3).party ≡ none) × ((w.player 2).party ≡ none) × (w.live 50 ≡ false)
unfolding step player_invite_to_party player_join_party new_party invite_player join_party admit
    clear_party_invitations withdraw remove_invite set_party add_party_invitation is_empty_party
    is_player_invited is_inviting update_shared_experience player_leave_party leave_party hand_on
    detach pass_party_leadership clear_player_points disband release_members forget_invitation
broken_up = (refl, refl, refl)

-- A leader at level 130 with two active members.
abbrev band : World
band = record start {
  party = λ p. record {
    leader = some 30;
    members = 20 ∷ 1 ∷ [];
    invitees = [];
    ticks = λ i. some 4000;
    shared_active = true;
    shared_enabled = false;
  };
}

can_use_shared_experience-MayShare_example :
    (can_use_shared_experience calm band (band.party 9) 1 ≡ true)
    ↔ MayShare calm band (band.party 9) 30 1
can_use_shared_experience-MayShare_example =
    can_use_shared_experience-MayShare calm band (band.party 9) 1 30 refl

update_shared_experience_settles_example :
    let w' = update_shared_experience calm band 9 in
    let pt = band.party 9 in
    (((w'.party 9).shared_enabled ≡ true)
      ↔ (MayShare calm band pt 30 30 × All (MayShare calm band pt 30) (20 ∷ 1 ∷ [])))
    × ((w'.party 9).members ≡ pt.members)
    × ((w'.party 9).leader ≡ pt.leader)
    × ((w'.party 9).invitees ≡ pt.invitees)
    × (w'.party 8 ≡ band.party 8)
    × (w'.player ≡ band.player)
update_shared_experience_settles_example =
    update_shared_experience_settles calm band 9 8 30 refl refl (omega arith)

start-IsCoherent : IsCoherent start
start-IsCoherent = record {
  ordered = λ p h. absurd (cc);
  agree = λ p x h. absurd (cc);
  in_live = λ x p h. absurd (cc);
  invitation_live = λ x p h. absurd (cc);
  invitations_once = λ x. tt;
}

run_commands-IsCoherent_example :
    IsCoherent
      (run_commands calm start (invite 1 2 ∷ join 2 1 ∷ invite 1 3 ∷ leave 1 ∷ logout 2 ∷ []))
run_commands-IsCoherent_example =
    run_commands-IsCoherent calm start
      (invite 1 2 ∷ join 2 1 ∷ invite 1 3 ∷ leave 1 ∷ logout 2 ∷ []) (λ p. refl) start-IsCoherent

-- A callback that keeps every party.
abbrev stubborn : Env
stubborn = record calm { on_disband = λ p. false }

abbrev alone : World
alone = record start {
  player = λ x. if x == 1 then record (newcomer 1) { party = some 50 } else newcomer x;
  party = λ p. record (start.party 0) { leader = some 1; invitees = 2 ∷ [] };
  live = λ p. p == 50;
}

leave_party_refused_example :
    let (w', left) = leave_party stubborn alone 50 1 in
    (left ≡ true)
    × ((w'.player 1).party ≡ none)
    × (w'.live 50 ≡ true)
    × ((w'.party 50).leader ≡ some 1)
leave_party_refused_example = leave_party_refused stubborn alone 50 1 refl refl refl refl
