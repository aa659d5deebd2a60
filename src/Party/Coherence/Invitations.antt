-- ===== src/Party/Coherence/Invitations.antt =====
-- Invitations that are taken back: Party::removeInvite of src/party.cpp, and
-- Player::clearPartyInvitations of src/player.cpp.
use baiakthunder.Base.{
  ℕ, ◌≡◌, refl, sym, ap, ◌∙◌, true, false, ◌&&◌, Option, none, some, List, [], ◌∷◌, arith, ◌==◌,
  if◌then◌else◌, Bool-cases, Option-cases, inl, inr,
}
use baiakthunder.Party.{
  Player, World, Env, remove, update, set_party, remove_party_invitation, notify, put_party,
  is_empty, is_empty_party, to_leader,
}
use baiakthunder.Party.Notice.{creature_shield}
use baiakthunder.Party.Members.{disband, remove_invite, release_members, forget_invitation}
use baiakthunder.Party.Names.{Distinct, contains-remove, Distinct-remove}
use baiakthunder.Party.Coherence.{IsCoherent, is_invitee, SameShape}
use baiakthunder.Party.Coherence.Disbanding.{IsCoherentBut, disband-IsCoherent}

pub but-IsCoherent :
    (w : World) (p l : ℕ)
    → IsCoherent w
    → w.live p ≡ true
    → (w.party p).leader ≡ some l
    → IsCoherentBut w p l
but-IsCoherent w p l c alive e = record {
  leader = e;
  invitees_once = (c.ordered p alive).invitees_once;
  ordered = λ q ne h. c.ordered q h;
  agree = λ q x ne h. c.agree q x h;
  covers = λ x h. sym (c.agree p x alive).home ∙ h;
  exclusive = λ q x ne h. ground (arith, (c.agree p x alive).home);
  invited = λ x h. (c.agree p x alive).invited ∙ h;
  in_live = c.in_live;
  invitation_live = c.invitation_live;
  invitations_once = c.invitations_once;
}

-- The invitation goes on both sides.
unfoldable pub uninvite : World → ℕ → ℕ → World
unfolding remove_party_invitation
uninvite w p x = record w {
  party = update w.party p (record (w.party p) { invitees = remove x (w.party p).invitees });
  player = remove_party_invitation w.player x p;
}

pub uninvite-IsCoherent :
    (w : World) (p x : ℕ) → w.live p ≡ true → IsCoherent w → IsCoherent (uninvite w p x)
unfolding uninvite remove_party_invitation
uninvite-IsCoherent w p x alive c =
    let o = c.ordered p alive in
    record {
      ordered = λ q h. record {
        led = ground (arith, (c.ordered q h).led);
        members_once = members q h;
        invitees_once = invitees q h;
        fresh = (c.ordered q h).fresh;
      };
      agree = λ q y h. record {
        home = ground (arith, (c.agree q y h).home);
        one_role = ground (arith, (c.agree q y h).one_role);
        invited = ground (
          arith,
          (c.agree q y h).invited,
          contains-remove x y (w.party p).invitees o.invitees_once,
          contains-remove p q (w.player x).invitations (c.invitations_once x),
          c.agree p y alive,
        );
      };
      in_live = λ y q h. ground (arith, c.in_live y q);
      invitation_live = λ y q h. ground (
        arith,
        c.invitation_live y q,
        contains-remove p q (w.player x).invitations (c.invitations_once x),
      );
      invitations_once = invitations;
    }
  where
    members : (q : ℕ) → w.live q ≡ true → Distinct ((uninvite w p x).party q).members
    members q h = elim (Bool-cases (p == q)) [
      | inl e ↦ rw e (c.ordered p alive).members_once
      | inr e ↦ rw e (c.ordered q h).members_once
    ]

    invitees : (q : ℕ) → w.live q ≡ true → Distinct ((uninvite w p x).party q).invitees
    invitees q h = elim (Bool-cases (p == q)) [
      | inl e ↦ rw e (Distinct-remove x (w.party p).invitees (c.ordered p alive).invitees_once)
      | inr e ↦ rw e (c.ordered q h).invitees_once
    ]

    invitations : (y : ℕ) → Distinct ((uninvite w p x).player y).invitations
    invitations y = elim (Bool-cases (x == y)) [
      | inl e ↦ rw e (Distinct-remove p (w.player x).invitations (c.invitations_once x))
      | inr e ↦ rw e (c.invitations_once y)
    ]

-- What is left of a party is disbanded if that is nobody but the leader.
unfoldable pub disband_if_empty : Env → World → ℕ → World
disband_if_empty env w p = if is_empty_party (w.party p) then disband env w p else w

pub leader_of :
    (w : World) (p : ℕ) → w.live p ≡ true → IsCoherent w → (l : ℕ) × ((w.party p).leader ≡ some l)
leader_of w p alive c = elim (Option-cases (w.party p).leader) [
  | inl h ↦ absurd (ground (arith, (c.ordered p alive).led))
  | inr found ↦ found
]

pub disband_live-IsCoherent :
    (env : Env) (w : World) (p : ℕ)
    → env.on_disband p ≡ true
    → w.live p ≡ true
    → IsCoherent w
    → IsCoherent (disband env w p)
disband_live-IsCoherent env w p agreed alive c =
    let (l, e) = leader_of w p alive c in
    disband-IsCoherent env w p l agreed (but-IsCoherent w p l c alive e)

pub disband_if_empty-IsCoherent :
    (env : Env) (w : World) (p : ℕ)
    → env.on_disband p ≡ true
    → w.live p ≡ true
    → IsCoherent w
    → IsCoherent (disband_if_empty env w p)
unfolding disband_if_empty
disband_if_empty-IsCoherent env w p agreed alive c =
    elim (Bool-cases (is_empty_party (w.party p))) [
      | inl h ↦ rw h (disband_live-IsCoherent env w p agreed alive c)
      | inr h ↦ rw h c
    ]

-- The world with the invitations of one player replaced.
unfoldable pub with_invitations : World → ℕ → List ℕ → World
with_invitations w x ps = record w {
  player = update w.player x (record (w.player x) { invitations = ps });
}

release_nobody :
    (ms is : List ℕ) (p : ℕ) (ps : ℕ → Player)
    → is_empty ms ≡ true
    → is_empty is ≡ true
    → release_members ms (forget_invitation p is ps) ≡ ps
unfolding release_members forget_invitation
release_nobody [] [] p ps h k = refl
release_nobody [] (i ∷ is) p ps h k = cc
release_nobody (m ∷ ms) is p ps h k = cc

abbrev release_leader : Option ℕ → (ℕ → Player) → ℕ → Player
release_leader none ps = ps
release_leader (some l) ps = set_party ps l none

disband_empty-player :
    (env : Env) (w : World) (p : ℕ)
    → is_empty_party (w.party p) ≡ true
    → (disband env w p).player
      ≡ (if env.on_disband p then release_leader (w.party p).leader w.player else w.player)
unfolding disband is_empty_party
disband_empty-player env w p h = elim (Option-cases (w.party p).leader) [
  | inl e ↦ ground (arith, e)
  | inr (l, e) ↦ ground (
    arith,
    e,
    release_nobody (w.party p).members (w.party p).invitees p (set_party w.player l none),
  )
]

disband_if_empty-player :
    (env : Env) (w : World) (p : ℕ)
    → (disband_if_empty env w p).player ≡ (
        if is_empty_party (w.party p) && env.on_disband p
        then release_leader (w.party p).leader w.player
        else w.player)
unfolding disband_if_empty
disband_if_empty-player env w p = elim (Bool-cases (is_empty_party (w.party p))) [
  | inl h ↦ rw h (disband_empty-player env w p h)
  | inr h ↦ rw h refl
]

abbrev pub told : World → ℕ → ℕ → World
told w p x =
    notify (put_party w p (record (w.party p) { invitees = remove x (w.party p).invitees }))
      (to_leader (w.party p).leader (λ l. creature_shield l x ∷ creature_shield x l ∷ []))

pub remove_invite-disband_if_empty :
    (env : Env) (w : World) (p x : ℕ)
    → is_invitee w p x ≡ true
    → (remove_invite env w p x false).0 ≡ disband_if_empty env (told w p x) p
unfolding remove_invite disband_if_empty is_empty_party
remove_invite-disband_if_empty env w p x h = ground arith

-- One round of the loop in Player::clearPartyInvitations, for a player whose first invitation it is.
pub uninvite_first :
    (env : Env) (w : World) (p x : ℕ) (ps : List ℕ)
    → is_invitee w p x ≡ true
    → SameShape
        (disband_if_empty env (uninvite (with_invitations w x (p ∷ ps)) p x) p)
        (with_invitations (remove_invite env w p x false).0 x ps)
unfolding disband_if_empty uninvite with_invitations remove_invite disband is_empty_party set_party
    remove_party_invitation
uninvite_first env w p x ps h = record {
  leader = λ q. ground arith;
  members = λ q. ground arith;
  invitees = λ q. ground arith;
  live = λ q. ground arith;
  next_party = ground arith;
  party = λ y. rw (players, remaining) (ground arith);
  invitations = λ y. rw (players, remaining) (ground arith);
}
  where
    remaining : (remove_invite env w p x false).0.player ≡ (
        if is_empty_party ((told w p x).party p) && env.on_disband p
        then release_leader ((told w p x).party p).leader w.player
        else w.player)
    remaining =
        ap (λ (v : World). v.player) (remove_invite-disband_if_empty env w p x h)
        ∙ disband_if_empty-player env (told w p x) p

    players : (disband_if_empty env (uninvite (with_invitations w x (p ∷ ps)) p x) p).player ≡ (
        if is_empty_party ((uninvite (with_invitations w x (p ∷ ps)) p x).party p)
          && env.on_disband p
        then release_leader
            ((uninvite (with_invitations w x (p ∷ ps)) p x).party p).leader
            (uninvite (with_invitations w x (p ∷ ps)) p x).player
        else (uninvite (with_invitations w x (p ∷ ps)) p x).player)
    players = disband_if_empty-player env (uninvite (with_invitations w x (p ∷ ps)) p x) p
