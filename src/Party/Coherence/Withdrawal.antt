-- ===== src/Party/Coherence/Withdrawal.antt =====
-- Player::clearPartyInvitations of src/player.cpp and Party::revokeInvitation of src/party.cpp keep the
-- pointers in agreement. The parties' Lua callback is one that lets them be disbanded.
use baiakthunder.Base.{
  ℕ, ◌≡◌, refl, sym, ◌∙◌, subst, Bool, true, false, List, [], ◌∷◌, arith, Bool-cases, inl, inr,
}
use baiakthunder.Party.{World, Env, notify, to_leader, Notice}
use baiakthunder.Party.Notice.{creature_shield}
use baiakthunder.Party.Members.{remove_invite, withdraw, clear_party_invitations, revoke_invitation}
use baiakthunder.Party.Notice.{text}
use baiakthunder.Party.Text.{revoked}
use baiakthunder.Party.Coherence.{IsCoherent, is_invitee, has_invitation, SameShape-IsCoherent}
use baiakthunder.Party.Coherence.Shapes.{notify-SameShape}
use baiakthunder.Party.Coherence.Invitations.{
  uninvite, uninvite-IsCoherent, uninvite_first, with_invitations, disband_if_empty,
  disband_if_empty-IsCoherent,
}

pub notify-IsCoherent : (w : World) (ns : List Notice) → IsCoherent w → IsCoherent (notify w ns)
notify-IsCoherent w ns c = SameShape-IsCoherent w (notify w ns) (notify-SameShape w ns) c

abbrev shields : World → ℕ → ℕ → List Notice
shields w p x = to_leader (w.party p).leader (λ l. creature_shield l x ∷ creature_shield x l ∷ [])

remove_invite_both :
    (env : Env) (w : World) (p x : ℕ)
    → is_invitee w p x ≡ true
    → (remove_invite env w p x true).0
      ≡ disband_if_empty env (notify (uninvite w p x) (shields w p x)) p
unfolding remove_invite disband_if_empty uninvite
remove_invite_both env w p x h = ground arith

pub remove_invite_stranger :
    (env : Env) (w : World) (p x : ℕ) (both : Bool)
    → is_invitee w p x ≡ false
    → (remove_invite env w p x both).0 ≡ w
unfolding remove_invite
remove_invite_stranger env w p x both h = ground arith

module _ (env : Env) (agreed : (p : ℕ) → env.on_disband p ≡ true) where
  withdraw_first :
      (w : World) (p x : ℕ) (ps : List ℕ)
      → IsCoherent (with_invitations w x (p ∷ ps))
      → IsCoherent (with_invitations (remove_invite env w p x false).0 x ps)
  unfolding with_invitations
  withdraw_first w p x ps c =
      let u = with_invitations w x (p ∷ ps) in
      let held : has_invitation u x p ≡ true = ground arith in
      let alive : u.live p ≡ true = c.invitation_live x p held in
      let here : is_invitee w p x ≡ true = (c.agree p x alive).invited ∙ held in
      let gone = uninvite-IsCoherent u p x alive c in
      let still : (uninvite u p x).live p ≡ true = unfold uninvite in alive in
      SameShape-IsCoherent (disband_if_empty env (uninvite u p x) p)
        (with_invitations (remove_invite env w p x false).0 x ps) (uninvite_first env w p x ps here)
        (disband_if_empty-IsCoherent env (uninvite u p x) p (agreed p) still gone)

  withdraw-IsCoherent :
      (ps : List ℕ) (w : World) (x : ℕ)
      → IsCoherent (with_invitations w x ps)
      → IsCoherent (with_invitations (withdraw env w x ps) x [])
  unfolding withdraw
  withdraw-IsCoherent [] w x c = c
  withdraw-IsCoherent (p ∷ ps) w x c =
      withdraw-IsCoherent ps (remove_invite env w p x false).0 x (withdraw_first w p x ps c)

  pub clear_party_invitations-IsCoherent :
      (w : World) (x : ℕ) → IsCoherent w → IsCoherent (clear_party_invitations env w x)
  unfolding clear_party_invitations with_invitations
  clear_party_invitations-IsCoherent w x c = withdraw-IsCoherent (w.player x).invitations w x (
      SameShape-IsCoherent w (with_invitations w x (w.player x).invitations)
        (record {
          leader = λ p. refl;
          members = λ p. refl;
          invitees = λ p. refl;
          live = λ p. refl;
          next_party = refl;
          party = λ y. ground arith;
          invitations = λ y. ground arith;
        })
        c)

  remove_invite-IsCoherent :
      (w : World) (p x : ℕ)
      → w.live p ≡ true
      → IsCoherent w
      → IsCoherent (remove_invite env w p x true).0
  remove_invite-IsCoherent w p x alive c = elim (Bool-cases (is_invitee w p x)) [
    | inl h ↦
        let v = notify (uninvite w p x) (shields w p x) in
        let still : v.live p ≡ true = unfold uninvite in alive in
        subst IsCoherent (sym (remove_invite_both env w p x h)) (
          disband_if_empty-IsCoherent env v p (agreed p) still (
            notify-IsCoherent (uninvite w p x) (shields w p x) (uninvite-IsCoherent w p x alive c)))
    | inr h ↦ subst IsCoherent (sym (remove_invite_stranger env w p x true h)) c
  ]

  pub revoke_invitation-IsCoherent :
      (w : World) (p x : ℕ)
      → w.live p ≡ true
      → IsCoherent w
      → IsCoherent (revoke_invitation env w p x)
  unfolding revoke_invitation
  revoke_invitation-IsCoherent w p x alive c =
      let ns = text x revoked ∷ to_leader (w.party p).leader (λ l. text l revoked ∷ []) in
      remove_invite-IsCoherent (notify w ns) p x alive (notify-IsCoherent w ns c)
