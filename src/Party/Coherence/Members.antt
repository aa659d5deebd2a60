-- ===== src/Party/Coherence/Members.antt =====
-- Who leads, who joins, and who is invited, in src/party.cpp: each change keeps the pointers in
-- agreement.
use baiakthunder.Base.{
  ℕ, ◌≡◌, refl, sym, ◌∙◌, subst, true, false, none, some, [], ◌∷◌, ◌++◌, arith, ◌==◌, Bool-cases,
  inl, inr,
}
use baiakthunder.Party.{World, update, set_party, add_party_invitation, is_player_invited}
use baiakthunder.Party.Members.{invite_player}
use baiakthunder.Party.Commands.{new_party}
use baiakthunder.Party.Names.{contains-append, Distinct-append}
use baiakthunder.Party.Coherence.{
  IsCoherent, is_member, is_invitee, has_invitation, SameShape, SameShape-IsCoherent,
}

unused_party : (w : World) → IsCoherent w → w.live w.next_party ≡ false
unused_party w c = elim (Bool-cases (w.live w.next_party)) [
  | inl h ↦ absurd (omega (arith, (c.ordered w.next_party h).fresh))
  | inr h ↦ h
]

-- A new party of a player who is in none.
pub new_party-IsCoherent :
    (w : World) (l : ℕ) → (w.player l).party ≡ none → IsCoherent w → IsCoherent (new_party w l)
unfolding new_party set_party
new_party-IsCoherent w l free c =
    let unused = unused_party w c in
    record {
      ordered = λ q h. elim (Bool-cases (w.next_party == q)) [
        | inl e ↦ record {
          led = rw e refl;
          members_once = rw e tt;
          invitees_once = rw e tt;
          fresh = ground arith;
        }
        | inr e ↦
            let o = c.ordered q (ground arith) in
            record {
              led = rw e o.led;
              members_once = rw e o.members_once;
              invitees_once = rw e o.invitees_once;
              fresh = omega (arith, o.fresh);
            }
      ];
      agree = λ q x h. record {
        home = ground (arith, c.agree q x, c.in_live x q);
        one_role = ground (arith, c.agree q x);
        invited = ground (arith, c.agree q x, c.invitation_live x q);
      };
      in_live = λ x q h. ground (arith, c.in_live x q);
      invitation_live = λ x q h. ground (arith, c.invitation_live x q);
      invitations_once = λ x. elim (Bool-cases (l == x)) [
        | inl e ↦ rw e (c.invitations_once l)
        | inr e ↦ rw e (c.invitations_once x)
      ];
    }

-- An invitation on both sides.
with_invitee : World → ℕ → ℕ → World
with_invitee w p x = record w {
  party = update w.party p (record (w.party p) { invitees = (w.party p).invitees ++ x ∷ [] });
  player = add_party_invitation w.player x p;
}

with_invitee-IsCoherent :
    (w : World) (p x : ℕ)
    → w.live p ≡ true
    → is_invitee w p x ≡ false
    → IsCoherent w
    → IsCoherent (with_invitee w p x)
unfolding with_invitee add_party_invitation
with_invitee-IsCoherent w p x alive fresh c =
    let absent : has_invitation w x p ≡ false = sym (c.agree p x alive).invited ∙ fresh in
    record {
      ordered = λ q h.
          let o = c.ordered q h in
          record {
            led = ground (arith, o.led);
            members_once = elim (Bool-cases (p == q)) [
              | inl e ↦ rw e (c.ordered p alive).members_once
              | inr e ↦ rw e o.members_once
            ];
            invitees_once = elim (Bool-cases (p == q)) [
              | inl e ↦
                  rw e
                    (Distinct-append x (w.party p).invitees fresh (c.ordered p alive).invitees_once)
              | inr e ↦ rw e o.invitees_once
            ];
            fresh = o.fresh;
          };
      agree = λ q y h. record {
        home = ground (arith, (c.agree q y h).home);
        one_role = ground (arith, (c.agree q y h).one_role);
        invited = ground (
          arith,
          (c.agree q y h).invited,
          (c.agree p y alive).invited,
          contains-append y (w.party p).invitees (x ∷ []),
          contains-append q (w.player x).invitations (p ∷ []),
        );
      };
      in_live = λ y q h. ground (arith, c.in_live y q);
      invitation_live = λ y q h.
          ground
            (arith, c.invitation_live y q, contains-append q (w.player x).invitations (p ∷ []));
      invitations_once = λ y. rw absent (elim (Bool-cases (x == y)) [
        | inl e ↦ rw e (Distinct-append p (w.player x).invitations absent (c.invitations_once x))
        | inr e ↦ rw e (c.invitations_once y)
      ]);
    }

invite_player-SameShape :
    (w : World) (p x : ℕ)
    → is_invitee w p x ≡ false
    → SameShape (with_invitee w p x) (invite_player w p x).0
unfolding with_invitee invite_player is_player_invited
invite_player-SameShape w p x h = record {
  leader = λ q. ground arith;
  members = λ q. ground arith;
  invitees = λ q. ground arith;
  live = λ q. ground arith;
  next_party = ground arith;
  party = λ y. ground arith;
  invitations = λ y. ground arith;
}

invite_player_again : (w : World) (p x : ℕ) → is_invitee w p x ≡ true → (invite_player w p x).0 ≡ w
unfolding invite_player is_player_invited
invite_player_again w p x h = ground arith

pub invite_player-IsCoherent :
    (w : World) (p x : ℕ) → w.live p ≡ true → IsCoherent w → IsCoherent (invite_player w p x).0
invite_player-IsCoherent w p x alive c = elim (Bool-cases (is_invitee w p x)) [
  | inl h ↦ subst IsCoherent (sym (invite_player_again w p x h)) c
  | inr h ↦
      SameShape-IsCoherent (with_invitee w p x) (invite_player w p x).0
        (invite_player-SameShape w p x h) (with_invitee-IsCoherent w p x alive h c)
]

-- A member on both sides.
unfoldable pub enlist : World → ℕ → ℕ → World
enlist w p x = record w {
  party = update w.party p (record (w.party p) { members = (w.party p).members ++ x ∷ [] });
  player = set_party w.player x (some p);
}

pub enlist-IsCoherent :
    (w : World) (p x : ℕ)
    → w.live p ≡ true
    → (w.player x).party ≡ none
    → IsCoherent w
    → IsCoherent (enlist w p x)
unfolding enlist set_party
enlist-IsCoherent w p x alive free c =
    let outside : is_member w p x ≡ false = ground (arith, (c.agree p x alive).home) in
    record {
      ordered = λ q h.
          let o = c.ordered q h in
          record {
            led = ground (arith, o.led);
            members_once = elim (Bool-cases (p == q)) [
              | inl e ↦
                  rw e
                    (Distinct-append x (w.party p).members outside (c.ordered p alive).members_once)
              | inr e ↦ rw e o.members_once
            ];
            invitees_once = elim (Bool-cases (p == q)) [
              | inl e ↦ rw e (c.ordered p alive).invitees_once
              | inr e ↦ rw e o.invitees_once
            ];
            fresh = o.fresh;
          };
      agree = λ q y h. record {
        home = ground (
          arith,
          (c.agree q y h).home,
          (c.agree p y alive).home,
          contains-append y (w.party p).members (x ∷ []),
        );
        one_role = ground (
          arith,
          (c.agree q y h).one_role,
          (c.agree q y h).home,
          (c.agree p y alive).home,
          contains-append y (w.party p).members (x ∷ []),
        );
        invited = ground (arith, (c.agree q y h).invited);
      };
      in_live = λ y q h. ground (arith, c.in_live y q);
      invitation_live = λ y q h. ground (arith, c.invitation_live y q);
      invitations_once = λ y. elim (Bool-cases (x == y)) [
        | inl e ↦ rw e (c.invitations_once x)
        | inr e ↦ rw e (c.invitations_once y)
      ];
    }
