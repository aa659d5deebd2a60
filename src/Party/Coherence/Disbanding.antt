-- ===== src/Party/Coherence/Disbanding.antt =====
-- Party::disband of src/party.cpp keeps the pointers in agreement.
use baiakthunder.Base.{
  ℕ, ◌≡◌, ◌≢◌, refl, sym, subst, true, false, ◌||◌, none, some, List, [], ◌∷◌, arith, ◌==◌,
  if◌then◌else◌, Bool-cases, inl, inr,
}
use baiakthunder.Party.{Player, World, Env, contains, remove, set_party, remove_party_invitation}
use baiakthunder.Party.Members.{disband, release_members, forget_invitation}
use baiakthunder.Party.Names.{Distinct, contains-remove, Distinct-remove}
use baiakthunder.Party.Coherence.{
  IsCoherent, IsOrdered, Agree, leads, is_member, is_invitee, is_in, has_invitation, is_some,
}

pub release_members-party :
    (ms : List ℕ) (ps : ℕ → Player) (i : ℕ)
    → (release_members ms ps i).party ≡ (if contains i ms then none else (ps i).party)
unfolding release_members set_party
release_members-party [] ps i = refl
release_members-party (m ∷ ms) ps i =
    ground (arith, release_members-party ms (set_party ps m none) i)

pub release_members-invitations :
    (ms : List ℕ) (ps : ℕ → Player) (i : ℕ)
    → (release_members ms ps i).invitations ≡ (ps i).invitations
unfolding release_members set_party
release_members-invitations [] ps i = refl
release_members-invitations (m ∷ ms) ps i =
    ground (arith, release_members-invitations ms (set_party ps m none) i)

pub forget_invitation-party :
    (p : ℕ) (is : List ℕ) (ps : ℕ → Player) (i : ℕ)
    → (forget_invitation p is ps i).party ≡ (ps i).party
unfolding forget_invitation remove_party_invitation
forget_invitation-party p [] ps i = refl
forget_invitation-party p (j ∷ is) ps i =
    ground (arith, forget_invitation-party p is (remove_party_invitation ps j p) i)

forget_invitation-invitations :
    (p : ℕ) (is : List ℕ) (ps : ℕ → Player) (i : ℕ)
    → Distinct is
    → (forget_invitation p is ps i).invitations
      ≡ (if contains i is then remove p (ps i).invitations else (ps i).invitations)
unfolding forget_invitation remove_party_invitation
forget_invitation-invitations p [] ps i d = refl
forget_invitation-invitations p (j ∷ is) ps i (a, d) =
    ground (arith, forget_invitation-invitations p is (remove_party_invitation ps j p) i d)

-- Coherent but for one party, of which it is enough that it covers those that point to it.
pub record IsCoherentBut (w : World) (p l : ℕ) : Type 0 where
  pub leader : (w.party p).leader ≡ some l
  pub invitees_once : Distinct (w.party p).invitees
  pub ordered : (q : ℕ) → q ≢ p → w.live q ≡ true → IsOrdered w q
  pub agree : (q x : ℕ) → q ≢ p → w.live q ≡ true → Agree w q x
  pub covers : (x : ℕ) → is_in w x p ≡ true → (leads w p x || is_member w p x) ≡ true
  pub exclusive : (q x : ℕ) → q ≢ p → is_in w x q ≡ true → (leads w p x || is_member w p x) ≡ false
  pub invited : (x : ℕ) → has_invitation w x p ≡ true → is_invitee w p x ≡ true
  pub in_live : (x q : ℕ) → is_in w x q ≡ true → w.live q ≡ true
  pub invitation_live : (x q : ℕ) → has_invitation w x q ≡ true → w.live q ≡ true
  pub invitations_once : (x : ℕ) → Distinct (w.player x).invitations

module _ (env : Env) (w : World) (p l : ℕ) (agreed : env.on_disband p ≡ true)
    (c : IsCoherentBut w p l) where
  disband-party :
      (x : ℕ)
      → ((disband env w p).player x).party
        ≡ (if leads w p x || is_member w p x then none else (w.player x).party)
  unfolding disband set_party
  disband-party x = ground (
    arith,
    release_members-party (w.party p).members
        (forget_invitation p (w.party p).invitees (set_party w.player l none)) x,
    forget_invitation-party p (w.party p).invitees (set_party w.player l none) x,
    c.leader,
  )

  disband-invitations :
      (x : ℕ)
      → ((disband env w p).player x).invitations
        ≡ (if is_invitee w p x then remove p (w.player x).invitations else (w.player x).invitations)
  unfolding disband set_party
  disband-invitations x = ground (
    arith,
    release_members-invitations (w.party p).members
        (forget_invitation p (w.party p).invitees (set_party w.player l none)) x,
    forget_invitation-invitations p (w.party p).invitees (set_party w.player l none) x
        c.invitees_once,
    c.leader,
  )

  disband-live : (q : ℕ) → (disband env w p).live q ≡ (if p == q then false else w.live q)
  unfolding disband
  disband-live q = ground (arith, c.leader)

  disband-other : (q : ℕ) → q ≢ p → (disband env w p).party q ≡ w.party q
  unfolding disband
  disband-other q ne = ground (arith, c.leader)

  disband-next_party : (disband env w p).next_party ≡ w.next_party
  unfolding disband
  disband-next_party = ground (arith, c.leader)

  still_live : (q : ℕ) → (disband env w p).live q ≡ true → (q ≢ p) × (w.live q ≡ true)
  still_live q h = ((λ e. ground (arith, disband-live q)), ground (arith, disband-live q))

  disband-IsOrdered : (q : ℕ) → (disband env w p).live q ≡ true → IsOrdered (disband env w p) q
  disband-IsOrdered q h =
      let (ne, alive) = still_live q h in
      let o = c.ordered q ne alive in
      let e = sym (disband-other q ne) in
      record {
        led = subst (λ pt. is_some pt.leader ≡ true) e o.led;
        members_once = subst (λ pt. Distinct pt.members) e o.members_once;
        invitees_once = subst (λ pt. Distinct pt.invitees) e o.invitees_once;
        fresh = omega (arith, o.fresh, disband-next_party);
      }

  disband-Agree : (q x : ℕ) → (disband env w p).live q ≡ true → Agree (disband env w p) q x
  disband-Agree q x h =
      let (ne, alive) = still_live q h in
      let a = c.agree q x ne alive in
      let e = disband-other q ne in
      record {
        home = ground (arith, e, a.home, disband-party x, c.exclusive q x ne);
        one_role = ground (arith, e, a.one_role);
        invited = ground (
          arith,
          e,
          a.invited,
          disband-invitations x,
          contains-remove p q (w.player x).invitations (c.invitations_once x),
        );
      }

  disband-in_live : (x q : ℕ) → is_in (disband env w p) x q ≡ true → (disband env w p).live q ≡ true
  disband-in_live x q h = ground (arith, disband-party x, disband-live q, c.in_live x q, c.covers x)

  disband-invitation_live :
      (x q : ℕ) → has_invitation (disband env w p) x q ≡ true → (disband env w p).live q ≡ true
  disband-invitation_live x q h = ground (
    arith,
    disband-invitations x,
    disband-live q,
    c.invitation_live x q,
    c.invited x,
    contains-remove p q (w.player x).invitations (c.invitations_once x),
  )

  disband-invitations_once : (x : ℕ) → Distinct ((disband env w p).player x).invitations
  disband-invitations_once x =
      subst Distinct (sym (disband-invitations x)) (elim (Bool-cases (is_invitee w p x)) [
        | inl h ↦ rw h (Distinct-remove p (w.player x).invitations (c.invitations_once x))
        | inr h ↦ rw h (c.invitations_once x)
      ])

  -- A party that is disbanded leaves the others coherent.
  pub disband-IsCoherent : IsCoherent (disband env w p)
  disband-IsCoherent = record {
    ordered = disband-IsOrdered;
    agree = disband-Agree;
    in_live = disband-in_live;
    invitation_live = disband-invitation_live;
    invitations_once = disband-invitations_once;
  }
