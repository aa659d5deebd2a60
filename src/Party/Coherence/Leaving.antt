-- ===== src/Party/Coherence/Leaving.antt =====
-- Joining, leading and leaving a party of src/party.cpp keep the pointers in agreement.
use baiakthunder.Base.{
  ℕ, ◌≡◌, ◌≢◌, sym, subst, true, false, ◌||◌, not, some, ◌∷◌, arith, ◌==◌, Bool-cases, Option-cases,
  inl, inr,
}
use baiakthunder.Party.{Party, World, Env, remove, update, set_party, notify}
use baiakthunder.Party.{Text}
use baiakthunder.Party.Members.{pass_party_leadership, detach, broadcast}
use baiakthunder.Party.Names.{contains-remove, Distinct-remove}
use baiakthunder.Party.Coherence.{IsCoherent, leads, is_in, SameShape, SameShape-IsCoherent}
use baiakthunder.Party.Coherence.Shapes.{update_shared_experience-SameShape}
use baiakthunder.Party.Coherence.Invitations.{leader_of}

-- A member leads, and the old leader is the first of the members.
unfoldable pub lead_by : World → ℕ → ℕ → ℕ → World
lead_by w p x old = record w {
  party =
      update w.party p
        (record (w.party p) { leader = some x; members = old ∷ remove x (w.party p).members });
}

lead_by-IsCoherent :
    (w : World) (p x old : ℕ)
    → w.live p ≡ true
    → (w.party p).leader ≡ some old
    → x ≢ old
    → is_in w x p ≡ true
    → IsCoherent w
    → IsCoherent (lead_by w p x old)
unfolding lead_by
lead_by-IsCoherent w p x old alive e ne home c =
    let o = c.ordered p alive in
    let gone = λ (y : ℕ). contains-remove x y (w.party p).members o.members_once in
    record {
      ordered = λ q h.
          let oq = c.ordered q h in
          record {
            led = ground (arith, oq.led);
            members_once = elim (Bool-cases (p == q)) [
              | inl k ↦ rw k (
                ground (arith, gone old, c.agree p old alive, e),
                Distinct-remove x (w.party p).members o.members_once,
              )
              | inr k ↦ rw k oq.members_once
            ];
            invitees_once = elim (Bool-cases (p == q)) [
              | inl k ↦ rw k o.invitees_once
              | inr k ↦ rw k oq.invitees_once
            ];
            fresh = oq.fresh;
          };
      agree = λ q y h. record {
        home = ground (arith, (c.agree q y h).home, c.agree p y alive, c.agree p x alive, gone y);
        one_role = ground (arith, (c.agree q y h).one_role, c.agree p y alive, gone y);
        invited = ground (arith, (c.agree q y h).invited);
      };
      in_live = c.in_live;
      invitation_live = c.invitation_live;
      invitations_once = c.invitations_once;
    }

pub pass_party_leadership-SameShape :
    (env : Env) (w : World) (p x old : ℕ)
    → (w.party p).leader ≡ some old
    → x ≢ old
    → is_in w x p ≡ true
    → SameShape (lead_by w p x old) (pass_party_leadership env w p x).0
unfolding pass_party_leadership lead_by
pass_party_leadership-SameShape env w p x old e ne home =
    let rest : Party = record (w.party p) { members = remove x (w.party p).members } in
    let w1 = notify (lead_by w p x old) (broadcast rest Text.leads true) in
    let s = update_shared_experience-SameShape env w1 p in
    record {
      leader = λ q. ground (arith, e, s.leader q);
      members = λ q. ground (arith, e, s.members q);
      invitees = λ q. ground (arith, e, s.invitees q);
      live = λ q. ground (arith, e, s.live q);
      next_party = ground (arith, e, s.next_party);
      party = λ y. ground (arith, e, s.party y);
      invitations = λ y. ground (arith, e, s.invitations y);
    }

pass_party_leadership_refused :
    (env : Env) (w : World) (p x : ℕ)
    → (leads w p x || not (is_in w x p)) ≡ true
    → (pass_party_leadership env w p x).0 ≡ w
unfolding pass_party_leadership
pass_party_leadership_refused env w p x h = elim (Option-cases (w.party p).leader) [
  | inl e ↦ ground (arith, e)
  | inr (l, e) ↦ ground (arith, e)
]

pub pass_party_leadership-IsCoherent :
    (env : Env) (w : World) (p x : ℕ)
    → w.live p ≡ true
    → IsCoherent w
    → IsCoherent (pass_party_leadership env w p x).0
pass_party_leadership-IsCoherent env w p x alive c =
    elim (Bool-cases (leads w p x || not (is_in w x p))) [
      | inl h ↦ subst IsCoherent (sym (pass_party_leadership_refused env w p x h)) c
      | inr h ↦
          let (old, e) = leader_of w p alive c in
          let ne : x ≢ old = λ k. ground (arith, e) in
          let home : is_in w x p ≡ true = ground arith in
          SameShape-IsCoherent (lead_by w p x old) (pass_party_leadership env w p x).0
            (pass_party_leadership-SameShape env w p x old e ne home)
            (lead_by-IsCoherent w p x old alive e ne home c)
    ]

-- A member taken off.
pub detach-IsCoherent :
    (w : World) (p x : ℕ)
    → w.live p ≡ true
    → leads w p x ≡ false
    → is_in w x p ≡ true
    → IsCoherent w
    → IsCoherent (detach w p x)
unfolding detach set_party
detach-IsCoherent w p x alive no_leader home c =
    let o = c.ordered p alive in
    let gone = λ (y : ℕ). contains-remove x y (w.party p).members o.members_once in
    record {
      ordered = λ q h.
          let oq = c.ordered q h in
          record {
            led = ground (arith, oq.led);
            members_once = elim (Bool-cases (p == q)) [
              | inl k ↦ rw k (Distinct-remove x (w.party p).members o.members_once)
              | inr k ↦ rw k oq.members_once
            ];
            invitees_once = elim (Bool-cases (p == q)) [
              | inl k ↦ rw k o.invitees_once
              | inr k ↦ rw k oq.invitees_once
            ];
            fresh = oq.fresh;
          };
      agree = λ q y h. record {
        home = ground (arith, (c.agree q y h).home, c.agree p y alive, gone y);
        one_role = ground (arith, (c.agree q y h).one_role, gone y);
        invited = ground (arith, (c.agree q y h).invited);
      };
      in_live = λ y q h. ground (arith, c.in_live y q);
      invitation_live = λ y q h. ground (arith, c.invitation_live y q);
      invitations_once = λ y. elim (Bool-cases (x == y)) [
        | inl k ↦ rw k (c.invitations_once x)
        | inr k ↦ rw k (c.invitations_once y)
      ];
    }
