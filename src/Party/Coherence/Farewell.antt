-- ===== src/Party/Coherence/Farewell.antt =====
-- Party::leaveParty of src/party.cpp keeps the pointers in agreement: a member's leave, a leader's who
-- hands on, and a leader's with whom the party ends.
use baiakthunder.Base.{
  ℕ, ◌≡◌, ◌≢◌, refl, sym, ap, ◌∙◌, subst, Bool, true, false, ◌&&◌, ◌||◌, not, some, List, [], ◌∷◌,
  arith, if◌then◌else◌, Bool-cases, inl, inr,
}
use baiakthunder.Party.{World, Env, points_to, set_party, notify, is_empty, is_empty_party}
use baiakthunder.Party.Text.{left}
use baiakthunder.Party.Experience.{update_shared_experience, clear_player_points}
use baiakthunder.Party.Members.{
  pass_party_leadership, detach, disband, leave_party, hand_on, broadcast,
}
use baiakthunder.Party.Names.{Distinct, contains-remove}
use baiakthunder.Party.Coherence.{
  IsCoherent, leads, is_member, is_in, SameShape, SameShape-IsCoherent,
}
use baiakthunder.Party.Coherence.Shapes.{
  SameShape-trans, notify-SameShape, update_shared_experience-SameShape,
  clear_player_points-SameShape,
}
use baiakthunder.Party.Coherence.Disbanding.{IsCoherentBut, disband-IsCoherent}
use baiakthunder.Party.Coherence.Invitations.{disband_live-IsCoherent}
use baiakthunder.Party.Coherence.Leaving.{
  detach-IsCoherent, lead_by, pass_party_leadership-SameShape, pass_party_leadership-IsCoherent,
}

-- What `leave_party` does behind `hand_on`, up to the last test.
abbrev pub after_leave : Env → World → ℕ → ℕ → World
after_leave env w p x =
    let w2 = update_shared_experience env (detach w p x) p in
    let w3 = clear_player_points env w2 p x in notify w3 (broadcast (w3.party p) left false)

pub after_leave-SameShape :
    (env : Env) (w : World) (p x : ℕ) → SameShape (detach w p x) (after_leave env w p x)
after_leave-SameShape env w p x =
    let w1 = detach w p x in
    let w2 = update_shared_experience env w1 p in
    let w3 = clear_player_points env w2 p x in
    let w4 = after_leave env w p x in
    SameShape-trans w1 w3 w4
      (SameShape-trans w1 w2 w3 (update_shared_experience-SameShape env w1 p)
        (clear_player_points-SameShape env w2 p x))
      (notify-SameShape w3 (broadcast (w3.party p) left false))

-- The leader is gone, and the party is to be disbanded.
leaderless :
    (env : Env) (w : World) (p x : ℕ)
    → w.live p ≡ true
    → (w.party p).leader ≡ some x
    → IsCoherent w
    → IsCoherentBut (after_leave env w p x) p x
unfolding detach set_party
leaderless env w p x alive e c =
    let s = after_leave-SameShape env w p x in
    let o = c.ordered p alive in
    let gone = λ (y : ℕ). contains-remove x y (w.party p).members o.members_once in
    let same_invitees : ((after_leave env w p x).party p).invitees ≡ (w.party p).invitees =
      s.invitees p ∙ ground arith in
    record {
      leader = s.leader p ∙ ground (arith, e);
      invitees_once = subst Distinct (sym same_invitees) o.invitees_once;
      ordered = λ q ne h.
          let oq = c.ordered q (sym (s.live q) ∙ h) in
          let same_members : ((after_leave env w p x).party q).members ≡ (w.party q).members =
            s.members q ∙ ground arith in
          let same : ((after_leave env w p x).party q).invitees ≡ (w.party q).invitees =
            s.invitees q ∙ ground arith in
          record {
            led = ground (arith, s.leader q, oq.led);
            members_once = subst Distinct (sym same_members) oq.members_once;
            invitees_once = subst Distinct (sym same) oq.invitees_once;
            fresh = omega (arith, oq.fresh, s.next_party);
          };
      agree = λ q y ne h.
          let a = c.agree q y (sym (s.live q) ∙ h) in
          record {
            home = ground (
              arith,
              a.home,
              s.party y,
              s.leader q,
              s.members q,
              c.agree p y alive,
              e,
              c.agree p x alive,
              c.agree q x (sym (s.live q) ∙ h),
            );
            one_role = ground (arith, a.one_role, s.leader q, s.members q);
            invited = ground (arith, a.invited, s.invitees q, s.invitations y);
          };
      covers =
          λ y h. ground (arith, s.party y, s.leader p, s.members p, c.agree p y alive, gone y, e);
      exclusive = λ q y ne h.
          ground (arith, s.party y, s.leader p, s.members p, c.agree p y alive, gone y, e);
      invited = λ y h. ground (arith, s.invitations y, s.invitees p, c.agree p y alive);
      in_live = λ y q h. ground (arith, s.party y, s.live q, c.in_live y q);
      invitation_live = λ y q h. ground (arith, s.invitations y, s.live q, c.invitation_live y q);
      invitations_once = λ y.
          let same : ((after_leave env w p x).player y).invitations ≡ (w.player y).invitations =
            s.invitations y ∙ ground arith in
          subst Distinct (sym same) (c.invitations_once y);
    }

-- The rest of `leave_party`, from what `hand_on` comes to.
abbrev departed : Env → ℕ → ℕ → World × Bool → World
departed env p x r =
    let w4 = after_leave env r.0 p x in
    if r.1 || is_empty_party (w4.party p) then disband env w4 p else w4

module _ (env : Env) (agreed : (p : ℕ) → env.on_disband p ≡ true) where
  -- What `leave_party` comes to, by who leaves.
  member_leaves :
      (w : World) (p x : ℕ)
      → w.live p ≡ true
      → leads w p x ≡ false
      → is_in w x p ≡ true
      → IsCoherent w
      → let w4 = after_leave env w p x in
        IsCoherent (if is_empty_party (w4.party p) then disband env w4 p else w4)
  member_leaves w p x alive no_leader home c =
      let w4 = after_leave env w p x in
      let s = after_leave-SameShape env w p x in
      let c4 =
        SameShape-IsCoherent (detach w p x) w4 s (detach-IsCoherent w p x alive no_leader home c) in
      let still : w4.live p ≡ true = s.live p ∙ (unfold detach in alive) in
      elim (Bool-cases (is_empty_party (w4.party p))) [
        | inl h ↦ rw h (disband_live-IsCoherent env w4 p (agreed p) still c4)
        | inr h ↦ rw h c4
      ]

  last_leaves :
      (w : World) (p x : ℕ)
      → w.live p ≡ true
      → leads w p x ≡ true
      → IsCoherent w
      → IsCoherent (departed env p x (w, true))
  last_leaves w p x alive leader c =
      let e : (w.party p).leader ≡ some x = ground arith in
      disband-IsCoherent env (after_leave env w p x) p x (agreed p) (leaderless env w p x alive e c)

  leader_leaves :
      (w : World) (p x m : ℕ)
      → w.live p ≡ true
      → leads w p x ≡ true
      → is_member w p m ≡ true
      → IsCoherent w
      → IsCoherent (departed env p x ((pass_party_leadership env w p m).0, false))
  leader_leaves w p x m alive leader member c =
      let v = (pass_party_leadership env w p m).0 in
      let e : (w.party p).leader ≡ some x = ground arith in
      let ne : m ≢ x = λ k. ground (arith, c.agree p x alive) in
      let home : is_in w m p ≡ true = ground (arith, c.agree p m alive) in
      let s = pass_party_leadership-SameShape env w p m x e ne home in
      let passed = pass_party_leadership-IsCoherent env w p m alive c in
      let still : v.live p ≡ true = s.live p ∙ (unfold lead_by in alive) in
      let no_leader : leads v p x ≡ false =
        ap (λ o. points_to o x) (s.leader p) ∙ (unfold lead_by in ground arith) in
      let mine : is_in v x p ≡ true =
        ap (λ o. points_to o p) (s.party x)
        ∙ (unfold lead_by in ground (arith, c.agree p x alive)) in
      member_leaves v p x still no_leader mine passed

  by_members :
      (w : World) (p x : ℕ) (ms : List ℕ)
      → (w.party p).members ≡ ms
      → w.live p ≡ true
      → leads w p x ≡ true
      → IsCoherent w
      → IsCoherent (
          departed env p x (elim ms [
            | [] ↦ (w, true)
            | m ∷ rest ↦
                if is_empty rest && is_empty (w.party p).invitees
                then (w, true)
                else ((pass_party_leadership env w p m).0, false)
          ]))
  by_members w p x [] e alive leader c = last_leaves w p x alive leader c
  by_members w p x (m ∷ rest) e alive leader c =
      elim (Bool-cases (is_empty rest && is_empty (w.party p).invitees)) [
        | inl h ↦ rw h (last_leaves w p x alive leader c)
        | inr h ↦ rw h (leader_leaves w p x m alive leader (ground (arith, e)) c)
      ]

  handed_on :
      (w : World) (p x : ℕ)
      → w.live p ≡ true
      → (is_in w x p || leads w p x) ≡ true
      → IsCoherent w
      → IsCoherent (departed env p x (hand_on env w p x))
  unfolding hand_on
  handed_on w p x alive here c = elim (Bool-cases (leads w p x)) [
    | inr h ↦ rw h (member_leaves w p x alive h (ground arith) c)
    | inl h ↦ rw h (by_members w p x (w.party p).members refl alive h c)
  ]

  pub leave_party-IsCoherent :
      (w : World) (p x : ℕ) → w.live p ≡ true → IsCoherent w → IsCoherent (leave_party env w p x).0
  unfolding leave_party
  leave_party-IsCoherent w p x alive c =
      elim (Bool-cases (not (is_in w x p) && not (leads w p x))) [
        | inl h ↦ rw h c
        | inr h ↦ rw h (elim (Bool-cases (env.on_leave p x)) [
          | inr k ↦ rw k c
          | inl k ↦ rw k (handed_on w p x alive (ground arith) c)
        ])
      ]
