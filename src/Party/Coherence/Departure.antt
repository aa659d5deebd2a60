-- ===== src/Party/Coherence/Departure.antt =====
-- Party::joinParty and Party::leaveParty of src/party.cpp keep the pointers in agreement.
use baiakthunder.Base.{
  ℕ, ◌≡◌, ◌≢◌, true, false, none, some, [], ◌∷◌, ◌++◌, arith, if◌then◌else◌, Bool-cases, inl, inr,
}
use baiakthunder.Party.{Party, World, Env, notify, is_empty}
use baiakthunder.Party.Notice.{text}
use baiakthunder.Party.Text.{joined}
use baiakthunder.Party.Experience.{update_shared_experience}
use baiakthunder.Party.Members.{admit, welcome, join_party, clear_party_invitations, broadcast}
use baiakthunder.Party.Coherence.{IsCoherent, SameShape-IsCoherent}
use baiakthunder.Party.Coherence.Shapes.{update_shared_experience-SameShape}
use baiakthunder.Party.Coherence.Invitations.{leader_of}
use baiakthunder.Party.Coherence.Withdrawal.{notify-IsCoherent, clear_party_invitations-IsCoherent}
use baiakthunder.Party.Coherence.Waiting.{Awaits, clear_party_invitations-Awaits}
use baiakthunder.Party.Coherence.Members.{enlist, enlist-IsCoherent}

update_shared_experience-IsCoherent :
    (env : Env) (w : World) (p : ℕ) → IsCoherent w → IsCoherent (update_shared_experience env w p)
update_shared_experience-IsCoherent env w p c =
    SameShape-IsCoherent w (update_shared_experience env w p)
      (update_shared_experience-SameShape env w p) c

module _ (env : Env) (agreed : (p : ℕ) → env.on_disband p ≡ true) where
  admit-IsCoherent :
      (w : World) (p x : ℕ) → IsCoherent w → Awaits w p x → IsCoherent (admit env w p x)
  unfolding admit
  admit-IsCoherent w p x c a =
      let pt' : Party = record (w.party p) { members = (w.party p).members ++ x ∷ [] } in
      let w1 = notify (enlist w p x) (broadcast pt' joined false) in
      let w2 = clear_party_invitations env w1 x in
      let w3 = notify w2 (welcome (w2.party p) x) in
      let enlisted = enlist-IsCoherent w p x a.alive a.alone c in
      let c1 = notify-IsCoherent (enlist w p x) (broadcast pt' joined false) enlisted in
      let c2 = clear_party_invitations-IsCoherent env agreed w1 x c1 in
      let c3 = notify-IsCoherent w2 (welcome (w2.party p) x) c2 in
      unfold enlist in
      notify-IsCoherent (update_shared_experience env w3 p) (text x joined ∷ [])
        (update_shared_experience-IsCoherent env w3 p c3)

  -- The first member's case: the leader's own invitations go.
  before_joining :
      (w : World) (p x : ℕ)
      → IsCoherent w
      → Awaits w p x
      → let w1 : World =
          if is_empty (w.party p).members
          then elim (w.party p).leader [ none ↦ w | some l ↦ clear_party_invitations env w l ]
          else w in
        IsCoherent w1 × Awaits w1 p x
  before_joining w p x c a = elim (Bool-cases (is_empty (w.party p).members)) [
    | inr h ↦ rw h (c, a)
    | inl h ↦
        let (l, e) = leader_of w p a.alive c in
        let ne : l ≢ x = λ k. ground (arith, e, c.agree p l a.alive, a.alone) in
        rw (h, e)
          (
            clear_party_invitations-IsCoherent env agreed w l c,
            clear_party_invitations-Awaits env w l p x ne a,
          )
  ]

  pub join_party-IsCoherent :
      (w : World) (p x : ℕ) → IsCoherent w → Awaits w p x → IsCoherent (join_party env w p x).0
  unfolding join_party
  join_party-IsCoherent w p x c a = elim (Bool-cases (env.on_join p x)) [
    | inl h ↦ let (c1, a1) = before_joining w p x c a in rw h (admit-IsCoherent _ p x c1 a1)
    | inr h ↦ rw h c
  ]
