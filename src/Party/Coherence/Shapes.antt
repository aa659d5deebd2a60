-- ===== src/Party/Coherence/Shapes.antt =====
-- The operations of src/party.cpp that leave the pointers alone.
use baiakthunder.Base.{
  ℕ, subst, ◌≡◌, refl, ◌∙◌, Bool, none, some, List, arith, Option-cases, inl, inr,
}
use baiakthunder.Party.{World, Env, Notice, notify, put_party, update}
use baiakthunder.Party.Experience.{
  update_shared_experience, set_shared_experience, clear_player_points,
}
use baiakthunder.Party.Coherence.{SameShape}

pub SameShape-refl : (w : World) → SameShape w w
SameShape-refl w = record {
  leader = λ p. refl;
  members = λ p. refl;
  invitees = λ p. refl;
  live = λ p. refl;
  next_party = refl;
  party = λ x. refl;
  invitations = λ x. refl;
}

pub SameShape-trans : (u v w : World) → SameShape u v → SameShape v w → SameShape u w
SameShape-trans u v w s t = record {
  leader = λ p. t.leader p ∙ s.leader p;
  members = λ p. t.members p ∙ s.members p;
  invitees = λ p. t.invitees p ∙ s.invitees p;
  live = λ p. t.live p ∙ s.live p;
  next_party = t.next_party ∙ s.next_party;
  party = λ x. t.party x ∙ s.party x;
  invitations = λ x. t.invitations x ∙ s.invitations x;
}

pub notify-SameShape : (w : World) (ns : List Notice) → SameShape w (notify w ns)
notify-SameShape w ns = record {
  leader = λ p. refl;
  members = λ p. refl;
  invitees = λ p. refl;
  live = λ p. refl;
  next_party = refl;
  party = λ x. refl;
  invitations = λ x. refl;
}

pub update_shared_experience-SameShape :
    (env : Env) (w : World) (p : ℕ) → SameShape w (update_shared_experience env w p)
unfolding update_shared_experience
update_shared_experience-SameShape env w p = record {
  leader = λ q. ground arith;
  members = λ q. ground arith;
  invitees = λ q. ground arith;
  live = λ q. ground arith;
  next_party = ground arith;
  party = λ x. ground arith;
  invitations = λ x. ground arith;
}

pub set_shared_experience-SameShape :
    (env : Env) (w : World) (p x : ℕ) (active : Bool)
    → SameShape w (set_shared_experience env w p x active).0
unfolding set_shared_experience
set_shared_experience-SameShape env w p x active = record {
  leader = λ q. ground arith;
  members = λ q. ground arith;
  invitees = λ q. ground arith;
  live = λ q. ground arith;
  next_party = ground arith;
  party = λ x. ground arith;
  invitations = λ x. ground arith;
}

pub clear_player_points-SameShape :
    (env : Env) (w : World) (p x : ℕ) → SameShape w (clear_player_points env w p x)
unfolding clear_player_points
clear_player_points-SameShape env w p x = elim (Option-cases ((w.party p).ticks x)) [
  | inl h ↦ subst (SameShape w) (cleared_none h) (SameShape-refl w)
  | inr (t, h) ↦ subst (SameShape w) (cleared_some t h) (
      SameShape-trans w without (update_shared_experience env without p) ticks_only
        (update_shared_experience-SameShape env without p))
]
  where
    without : World
    without = put_party w p (record (w.party p) { ticks = update (w.party p).ticks x none })

    ticks_only : SameShape w without
    ticks_only = record {
      leader = λ q. ground arith;
      members = λ q. ground arith;
      invitees = λ q. ground arith;
      live = λ q. refl;
      next_party = refl;
      party = λ x. refl;
      invitations = λ x. refl;
    }

    cleared_none : (w.party p).ticks x ≡ none → w ≡ clear_player_points env w p x
    cleared_none h = ground arith

    cleared_some :
        (t : ℕ)
        → (w.party p).ticks x ≡ some t
        → update_shared_experience env without p ≡ clear_player_points env w p x
    cleared_some t h = ground arith
