-- ===== src/Party/Coherence/Histories.antt =====
-- The players' party commands of src/game.cpp, one after the other.
use baiakthunder.Base.{
  ℕ, ◌≡◌, refl, Bool, true, ◌&&◌, ◌||◌, not, Option, none, some, List, [], ◌∷◌, arith, ◌==◌,
  Bool-cases, Option-cases, inl, inr, false,
}
use baiakthunder.Party.{update, World, Env, is_inviting, is_partner, is_player_invited}
use baiakthunder.Party.Notice.{text}
use baiakthunder.Party.Text.{already_in_party}
use baiakthunder.Party.Experience.{set_shared_experience}
use baiakthunder.Party.Members.{leave_party, clear_party_invitations}
use baiakthunder.Party.Commands.{
  Command, invite, join, revoke, pass, leave, logout, share, step, new_party,
  player_invite_to_party, player_join_party, player_revoke_party_invitation,
  player_pass_party_leadership, player_leave_party, player_enable_shared_party_experience,
  on_remove_player, remove_player,
}
use baiakthunder.Party.Coherence.{IsCoherent, leads, SameShape-IsCoherent}
use baiakthunder.Party.Coherence.Shapes.{set_shared_experience-SameShape}
use baiakthunder.Party.Coherence.Withdrawal.{
  notify-IsCoherent, clear_party_invitations-IsCoherent, revoke_invitation-IsCoherent,
}
use baiakthunder.Party.Coherence.Members.{new_party-IsCoherent, invite_player-IsCoherent}
use baiakthunder.Party.Coherence.Leaving.{pass_party_leadership-IsCoherent}
use baiakthunder.Party.Coherence.Departure.{join_party-IsCoherent}
use baiakthunder.Party.Coherence.Farewell.{leave_party-IsCoherent}

home_live : (w : World) (x p : ℕ) → IsCoherent w → (w.player x).party ≡ some p → w.live p ≡ true
home_live w x p c e = c.in_live x p (ground (arith, e))

player_invite_to_party-IsCoherent :
    (w : World) (x y : ℕ) → IsCoherent w → IsCoherent (player_invite_to_party w x y)
unfolding player_invite_to_party
player_invite_to_party-IsCoherent w x y c =
    elim (Bool-cases (x == y || not (w.online x) || not (w.online y) || is_inviting w y x)) [
      | inl h ↦ rw h c
      | inr h ↦ rw h (elim (Option-cases (w.player y).party) [
        | inr (q, e) ↦ rw e (notify-IsCoherent w (text x already_in_party ∷ []) c)
        | inl e ↦ rw e (elim (Option-cases (w.player x).party) [
          | inl f ↦
              let alive : (new_party w x).live w.next_party ≡ true =
                unfold new_party in ground arith in
              rw f (
                invite_player-IsCoherent (new_party w x) w.next_party y alive
                  (new_party-IsCoherent w x f c))
          | inr (p, f) ↦ rw f (elim (Bool-cases (leads w p x)) [
            | inl k ↦ rw k (invite_player-IsCoherent w p y (home_live w x p c f) c)
            | inr k ↦ rw k c
          ])
        ])
      ])
    ]

remove_player-IsCoherent : (w : World) (x : ℕ) → IsCoherent w → IsCoherent (remove_player w x)
unfolding remove_player
remove_player-IsCoherent w x c =
    SameShape-IsCoherent w (record w { online = update w.online x false })
      (record {
        leader = λ p. refl;
        members = λ p. refl;
        invitees = λ p. refl;
        live = λ p. refl;
        next_party = refl;
        party = λ y. refl;
        invitations = λ y. refl;
      })
      c

module _ (env : Env) (agreed : (p : ℕ) → env.on_disband p ≡ true) where
  player_join_party-IsCoherent :
      (w : World) (x l : ℕ) → IsCoherent w → IsCoherent (player_join_party env w x l)
  unfolding player_join_party
  player_join_party-IsCoherent w x l c =
      elim (Bool-cases (not (w.online x) || not (w.online l) || not (is_inviting w l x))) [
        | inl h ↦ rw h c
        | inr h ↦ rw h (elim (Option-cases (w.player l).party) [
          | inl e ↦ rw e c
          | inr (p, e) ↦ rw e (elim (Bool-cases (leads w p l)) [
            | inr k ↦ rw k c
            | inl k ↦ rw k (elim (Option-cases (w.player x).party) [
              | inr (q, f) ↦ rw f (notify-IsCoherent w (text x already_in_party ∷ []) c)
              | inl f ↦ rw f (
                  join_party-IsCoherent env agreed w p x c (record {
                    alive = home_live w l p c e;
                    awaited = unfold is_inviting is_player_invited in ground (arith, h, e);
                    alone = f;
                  }))
            ])
          ])
        ])
      ]

  player_revoke_party_invitation-IsCoherent :
      (w : World) (x y : ℕ) → IsCoherent w → IsCoherent (player_revoke_party_invitation env w x y)
  unfolding player_revoke_party_invitation
  player_revoke_party_invitation-IsCoherent w x y c = elim (Bool-cases (w.online x)) [
    | inr h ↦ rw h c
    | inl h ↦ rw h (elim (Option-cases (w.player x).party) [
      | inl e ↦ rw e c
      | inr (p, e) ↦
          rw e
            (elim (Bool-cases (not (leads w p x) || not (w.online y) || not (is_inviting w x y))) [
              | inl k ↦ rw k c
              | inr k ↦ rw k (revoke_invitation-IsCoherent env agreed w p y (home_live w x p c e) c)
            ])
    ])
  ]

  player_pass_party_leadership-IsCoherent :
      (w : World) (x y : ℕ) → IsCoherent w → IsCoherent (player_pass_party_leadership env w x y)
  unfolding player_pass_party_leadership
  player_pass_party_leadership-IsCoherent w x y c = elim (Bool-cases (w.online x)) [
    | inr h ↦ rw h c
    | inl h ↦ rw h (elim (Option-cases (w.player x).party) [
      | inl e ↦ rw e c
      | inr (p, e) ↦
          rw e
            (elim (Bool-cases (not (leads w p x) || not (w.online y) || not (is_partner w x y))) [
              | inl k ↦ rw k c
              | inr k ↦ rw k (pass_party_leadership-IsCoherent env w p y (home_live w x p c e) c)
            ])
    ])
  ]

  player_leave_party-IsCoherent :
      (w : World) (x : ℕ) → IsCoherent w → IsCoherent (player_leave_party env w x)
  unfolding player_leave_party
  player_leave_party-IsCoherent w x c = elim (Bool-cases (w.online x)) [
    | inr h ↦ rw h c
    | inl h ↦ rw h (elim (Option-cases (w.player x).party) [
      | inl e ↦ rw e c
      | inr (p, e) ↦ rw e (elim (Bool-cases (w.player x).in_fight) [
        | inl k ↦ rw k c
        | inr k ↦ rw k (leave_party-IsCoherent env agreed w p x (home_live w x p c e) c)
      ])
    ])
  ]

  player_enable_shared_party_experience-IsCoherent :
      (w : World) (x : ℕ) (active : Bool)
      → IsCoherent w
      → IsCoherent (player_enable_shared_party_experience env w x active)
  unfolding player_enable_shared_party_experience
  player_enable_shared_party_experience-IsCoherent w x active c = elim (Bool-cases (w.online x)) [
    | inr h ↦ rw h c
    | inl h ↦ rw h (elim (Option-cases (w.player x).party) [
      | inl e ↦ rw e c
      | inr (p, e) ↦
          rw e (elim (Bool-cases ((w.player x).in_fight && not (w.player x).in_protection_zone)) [
            | inl k ↦ rw k c
            | inr k ↦ rw k (
                SameShape-IsCoherent w (set_shared_experience env w p x active).0
                  (set_shared_experience-SameShape env w p x active) c)
          ])
    ])
  ]

  leave_if_any :
      (w : World) (x : ℕ) (o : Option ℕ)
      → (w.player x).party ≡ o
      → IsCoherent w
      → IsCoherent (elim o [ none ↦ w | some p ↦ (leave_party env w p x).0 ])
  leave_if_any w x none e c = c
  leave_if_any w x (some p) e c = leave_party-IsCoherent env agreed w p x (home_live w x p c e) c

  on_remove_player-IsCoherent :
      (w : World) (x : ℕ) → IsCoherent w → IsCoherent (on_remove_player env w x)
  unfolding on_remove_player
  on_remove_player-IsCoherent w x c =
      let w1 = clear_party_invitations env w x in
      leave_if_any w1 x (w1.player x).party refl
        (clear_party_invitations-IsCoherent env agreed w x c)

  step-IsCoherent : (w : World) (m : Command) → IsCoherent w → IsCoherent (step env w m)
  unfolding step
  step-IsCoherent w (invite x y) c = player_invite_to_party-IsCoherent w x y c
  step-IsCoherent w (join x l) c = player_join_party-IsCoherent w x l c
  step-IsCoherent w (revoke x y) c = player_revoke_party_invitation-IsCoherent w x y c
  step-IsCoherent w (pass x y) c = player_pass_party_leadership-IsCoherent w x y c
  step-IsCoherent w (leave x) c = player_leave_party-IsCoherent w x c
  step-IsCoherent w (logout x) c =
      remove_player-IsCoherent (on_remove_player env w x) x (on_remove_player-IsCoherent w x c)
  step-IsCoherent w (share x active) c =
      player_enable_shared_party_experience-IsCoherent w x active c

-- The commands of a history, in order.
unfoldable pub run_commands : Env → World → List Command → World
run_commands env w [] = w
run_commands env w (m ∷ ms) = run_commands env (step env w m) ms

-- If the Lua callback never refuses that a party is disbanded, any sequence of party commands and
-- logouts keeps a coherent world coherent.
pub run_commands-IsCoherent :
    (env : Env) (w : World) (ms : List Command)
    → ((p : ℕ) → env.on_disband p ≡ true)
    → IsCoherent w
    → IsCoherent (run_commands env w ms)
unfolding run_commands
run_commands-IsCoherent env w [] agreed c = c
run_commands-IsCoherent env w (m ∷ ms) agreed c =
    run_commands-IsCoherent env (step env w m) ms agreed (step-IsCoherent env agreed w m c)
