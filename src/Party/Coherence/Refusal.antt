-- ===== src/Party/Coherence/Refusal.antt =====
-- A Lua callback that refuses that a party is disbanded (src/party.cpp).
use baiakthunder.Base.{ℕ, ◌≡◌, refl, ap, ◌∙◌, true, false, none, some, [], arith}
use baiakthunder.Party.{World, Env, set_party}
use baiakthunder.Party.Members.{hand_on, detach, disband, leave_party}
use baiakthunder.Party.Coherence.Farewell.{after_leave, after_leave-SameShape}

disband_refused : (env : Env) (w : World) (p : ℕ) → env.on_disband p ≡ false → disband env w p ≡ w
unfolding disband
disband_refused env w p h = ground arith

-- If a leader without members leaves, the callback lets the leader leave but refuses that the party is
-- disbanded, then the call succeeds, the player is in no party, and yet the party is as alive as before
-- and has that player as its leader.
pub leave_party_refused :
    (env : Env) (w : World) (p x : ℕ)
    → (w.party p).leader ≡ some x
    → (w.party p).members ≡ []
    → env.on_leave p x ≡ true
    → env.on_disband p ≡ false
    → let (w', left) = leave_party env w p x in
      (left ≡ true)
      × ((w'.player x).party ≡ none)
      × (w'.live p ≡ w.live p)
      × ((w'.party p).leader ≡ some x)
unfolding leave_party hand_on
leave_party_refused env w p x e ms ok refused =
    let w4 = after_leave env w p x in
    let s = after_leave-SameShape env w p x in
    let kept = disband_refused env w4 p refused in
    (
      ground (arith, e, ms, ok),
      ap (λ (v : World). (v.player x).party) last
          ∙ ap (λ (v : World). (v.player x).party) kept
          ∙ s.party x
          ∙ (unfold detach set_party in ground arith),
      ap (λ (v : World). v.live p) last
          ∙ ap (λ (v : World). v.live p) kept
          ∙ s.live p
          ∙ (unfold detach in refl),
      ap (λ (v : World). (v.party p).leader) last
          ∙ ap (λ (v : World). (v.party p).leader) kept
          ∙ s.leader p
          ∙ (unfold detach in ground (arith, e)),
    )
  where
    last : (leave_party env w p x).0 ≡ disband env (after_leave env w p x) p
    last = ground (arith, e, ms, ok)
