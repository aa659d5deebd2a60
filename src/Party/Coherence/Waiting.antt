-- ===== src/Party/Coherence/Waiting.antt =====
-- What the loss of some invitations leaves of another player's (src/player.cpp, src/party.cpp).
use baiakthunder.Base.{
  ℕ, ◌≡◌, ◌≢◌, refl, sym, ap, ◌∙◌, subst, true, false, ◌&&◌, none, List, [], ◌∷◌, arith, Bool-cases,
  Option-cases, inl, inr,
}
use baiakthunder.Party.{Party, World, Env, contains, remove, set_party, is_empty, is_empty_party}
use baiakthunder.Party.Members.{
  disband, remove_invite, withdraw, clear_party_invitations, forget_invitation,
}
use baiakthunder.Party.Coherence.{is_invitee}
use baiakthunder.Party.Coherence.Disbanding.{release_members-party, forget_invitation-party}
use baiakthunder.Party.Coherence.Invitations.{
  told, disband_if_empty, remove_invite-disband_if_empty,
}
use baiakthunder.Party.Coherence.Withdrawal.{remove_invite_stranger}

-- A player in no party whose invitation stands, in a party that is alive.
pub record Awaits (w : World) (p y : ℕ) : Type 0 where
  pub alive : w.live p ≡ true
  pub awaited : is_invitee w p y ≡ true
  pub alone : (w.player y).party ≡ none

contains-remove_ne : (x y : ℕ) (xs : List ℕ) → x ≢ y → contains y (remove x xs) ≡ contains y xs
contains-remove_ne x y [] ne = refl
contains-remove_ne x y (z ∷ zs) ne = ground (arith, contains-remove_ne x y zs ne)

disband-alone :
    (env : Env) (w : World) (p y : ℕ)
    → (w.player y).party ≡ none
    → ((disband env w p).player y).party ≡ none
unfolding disband set_party
disband-alone env w p y h = elim (Option-cases (w.party p).leader) [
  | inl e ↦ ground (arith, e)
  | inr (l, e) ↦ ground (
    arith,
    e,
    release_members-party (w.party p).members
        (forget_invitation p (w.party p).invitees (set_party w.player l none)) y,
    forget_invitation-party p (w.party p).invitees (set_party w.player l none) y,
  )
]

disband-elsewhere :
    (env : Env) (w : World) (q p : ℕ)
    → q ≢ p
    → ((disband env w q).live p ≡ w.live p) × ((disband env w q).party p ≡ w.party p)
unfolding disband
disband-elsewhere env w q p ne = elim (Option-cases (w.party q).leader) [
  | inl e ↦ ground (arith, e)
  | inr (l, e) ↦ ground (arith, e)
]

not_empty : (y : ℕ) (pt : Party) → contains y pt.invitees ≡ true → is_empty_party pt ≡ false
unfolding is_empty_party
not_empty y pt h = not_nil pt.invitees h
  where
    not_nil : (xs : List ℕ) → contains y xs ≡ true → (is_empty pt.members && is_empty xs) ≡ false
    not_nil [] k = cc
    not_nil (x ∷ xs) k = ground arith

told-Awaits : (w : World) (q x p y : ℕ) → x ≢ y → Awaits w p y → Awaits (told w q x) p y
told-Awaits w q x p y ne a = record {
  alive = a.alive;
  awaited = ground (arith, contains-remove_ne x y (w.party q).invitees ne);
  alone = a.alone;
}

disband_if_empty-Awaits :
    (env : Env) (w : World) (q p y : ℕ) → Awaits w p y → Awaits (disband_if_empty env w q) p y
unfolding disband_if_empty
disband_if_empty-Awaits env w q p y a = elim (Bool-cases (is_empty_party (w.party q))) [
  | inr h ↦ rw h a
  | inl h ↦
      let ne : q ≢ p = λ e. ground (arith, not_empty y (w.party p)) in
      let (same_live, same_party) = disband-elsewhere env w q p ne in
      rw h (record {
        alive = same_live ∙ a.alive;
        awaited = ap (λ (pt : Party). contains y pt.invitees) same_party ∙ a.awaited;
        alone = disband-alone env w q y a.alone;
      })
]

remove_invite-Awaits :
    (env : Env) (w : World) (q x p y : ℕ)
    → x ≢ y
    → Awaits w p y
    → Awaits (remove_invite env w q x false).0 p y
remove_invite-Awaits env w q x p y ne a = elim (Bool-cases (is_invitee w q x)) [
  | inl h ↦
      subst (λ v. Awaits v p y) (sym (remove_invite-disband_if_empty env w q x h))
        (disband_if_empty-Awaits env (told w q x) q p y (told-Awaits w q x p y ne a))
  | inr h ↦ subst (λ v. Awaits v p y) (sym (remove_invite_stranger env w q x false h)) a
]

withdraw-Awaits :
    (env : Env) (qs : List ℕ) (w : World) (x p y : ℕ)
    → x ≢ y
    → Awaits w p y
    → Awaits (withdraw env w x qs) p y
unfolding withdraw
withdraw-Awaits env [] w x p y ne a = a
withdraw-Awaits env (q ∷ qs) w x p y ne a =
    withdraw-Awaits env qs (remove_invite env w q x false).0 x p y ne
      (remove_invite-Awaits env w q x p y ne a)

-- Others may lose all their invitations: the player still waits.
pub clear_party_invitations-Awaits :
    (env : Env) (w : World) (x p y : ℕ)
    → x ≢ y
    → Awaits w p y
    → Awaits (clear_party_invitations env w x) p y
unfolding clear_party_invitations
clear_party_invitations-Awaits env w x p y ne a =
    let b = withdraw-Awaits env (w.player x).invitations w x p y ne a in
    record { alive = b.alive; awaited = b.awaited; alone = ground (arith, b.alone) }
