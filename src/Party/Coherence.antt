-- ===== src/Party/Coherence.antt =====
-- When the pointers between the players and the parties of src/party.cpp agree.
pub mod Shapes
pub mod Disbanding
pub mod Invitations
pub mod Withdrawal
pub mod Waiting
pub mod Members
pub mod Leaving
pub mod Departure
pub mod Farewell
pub mod Histories
pub mod Refusal
use baiakthunder.Base.{
  ℕ, ◌<◌, ◌≡◌, refl, sym, ap, ◌∙◌, subst, Bool, true, false, ◌&&◌, ◌||◌, Option, none, some, List,
  arith, ◌==◌,
}
use baiakthunder.Party.{Player, Party, World, contains, points_to}
use baiakthunder.Party.Names.{Distinct}

abbrev pub leads : World → ℕ → ℕ → Bool
leads w p x = points_to (w.party p).leader x

abbrev pub is_member : World → ℕ → ℕ → Bool
is_member w p x = contains x (w.party p).members

abbrev pub is_invitee : World → ℕ → ℕ → Bool
is_invitee w p x = contains x (w.party p).invitees

abbrev pub is_in : World → ℕ → ℕ → Bool
is_in w x p = points_to (w.player x).party p

abbrev pub has_invitation : World → ℕ → ℕ → Bool
has_invitation w x p = contains p (w.player x).invitations

abbrev pub is_some : Option ℕ → Bool
is_some none = false
is_some (some x) = true

-- What holds of one party, and of one party and one player.
pub record IsOrdered (w : World) (p : ℕ) : Type 0 where
  pub led : is_some (w.party p).leader ≡ true
  pub members_once : Distinct (w.party p).members
  pub invitees_once : Distinct (w.party p).invitees
  pub fresh : p < w.next_party

pub record Agree (w : World) (p x : ℕ) : Type 0 where
  pub home : is_in w x p ≡ (leads w p x || is_member w p x)
  pub one_role : (leads w p x && is_member w p x) ≡ false
  pub invited : is_invitee w p x ≡ has_invitation w x p

-- A party that is alive has a leader; the players whose party it is are its leader and its members,
-- each in one role and once; its invitees are the players that hold an invitation to it, each once.
-- Nobody is in a party that is not alive, or invited to one.
pub record IsCoherent (w : World) : Type 0 where
  pub ordered : (p : ℕ) → w.live p ≡ true → IsOrdered w p
  pub agree : (p x : ℕ) → w.live p ≡ true → Agree w p x
  pub in_live : (x p : ℕ) → is_in w x p ≡ true → w.live p ≡ true
  pub invitation_live : (x p : ℕ) → has_invitation w x p ≡ true → w.live p ≡ true
  pub invitations_once : (x : ℕ) → Distinct (w.player x).invitations

-- The two worlds differ in nothing that coherence is about.
pub record SameShape (w v : World) : Type 0 where
  pub leader : (p : ℕ) → (v.party p).leader ≡ (w.party p).leader
  pub members : (p : ℕ) → (v.party p).members ≡ (w.party p).members
  pub invitees : (p : ℕ) → (v.party p).invitees ≡ (w.party p).invitees
  pub live : (p : ℕ) → v.live p ≡ w.live p
  pub next_party : v.next_party ≡ w.next_party
  pub party : (x : ℕ) → (v.player x).party ≡ (w.player x).party
  pub invitations : (x : ℕ) → (v.player x).invitations ≡ (w.player x).invitations

pub SameShape-IsCoherent : (w v : World) → SameShape w v → IsCoherent w → IsCoherent v
SameShape-IsCoherent w v s c = record {
  ordered = λ p h.
      let o = c.ordered p (sym (s.live p) ∙ h) in
      record {
        led = ap is_some (s.leader p) ∙ o.led;
        members_once = subst Distinct (sym (s.members p)) o.members_once;
        invitees_once = subst Distinct (sym (s.invitees p)) o.invitees_once;
        fresh = omega (arith, o.fresh, s.next_party);
      };
  agree = λ p x h.
      let a = c.agree p x (sym (s.live p) ∙ h) in
      record {
        home = rw (s.party x, s.leader p, s.members p) a.home;
        one_role = rw (s.leader p, s.members p) a.one_role;
        invited = rw (s.invitees p, s.invitations x) a.invited;
      };
  in_live = λ x p h. s.live p ∙ c.in_live x p (ap (λ o. points_to o p) (sym (s.party x)) ∙ h);
  invitation_live =
      λ x p h. s.live p ∙ c.invitation_live x p (ap (contains p) (sym (s.invitations x)) ∙ h);
  invitations_once = λ x. subst Distinct (sym (s.invitations x)) (c.invitations_once x);
}
