-- ===== src/Party.antt =====
-- The state behind src/party.cpp: players and parties as a store of objects that point at each
-- other. A `Player*` and a `Party*` are identifiers; `live` tells the parties that were made and not
-- deleted. What clients are sent is a list of notices, in order.
pub mod Experience
pub mod Members
pub mod Commands
pub mod Sharing
pub mod Names
pub mod Coherence
mod Tests
use baiakthunder.Base.{
  ℕ, Bool, true, false, ◌&&◌, ◌||◌, not, Option, none, some, List, [], ◌∷◌, ◌++◌, ◌==◌,
  if◌then◌else◌,
}
use baiakthunder.Position.{Position}

pub record Player : Type 0 where
  pub level : ℕ
  pub position : Position
  pub not_gain_in_fight : Bool
  pub in_fight : Bool
  pub in_protection_zone : Bool
  pub party : Option ℕ
  pub invitations : List ℕ

pub record Party : Type 0 where
  pub leader : Option ℕ
  pub members : List ℕ
  pub invitees : List ℕ
  pub ticks : ℕ → Option ℕ
  pub shared_active : Bool
  pub shared_enabled : Bool

pub data Text : Type 0 where
  disbanded left joined leads revoked invited already_in_party shared_on shared_on_inactive
        shared_off :
      Text

-- A packet to the first player. `shield_update` goes to all that see the player.
pub data Notice : Type 0 where
  close_party_channel shield_update : ℕ → Notice
  creature_skull creature_shield : ℕ → ℕ → Notice
  text : ℕ → Text → Notice
  gain : ℕ → ℕ → Notice

pub record World : Type 0 where
  pub player : ℕ → Player
  pub party : ℕ → Party
  pub live : ℕ → Bool
  pub next_party : ℕ
  pub online : ℕ → Bool
  pub time : ℕ
  pub outbox : List Notice

-- What the program takes from outside: the Lua event callbacks, by their answers, and the
-- configuration's PZ_LOCKED.
pub record Env : Type 0 where
  pub on_disband : ℕ → Bool
  pub on_leave : ℕ → ℕ → Bool
  pub on_join : ℕ → ℕ → Bool
  pub on_share_experience : ℕ → ℕ → ℕ
  pub pz_locked : ℕ

abbrev pub update {ℓ} : {A : Type ℓ} → (ℕ → A) → ℕ → A → ℕ → A
update f k v i = if k == i then v else f i

abbrev pub contains : ℕ → List ℕ → Bool
contains x [] = false
contains x (y ∷ ys) = y == x || contains x ys

-- std::find and erase: the first occurrence goes.
abbrev pub remove : ℕ → List ℕ → List ℕ
remove x [] = []
remove x (y ∷ ys) = if y == x then ys else y ∷ remove x ys

abbrev pub is_empty {ℓ} : {A : Type ℓ} → List A → Bool
is_empty [] = true
is_empty (x ∷ xs) = false

abbrev pub points_to : Option ℕ → ℕ → Bool
points_to none x = false
points_to (some y) x = y == x

-- A packet for each element of a list.
abbrev pub each {ℓ} : {A : Type ℓ} → List A → (A → List Notice) → List Notice
each [] f = []
each (x ∷ xs) f = f x ++ each xs f

abbrev pub to_leader : Option ℕ → (ℕ → List Notice) → List Notice
to_leader none f = []
to_leader (some l) f = f l

abbrev pub notify : World → List Notice → World
notify w ns = record w { outbox = w.outbox ++ ns }

abbrev pub put_party : World → ℕ → Party → World
put_party w p pt = record w { party = update w.party p pt }

-- Player::setParty
unfoldable pub set_party : (ℕ → Player) → ℕ → Option ℕ → ℕ → Player
set_party ps x party = update ps x (record (ps x) { party = party })

-- Player::addPartyInvitation
unfoldable pub add_party_invitation : (ℕ → Player) → ℕ → ℕ → ℕ → Player
add_party_invitation ps x p =
    if contains p (ps x).invitations
    then ps
    else update ps x (record (ps x) { invitations = (ps x).invitations ++ p ∷ [] })

-- Player::removePartyInvitation
unfoldable pub remove_party_invitation : (ℕ → Player) → ℕ → ℕ → ℕ → Player
remove_party_invitation ps x p =
    update ps x (record (ps x) { invitations = remove p (ps x).invitations })

-- Party::empty
unfoldable pub is_empty_party : Party → Bool
is_empty_party pt = is_empty pt.members && is_empty pt.invitees

-- Party::isPlayerInvited
unfoldable pub is_player_invited : Party → ℕ → Bool
is_player_invited pt x = contains x pt.invitees

-- Player::isInviting
unfoldable pub is_inviting : World → ℕ → ℕ → Bool
is_inviting w x y = elim (w.player x).party [
  | none ↦ false
  | some p ↦ if points_to (w.party p).leader x then is_player_invited (w.party p) y else false
]

-- Player::isPartner
unfoldable pub is_partner : World → ℕ → ℕ → Bool
is_partner w x y =
    if y == x
    then false
    else elim (w.player x).party [ none ↦ false | some p ↦ points_to (w.player y).party p ]
