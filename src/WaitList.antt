-- ===== src/WaitList.antt =====
-- src/waitlist.cpp: the queue in front of a full server. Times are milliseconds, and do not wrap.
pub mod Order
pub mod Queue
mod Tests
use baiakthunder.Base.{
  ℕ, ◌+◌, ◌*◌, Bool, true, false, ◌&&◌, ◌||◌, Option, none, some, List, [], ◌∷◌, ◌++◌, length, ltb,
  leb, ◌==◌, if◌then◌else◌,
}

pub record Wait : Type 0 where
  pub timeout : ℕ
  pub guid : ℕ

-- `WaitListInfo`
pub record Lists : Type 0 where
  pub priority : List Wait
  pub normal : List Wait

-- What `clientLogin` asks of the player, of the configuration, of the game and of the clock.
pub record Client : Type 0 where
  pub guid : ℕ
  pub can_always_login : Bool
  pub is_gamemaster : Bool
  pub is_premium : Bool

pub record Server : Type 0 where
  pub max_players : ℕ
  pub players_online : ℕ
  pub time : ℕ

pub cleanup : ℕ → List Wait → List Wait
cleanup time [] = []
cleanup time (w ∷ ws) = if leb w.timeout time then cleanup time ws else w ∷ cleanup time ws

-- WaitingList::getTime, in seconds
pub get_time : ℕ → ℕ
get_time slot =
    if ltb slot 5
    then 5
    else if ltb slot 10
    then 10
    else if ltb slot 20
    then 20
    else if ltb slot 50
    then 60
    else 120

pub get_timeout : ℕ → ℕ
unfolding get_time
get_timeout slot = get_time slot + 15

-- A loop of `findClient`, whose counter starts at `slot`.
pub find : ℕ → List Wait → ℕ → Option ℕ
find guid [] slot = none
find guid (w ∷ ws) slot =
    let later = find guid ws (slot + 1) in if w.guid == guid then some slot else later

-- Where the client stands: which list, and the slot over both.
pub data Found : Type 0 where
  nowhere : Found
  in_priority in_normal : ℕ → Found

pub find_normal : Lists → ℕ → Found
unfolding find
find_normal l guid = elim (find guid l.normal (1 + length l.priority)) [
  | some slot ↦ in_normal slot
  | none ↦ nowhere
]

pub find_client : Lists → ℕ → Found
unfolding find find_normal
find_client l guid = elim (find guid l.priority 1) [
  | some slot ↦ in_priority slot
  | none ↦ find_normal l guid
]

-- The two uses of the iterator: `erase`, and a new timeout.
pub erase : ℕ → List Wait → List Wait
erase guid [] = []
erase guid (w ∷ ws) = if w.guid == guid then ws else w ∷ erase guid ws

pub set_timeout : ℕ → ℕ → List Wait → List Wait
set_timeout guid t [] = []
set_timeout guid t (w ∷ ws) =
    if w.guid == guid then record w { timeout = t } ∷ ws else w ∷ set_timeout guid t ws

-- What a login comes to: let in or not, the slot that the client is told (the caller's variable, if
-- the call does not set it), and the lists.
pub record Outcome : Type 0 where
  pub allowed : Bool
  pub slot : ℕ
  pub lists : Lists

-- A client that waits already.
pub login_found : Server → Lists → ℕ → ℕ → (Lists → (List Wait → List Wait) → Lists) → Outcome
unfolding erase set_timeout get_timeout
login_found s l guid slot change =
    if leb (s.players_online + slot) s.max_players
    then record { allowed = true; slot = slot; lists = change l (erase guid) }
    else record {
      allowed = false;
      slot = slot;
      lists = change l (set_timeout guid (s.time + get_timeout slot * 1000));
    }

-- A client that is new to the lists.
pub login_new : Server → Lists → Client → Outcome
unfolding get_timeout
login_new s l c =
    let after_priority = length l.priority + 1 in
    let at_end = length l.priority + length l.normal + 1 in
    let wait : ℕ → Wait =
      λ slot. record { timeout = s.time + get_timeout slot * 1000; guid = c.guid } in
    if c.is_premium
    then record {
      allowed = false;
      slot = after_priority;
      lists = record l { priority = l.priority ++ wait after_priority ∷ [] };
    }
    else record {
      allowed = false;
      slot = at_end;
      lists = record l { normal = l.normal ++ wait at_end ∷ [] };
    }

abbrev pub in_first : Lists → (List Wait → List Wait) → Lists
in_first l f = record l { priority = f l.priority }

abbrev pub in_second : Lists → (List Wait → List Wait) → Lists
in_second l f = record l { normal = f l.normal }

abbrev pub is_empty : List Wait → Bool
is_empty [] = true
is_empty (w ∷ ws) = false

pub login_by : Server → Lists → Client → Found → Outcome
unfolding login_found login_new
login_by s l c nowhere = login_new s l c
login_by s l c (in_priority n) = login_found s l c.guid n in_first
login_by s l c (in_normal n) = login_found s l c.guid n in_second

-- Behind the cleanup of both lists.
pub login_waiting : Server → Lists → Client → ℕ → Outcome
unfolding find_client login_by
login_waiting s l c slot =
    if s.max_players == 0
      || (is_empty l.priority && is_empty l.normal && ltb s.players_online s.max_players)
    then record { allowed = true; slot = slot; lists = l }
    else login_by s l c (find_client l c.guid)

-- WaitingList::clientLogin
pub client_login : Server → Lists → Client → ℕ → Outcome
unfolding cleanup login_waiting
client_login s l c slot =
    if c.can_always_login || c.is_gamemaster
    then record { allowed = true; slot = slot; lists = l }
    else login_waiting s
        (record { priority = cleanup s.time l.priority; normal = cleanup s.time l.normal }) c slot
