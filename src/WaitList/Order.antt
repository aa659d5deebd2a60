-- ===== src/WaitList/Order.antt =====
-- What waitlist.cpp promises: nobody gets in over the limit, and every slot is a place in the queue.
use baiakthunder.Base.{
  ℕ, zero, suc, subst, Bool-cases, ◌-◌, ◌+◌, ◌≤◌, ◌<◌, ◌≡◌, ◌⊎◌, refl, Bool, true, false, ◌||◌,
  none, some, List, [], ◌∷◌, arith, length, ◌==◌, Option-cases, inl, inr,
}
use baiakthunder.WaitList.{
  Wait, Lists, Client, Server, Found, nowhere, in_priority, in_normal, cleanup, find, find_normal,
  find_client, login_found, login_new, login_by, login_waiting, client_login,
}

find_bounds :
    (guid : ℕ) (ws : List Wait) (slot n : ℕ)
    → find guid ws slot ≡ some n
    → (slot ≤ n) × (n < slot + length ws)
unfolding find
find_bounds guid [] slot n h = ground arith
find_bounds guid (w ∷ ws) slot n h = ground (arith, find_bounds guid ws (slot + 1) n)

abbrev pub is_at : ℕ → List Wait → ℕ → Bool
is_at guid [] i = false
is_at guid (w ∷ ws) zero = w.guid == guid
is_at guid (w ∷ ws) (suc i) = is_at guid ws i

abbrev pub names : ℕ → List Wait → Bool
names guid [] = false
names guid (w ∷ ws) = w.guid == guid || names guid ws

find-is_at :
    (guid : ℕ) (ws : List Wait) (slot n : ℕ)
    → find guid ws slot ≡ some n
    → is_at guid ws (n - slot) ≡ true
unfolding find
find-is_at guid [] slot n h = ground arith
find-is_at guid (w ∷ ws) slot n h = elim (Bool-cases (w.guid == guid)) [
  | inl k ↦
      let here : zero ≡ n - slot = ground arith in subst (λ i. is_at guid (w ∷ ws) i ≡ true) here k
  | inr k ↦
      let later : find guid ws (slot + 1) ≡ some n = ground arith in
      let (lo, hi) = find_bounds guid ws (slot + 1) n later in
      let step : suc (n - (slot + 1)) ≡ n - slot = omega arith in
      subst (λ i. is_at guid (w ∷ ws) i ≡ true) step (find-is_at guid ws (slot + 1) n later)
]

find-none :
    (guid : ℕ) (ws : List Wait) (slot : ℕ) → find guid ws slot ≡ none → names guid ws ≡ false
unfolding find
find-none guid [] slot h = refl
find-none guid (w ∷ ws) slot h = ground (arith, find-none guid ws (slot + 1))

-- What each answer of `find_client` says: the player is at that place of that list, the slot counts
-- the priority list before the other, and the priority list comes first.
abbrev pub Placed : Lists → ℕ → Found → Type 0
Placed l guid nowhere = (names guid l.priority ≡ false) × (names guid l.normal ≡ false)
Placed l guid (in_priority n) =
    (0 < n) × (n ≤ length l.priority) × (is_at guid l.priority (n - 1) ≡ true)
Placed l guid (in_normal n) =
    (names guid l.priority ≡ false)
    × (length l.priority < n)
    × (n ≤ length l.priority + length l.normal)
    × (is_at guid l.normal (n - (1 + length l.priority)) ≡ true)

-- A client found in the priority list has the slot of its place there, from 1; a client found in the
-- other list is not in the priority list, and its slot is its place there behind the whole priority
-- list; and a client found nowhere is in neither list.
pub find_client-Placed : (l : Lists) (guid : ℕ) → Placed l guid (find_client l guid)
unfolding find_client find_normal
find_client-Placed l guid = elim (Option-cases (find guid l.priority 1)) [
  | inr (n, h) ↦
      let (lo, hi) = find_bounds guid l.priority 1 n h in
      let e : in_priority n ≡ find_client l guid = ground arith in
      subst (Placed l guid) e (omega arith, omega arith, find-is_at guid l.priority 1 n h)
  | inl h ↦ elim (Option-cases (find guid l.normal (1 + length l.priority))) [
    | inr (n, k) ↦
        let (lo, hi) = find_bounds guid l.normal (1 + length l.priority) n k in
        let e : in_normal n ≡ find_client l guid = ground arith in
        subst (Placed l guid) e (
          find-none guid l.priority 1 h,
          omega arith,
          omega arith,
          find-is_at guid l.normal (1 + length l.priority) n k,
        )
    | inl k ↦
        let e : nowhere ≡ find_client l guid = ground arith in
        subst (Placed l guid) e
          (find-none guid l.priority 1 h, find-none guid l.normal (1 + length l.priority) k)
  ]
]

login_by_limit :
    (s : Server) (l : Lists) (c : Client) (f : Found)
    → find_client l c.guid ≡ f
    → (login_by s l c f).allowed ≡ true
    → s.players_online < s.max_players
unfolding login_by login_found login_new
login_by_limit s l c nowhere e h = ground arith
login_by_limit s l c (in_priority n) e h =
    ground (arith, subst (Placed l c.guid) e (find_client-Placed l c.guid))
login_by_limit s l c (in_normal n) e h =
    ground (arith, subst (Placed l c.guid) e (find_client-Placed l c.guid))

login_waiting_limit :
    (s : Server) (l : Lists) (c : Client) (slot : ℕ)
    → (login_waiting s l c slot).allowed ≡ true
    → (s.max_players ≡ 0) ⊎ (s.players_online < s.max_players)
unfolding login_waiting
login_waiting_limit s l c slot h = ground (arith, login_by_limit s l c (find_client l c.guid) refl)

-- A client without the privilege to enter a full server is let in only if the server has no limit, or
-- has fewer players online than its limit.
pub client_login_limit :
    (s : Server) (l : Lists) (c : Client) (slot : ℕ)
    → c.can_always_login ≡ false
    → c.is_gamemaster ≡ false
    → (client_login s l c slot).allowed ≡ true
    → (s.max_players ≡ 0) ⊎ (s.players_online < s.max_players)
unfolding client_login
client_login_limit s l c slot a g h =
    login_waiting_limit s
      (record { priority = cleanup s.time l.priority; normal = cleanup s.time l.normal }) c slot
      (ground arith)
