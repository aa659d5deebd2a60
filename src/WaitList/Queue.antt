-- ===== src/WaitList/Queue.antt =====
-- The lists of waitlist.cpp name each waiting client once.
use baiakthunder.Base.{
  ℕ, ◌+◌, ◌*◌, ◌≡◌, ◌≢◌, ◌⊎◌, refl, sym, subst, ℕ_discrete, ◌&&◌, ◌||◌, none, List, [], ◌∷◌, ◌++◌,
  arith, length, ltb, leb, ◌==◌, Bool-cases, inl, inr,
}
use baiakthunder.WaitList.{
  Wait, Lists, Client, Server, Found, nowhere, in_priority, in_normal, cleanup, get_timeout, find,
  find_normal, find_client, erase, set_timeout, login_found, login_new, login_by, login_waiting,
  client_login, in_first, in_second, is_empty,
}

-- No client of the queue has this identifier.
abbrev pub Absent : ℕ → List Wait → Type 0
Absent guid [] = Unit {0}
Absent guid (w ∷ ws) = (w.guid ≢ guid) × Absent guid ws

abbrev pub Distinct : List Wait → Type 0
Distinct [] = Unit {0}
Distinct (w ∷ ws) = Absent w.guid ws × Distinct ws

-- Each list names a client once, and no client is in both.
pub record IsQueue (l : Lists) : Type 0 where
  pub priority_once : Distinct l.priority
  pub normal_once : Distinct l.normal
  pub not_both : (guid : ℕ) → Absent guid l.priority ⊎ Absent guid l.normal

Absent-cleanup : (g t : ℕ) (ws : List Wait) → Absent g ws → Absent g (cleanup t ws)
unfolding cleanup
Absent-cleanup g t [] a = tt
Absent-cleanup g t (w ∷ ws) a = ground (arith, Absent-cleanup g t ws a.1)

Distinct-cleanup : (t : ℕ) (ws : List Wait) → Distinct ws → Distinct (cleanup t ws)
unfolding cleanup
Distinct-cleanup t [] d = tt
Distinct-cleanup t (w ∷ ws) d =
    ground (arith, Distinct-cleanup t ws d.1, Absent-cleanup w.guid t ws d.0)

Absent-erase : (g x : ℕ) (ws : List Wait) → Absent g ws → Absent g (erase x ws)
unfolding erase
Absent-erase g x [] a = tt
Absent-erase g x (w ∷ ws) a = ground (arith, Absent-erase g x ws a.1)

Distinct-erase : (x : ℕ) (ws : List Wait) → Distinct ws → Distinct (erase x ws)
unfolding erase
Distinct-erase x [] d = tt
Distinct-erase x (w ∷ ws) d = ground (arith, Distinct-erase x ws d.1, Absent-erase w.guid x ws d.0)

Absent-set_timeout : (g x t : ℕ) (ws : List Wait) → Absent g ws → Absent g (set_timeout x t ws)
unfolding set_timeout
Absent-set_timeout g x t [] a = tt
Absent-set_timeout g x t (w ∷ ws) a = ground (arith, Absent-set_timeout g x t ws a.1)

Distinct-set_timeout : (x t : ℕ) (ws : List Wait) → Distinct ws → Distinct (set_timeout x t ws)
unfolding set_timeout
Distinct-set_timeout x t [] d = tt
Distinct-set_timeout x t (w ∷ ws) d =
    ground (arith, Distinct-set_timeout x t ws d.1, Absent-set_timeout w.guid x t ws d.0)

Absent-append :
    (g : ℕ) (ws : List Wait) (w : Wait) → Absent g ws → w.guid ≢ g → Absent g (ws ++ w ∷ [])
Absent-append g [] w a n = (n, tt)
Absent-append g (v ∷ ws) w a n = (a.0, Absent-append g ws w a.1 n)

Distinct-append :
    (ws : List Wait) (w : Wait) → Distinct ws → Absent w.guid ws → Distinct (ws ++ w ∷ [])
Distinct-append [] w d a = (tt, tt)
Distinct-append (v ∷ ws) w d a =
    (Absent-append v.guid ws w d.0 (λ e. a.0 (sym e)), Distinct-append ws w d.1 a.1)

find-Absent : (g : ℕ) (ws : List Wait) (slot : ℕ) → find g ws slot ≡ none → Absent g ws
unfolding find
find-Absent g [] slot h = tt
find-Absent g (w ∷ ws) slot h = ground (arith, find-Absent g ws (slot + 1))

found_nowhere :
    (l : Lists) (guid : ℕ)
    → find_client l guid ≡ nowhere
    → Absent guid l.priority × Absent guid l.normal
unfolding find_client find_normal
found_nowhere l guid h = (
  find-Absent guid l.priority 1 (ground arith),
  find-Absent guid l.normal (1 + length l.priority) (ground arith),
)

-- Changing one list so that it stays distinct and gains no client keeps the queue.
in_first-IsQueue :
    (l : Lists) (f : List Wait → List Wait)
    → Distinct (f l.priority)
    → ((g : ℕ) → Absent g l.priority → Absent g (f l.priority))
    → IsQueue l
    → IsQueue (in_first l f)
in_first-IsQueue l f d a q = record {
  priority_once = d;
  normal_once = q.normal_once;
  not_both = λ g. first_of_two g (q.not_both g);
}
  where
    first_of_two :
        (g : ℕ)
        → Absent g l.priority ⊎ Absent g l.normal
        → Absent g (f l.priority) ⊎ Absent g l.normal
    first_of_two g (inl x) = inl (a g x)
    first_of_two g (inr x) = inr x

in_second-IsQueue :
    (l : Lists) (f : List Wait → List Wait)
    → Distinct (f l.normal)
    → ((g : ℕ) → Absent g l.normal → Absent g (f l.normal))
    → IsQueue l
    → IsQueue (in_second l f)
in_second-IsQueue l f d a q = record {
  priority_once = q.priority_once;
  normal_once = d;
  not_both = λ g. second_of_two g (q.not_both g);
}
  where
    second_of_two :
        (g : ℕ)
        → Absent g l.priority ⊎ Absent g l.normal
        → Absent g l.priority ⊎ Absent g (f l.normal)
    second_of_two g (inl x) = inl x
    second_of_two g (inr x) = inr (a g x)

login_found-IsQueue :
    (s : Server) (l : Lists) (guid n : ℕ) (change : Lists → (List Wait → List Wait) → Lists)
    → IsQueue (change l (erase guid))
    → ((t : ℕ) → IsQueue (change l (set_timeout guid t)))
    → IsQueue (login_found s l guid n change).lists
unfolding login_found
login_found-IsQueue s l guid n change e t =
    elim (Bool-cases (leb (s.players_online + n) s.max_players)) [
      | inl h ↦ rw h e
      | inr h ↦ rw h (t (s.time + get_timeout n * 1000))
    ]

-- A new client at the end of one list is not in the other.
still_apart :
    (u v : List Wait) (w : Wait) (g : ℕ)
    → Absent w.guid v
    → Absent g u ⊎ Absent g v
    → Absent g (u ++ w ∷ []) ⊎ Absent g v
still_apart u v w g a (inr y) = inr y
still_apart u v w g a (inl x) = elim (ℕ_discrete w.guid g) [
  | yes e ↦ inr (subst (λ n. Absent n v) e a)
  | no ne ↦ inl (Absent-append g u w x ne)
]

swap_sum {ℓ κ} : {A : Type ℓ} {B : Type κ} → A ⊎ B → B ⊎ A
swap_sum (inl a) = inr a
swap_sum (inr b) = inl b

login_new-IsQueue :
    (s : Server) (l : Lists) (c : Client)
    → Absent c.guid l.priority × Absent c.guid l.normal
    → IsQueue l
    → IsQueue (login_new s l c).lists
unfolding login_new
login_new-IsQueue s l c a q = elim (Bool-cases c.is_premium) [
  | inl h ↦ rw h (record {
    priority_once = Distinct-append l.priority _ q.priority_once a.0;
    normal_once = q.normal_once;
    not_both = λ g. still_apart l.priority l.normal _ g a.1 (q.not_both g);
  })
  | inr h ↦ rw h (record {
    priority_once = q.priority_once;
    normal_once = Distinct-append l.normal _ q.normal_once a.1;
    not_both = λ g. swap_sum (still_apart l.normal l.priority _ g a.0 (swap_sum (q.not_both g)));
  })
]

login_by-IsQueue :
    (s : Server) (l : Lists) (c : Client) (f : Found)
    → find_client l c.guid ≡ f
    → IsQueue l
    → IsQueue (login_by s l c f).lists
unfolding login_by
login_by-IsQueue s l c nowhere e q = login_new-IsQueue s l c (found_nowhere l c.guid e) q
login_by-IsQueue s l c (in_priority n) e q =
    login_found-IsQueue s l c.guid n in_first
      (in_first-IsQueue l (erase c.guid) (Distinct-erase c.guid l.priority q.priority_once)
        (λ g. Absent-erase g c.guid l.priority) q)
      (λ t.
        in_first-IsQueue l (set_timeout c.guid t)
          (Distinct-set_timeout c.guid t l.priority q.priority_once)
          (λ g. Absent-set_timeout g c.guid t l.priority) q)
login_by-IsQueue s l c (in_normal n) e q =
    login_found-IsQueue s l c.guid n in_second
      (in_second-IsQueue l (erase c.guid) (Distinct-erase c.guid l.normal q.normal_once)
        (λ g. Absent-erase g c.guid l.normal) q)
      (λ t.
        in_second-IsQueue l (set_timeout c.guid t)
          (Distinct-set_timeout c.guid t l.normal q.normal_once)
          (λ g. Absent-set_timeout g c.guid t l.normal) q)

login_waiting-IsQueue :
    (s : Server) (l : Lists) (c : Client) (slot : ℕ)
    → IsQueue l
    → IsQueue (login_waiting s l c slot).lists
unfolding login_waiting
login_waiting-IsQueue s l c slot q =
    elim (Bool-cases (
      s.max_players == 0
      || (is_empty l.priority && is_empty l.normal && ltb s.players_online s.max_players))) [
        | inl h ↦ rw h q
        | inr h ↦ rw h (login_by-IsQueue s l c (find_client l c.guid) refl q)
      ]

-- Whatever a login comes to, each list still names a client once, and no client is in both.
pub client_login-IsQueue :
    (s : Server) (l : Lists) (c : Client) (slot : ℕ)
    → IsQueue l
    → IsQueue (client_login s l c slot).lists
unfolding client_login
client_login-IsQueue s l c slot q = elim (Bool-cases (c.can_always_login || c.is_gamemaster)) [
  | inl h ↦ rw h q
  | inr h ↦ rw h (login_waiting-IsQueue s cleaned c slot cleaned-IsQueue)
]
  where
    cleaned : Lists
    cleaned = record { priority = cleanup s.time l.priority; normal = cleanup s.time l.normal }

    cleaned-IsQueue : IsQueue cleaned
    cleaned-IsQueue =
        in_second-IsQueue (in_first l (cleanup s.time)) (cleanup s.time)
          (Distinct-cleanup s.time l.normal q.normal_once) (λ g. Absent-cleanup g s.time l.normal)
          (in_first-IsQueue l (cleanup s.time) (Distinct-cleanup s.time l.priority q.priority_once)
            (λ g. Absent-cleanup g s.time l.priority) q)
