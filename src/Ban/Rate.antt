-- ===== src/Ban/Rate.antt =====
-- The rate limit of ban.cpp.
use baiakthunder.Base.{
  ℕ, ◌+◌, ◌*◌, ◌≤◌, ◌<◌, ◌≡◌, ◌≢◌, refl, sym, ap, ◌∙◌, subst, Bool, true, false, Option, none, some,
  arith, List, [], ◌∷◌, All, ◌==◌, if◌then◌else◌, Bool-cases, inl, inr,
}
use baiakthunder.Ban.{ConnectBlock, ConnectMap, attempt, accept_connection}

-- A block never counts more than five quick attempts.
abbrev pub IsCounted : ConnectMap → Type 0
IsCounted m = (i : ℕ) (b : ConnectBlock) → m i ≡ some b → b.count ≤ 5

attempt-count : (b : ConnectBlock) (now : ℕ) → b.count ≤ 5 → (attempt b now).1.count ≤ 5
unfolding attempt
attempt-count b now h = ground arith

-- Every attempt keeps the counters at five or below, and leaves all other addresses alone.
pub accept_connection-IsCounted :
    (m : ConnectMap) (ip now i : ℕ)
    → IsCounted m
    → i ≢ ip
    → IsCounted (accept_connection m ip now).1 × ((accept_connection m ip now).1 i ≡ m i)
unfolding accept_connection
accept_connection-IsCounted m ip now i h ne = (counted (m ip) refl, ground arith)
  where
    counted : (o : Option ConnectBlock) → m ip ≡ o → IsCounted (accept_connection m ip now).1
    counted none e j b f = ground (arith, h j b)
    counted (some c) e j b f = ground (arith, h j b, attempt-count c now (h ip c e))

abbrev counting : ℕ → ℕ → ConnectBlock
counting last k = record { last_attempt = last; block_time = 0; count = k }

first_attempt :
    (m : ConnectMap) (ip now : ℕ)
    → m ip ≡ none
    → ((accept_connection m ip now).0 ≡ true)
      × ((accept_connection m ip now).1 ip ≡ some (counting now 1))
unfolding accept_connection
first_attempt m ip now h = (ground arith, ground arith)

quick_attempt :
    (m : ConnectMap) (ip last now k : ℕ)
    → m ip ≡ some (counting last k)
    → k < 5
    → last ≤ now
    → now ≤ last + 500
    → ((accept_connection m ip now).0 ≡ true)
      × ((accept_connection m ip now).1 ip ≡ some (counting now (k + 1)))
unfolding accept_connection
quick_attempt m ip last now k h lt lo hi = (ground arith, ground arith)

sixth_attempt :
    (m : ConnectMap) (ip last now : ℕ)
    → m ip ≡ some (counting last 5)
    → last ≤ now
    → now ≤ last + 500
    → (accept_connection m ip now).0 ≡ false
unfolding accept_connection
sixth_attempt m ip last now h lo hi = ground arith

-- The sixth of six attempts from an unknown address, each at most half a second behind the one before,
-- is refused; the five before it are let in.
pub accept_connection_burst :
    (m : ConnectMap) (ip a b c d e f : ℕ)
    → m ip ≡ none
    → (a ≤ b) × (b ≤ a + 500)
    → (b ≤ c) × (c ≤ b + 500)
    → (c ≤ d) × (d ≤ c + 500)
    → (d ≤ e) × (e ≤ d + 500)
    → (e ≤ f) × (f ≤ e + 500)
    → let (ok1, m1) = accept_connection m ip a in
      let (ok2, m2) = accept_connection m1 ip b in
      let (ok3, m3) = accept_connection m2 ip c in
      let (ok4, m4) = accept_connection m3 ip d in
      let (ok5, m5) = accept_connection m4 ip e in
      let (ok6, m6) = accept_connection m5 ip f in
      (ok1 ≡ true) × (ok2 ≡ true) × (ok3 ≡ true) × (ok4 ≡ true) × (ok5 ≡ true) × (ok6 ≡ false)
accept_connection_burst m ip a b c d e f n ab bc cd de ef =
    let s1 = first_attempt m ip a n in
    let m1 = (accept_connection m ip a).1 in
    let s2 = quick_attempt m1 ip a b 1 s1.1 (omega arith) ab.0 ab.1 in
    let m2 = (accept_connection m1 ip b).1 in
    let s3 = quick_attempt m2 ip b c 2 s2.1 (omega arith) bc.0 bc.1 in
    let m3 = (accept_connection m2 ip c).1 in
    let s4 = quick_attempt m3 ip c d 3 s3.1 (omega arith) cd.0 cd.1 in
    let m4 = (accept_connection m3 ip d).1 in
    let s5 = quick_attempt m4 ip d e 4 s4.1 (omega arith) de.0 de.1 in
    let m5 = (accept_connection m4 ip e).1 in
    (s1.0, s2.0, s3.0, s4.0, s5.0, sixth_attempt m5 ip e f s5.1 ef.0 ef.1)

-- Attempts of any addresses, each with its time: the blocks that they leave behind, and the answers that
-- one address is given.
unfoldable pub attempts : ConnectMap → List (ℕ × ℕ) → ConnectMap
attempts m [] = m
attempts m (a ∷ xs) = attempts (accept_connection m a.0 a.1).1 xs

unfoldable pub answers : ℕ → ConnectMap → List (ℕ × ℕ) → List Bool
answers ip m [] = []
answers ip m (a ∷ xs) =
    let (ok, m') = accept_connection m a.0 a.1 in
    let rest = answers ip m' xs in if a.0 == ip then ok ∷ rest else rest

-- How many of the attempts are those of one address
unfoldable pub attempts_of : ℕ → List (ℕ × ℕ) → ℕ
attempts_of ip [] = 0
attempts_of ip (a ∷ xs) = (if a.0 == ip then 1 else 0) + attempts_of ip xs

-- Each attempt of the address is made before the end of its block, a quarter of a second later for each
-- attempt of the address before.
abbrev pub ComesEarly : ℕ → ℕ → List (ℕ × ℕ) → Type 0
ComesEarly ip end [] = Unit
ComesEarly ip end (a ∷ xs) =
    (a.0 ≡ ip → a.1 < end) × ComesEarly ip (end + (if a.0 == ip then 250 else 0)) xs

ending : ConnectBlock → ℕ → Option ConnectBlock
ending b e = some (record b { block_time = e })

if_true : {A : Type 0} {c : Bool} → c ≡ true → (x y : A) → (if c then x else y) ≡ x
if_true h x y = rw h refl

if_false : {A : Type 0} {c : Bool} → c ≡ false → (x y : A) → (if c then x else y) ≡ y
if_false h x y = rw h refl

plus_none : (n : ℕ) → n + 0 ≡ n
plus_none n = omega arith

one_refused :
    (m : ConnectMap) (ip now : ℕ) (b : ConnectBlock)
    → m ip ≡ some b
    → now < b.block_time
    → ((accept_connection m ip now).0 ≡ false)
      × ((accept_connection m ip now).1 ip ≡ some (record b { block_time = b.block_time + 250 }))
unfolding accept_connection
one_refused m ip now b h lt = (ground arith, ground arith)

one_other :
    (m : ConnectMap) (ip other now : ℕ)
    → (other == ip) ≡ false
    → (accept_connection m other now).1 ip ≡ m ip
unfolding accept_connection
one_other m ip other now ne = ground arith

over_admitted :
    (m : ConnectMap) (ip now : ℕ) (b : ConnectBlock)
    → m ip ≡ some b
    → b.block_time ≤ now
    → b.count < 5
    → (accept_connection m ip now).0 ≡ true
unfolding accept_connection
over_admitted m ip now b h le few = ground arith

-- A blocked address, whose block counts fewer than five, stays refused among any attempts of others, as
-- long as each of its own comes before the end of the block, which every refused attempt puts off by a
-- quarter of a second. The first attempt that comes when the block is over is let in.
pub blocked_refused :
    (m : ConnectMap) (ip now : ℕ) (b : ConnectBlock) (xs : List (ℕ × ℕ))
    → m ip ≡ some b
    → b.count < 5
    → ComesEarly ip b.block_time xs
    → b.block_time + 250 * attempts_of ip xs ≤ now
    → let m' = attempts m xs in
      All (λ ok. ok ≡ false) (answers ip m xs)
      × (m' ip ≡ some (record b { block_time = b.block_time + 250 * attempts_of ip xs }))
      × ((accept_connection m' ip now).0 ≡ true)
unfolding attempts answers attempts_of ending
blocked_refused m ip now b [] h few early late =
    (tt, h ∙ ap (ending b) (omega arith), over_admitted m ip now b h (omega arith) few)
blocked_refused m ip now b (a ∷ xs) h few early late = elim (Bool-cases (a.0 == ip)) [
  | inl same ↦
      let m' = (accept_connection m a.0 a.1).1 in
      let b' : ConnectBlock = record b { block_time = b.block_time + 250 } in
      let e : a.0 ≡ ip = ground arith in
      let (refused, next) =
        subst
          (λ x.
            ((accept_connection m x a.1).0 ≡ false) × ((accept_connection m x a.1).1 ip ≡ some b'))
          (sym e) (one_refused m ip a.1 b h (early.0 e)) in
      let early' : ComesEarly ip b'.block_time xs =
        subst (λ n. ComesEarly ip (b.block_time + n) xs) (ap (λ c. if c then 250 else 0) same)
          early.1 in
      let one : attempts_of ip (a ∷ xs) ≡ 1 + attempts_of ip xs =
        ap (λ c. (if c then 1 else 0) + attempts_of ip xs) same in
      let (all, final, then_in) =
        blocked_refused m' ip now b' xs next few early' (omega (arith, one)) in
      (
        subst (All (λ ok. ok ≡ false)) (sym (if_true same _ _)) (refused, all),
        final ∙ ap (ending b) (omega (arith, one)),
        then_in,
      )
  | inr other ↦
      let m' = (accept_connection m a.0 a.1).1 in
      let next = one_other m ip a.0 a.1 other ∙ h in
      let early' : ComesEarly ip b.block_time xs =
        subst (λ n. ComesEarly ip n xs)
          (ap (λ c. b.block_time + (if c then 250 else 0)) other ∙ plus_none b.block_time)
          early.1 in
      let none_more : attempts_of ip (a ∷ xs) ≡ attempts_of ip xs =
        ap (λ c. (if c then 1 else 0) + attempts_of ip xs) other ∙ omega arith in
      let (all, final, then_in) =
        blocked_refused m' ip now b xs next few early' (omega (arith, none_more)) in
      (
        subst (All (λ ok. ok ≡ false)) (sym (if_false other _ _)) all,
        final ∙ ap (ending b) (omega (arith, none_more)),
        then_in,
      )
]
