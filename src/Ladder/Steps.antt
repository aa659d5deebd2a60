-- ===== src/Ladder/Steps.antt =====
-- The loops of src/player.cpp and src/guild.cpp over a growing table of levels.
use baiakthunder.Base.{
  ℕ, zero, suc, ◌+◌, ◌-◌, ◌<◌, ◌≤◌, ◌≡◌, refl, sym, ap, ◌∙◌, subst, true, false, ltb, leb, ◌&&◌,
  arith, Bool-cases, inl, inr, dec_lt,
}
use baiakthunder.Ladder.{climb, descend}

-- The same operation so many times.
unfoldable pub times : {A : Type 0} → ℕ → (A → A) → A → A
times zero f a = a
times (suc n) f a = times n f (f a)

-- What the operation keeps, all of them keep.
pub times_keeps :
    {A : Type 0} (k : ℕ) (f : A → A) (field : A → ℕ) (a : A)
    → ((b : A) → field (f b) ≡ field b)
    → field (times k f a) ≡ field a
unfolding times
times_keeps zero f field a h = refl
times_keeps (suc k) f field a h = times_keeps k f field (f a) h ∙ h a

-- A table that grows from 0 at level 1 up to the level `top`.
pub record IsLadder (table : ℕ → ℕ) (top : ℕ) : Type 0 where
  pub first : table 1 ≡ 0
  pub grows : (l : ℕ) → 1 ≤ l → l < top → table l < table (l + 1)

-- A level that fits the experience.
pub record Fits (table : ℕ → ℕ) (top exp l : ℕ) : Type 0 where
  pub least : 1 ≤ l
  pub below : l < top
  pub reached : table l ≤ exp
  pub next : exp < table (l + 1)

pub refit :
    (table : ℕ → ℕ) (top e e' l l' : ℕ)
    → Fits table top e l
    → e' ≡ e
    → l' ≡ l
    → Fits table top e' l'
refit table top e e' l l' f p q = rw (p, q) f

-- What a loop leaves behind: a fitting level, so many levels away, and the table's entries for it.
pub record Climbed {A : Type 0} (table : ℕ → ℕ) (top : ℕ) (level : A → ℕ) (promote : A → A)
    (exp : ℕ) (a : A) (r : A × ℕ × ℕ) : Type 0 where
  pub k : ℕ
  pub which : r.0 ≡ times k promote a
  pub level_lem : level r.0 ≡ level a + k
  pub fits : Fits table top exp (level r.0)
  pub curr : r.1 ≡ table (level r.0)
  pub next : r.2 ≡ table (level r.0 + 1)

module _ {A : Type 0} (table : ℕ → ℕ) (top : ℕ) (level : A → ℕ) (promote : A → A) (next_exp : A → ℕ)
    (ladder : IsLadder table top) (up : (a : A) → level a < top → level (promote a) ≡ level a + 1)
    (entry : (a : A) → level a < top → next_exp a ≡ table (level a + 1)) where
  pub climb-Climbed :
      (n exp : ℕ) (a : A) (curr next : ℕ)
      → 1 ≤ level a
      → level a < top
      → top ≤ level a + n
      → exp < table top
      → curr ≡ table (level a)
      → next ≡ table (level a + 1)
      → curr ≤ exp
      → Climbed table top level promote exp a (climb next_exp promote n exp a curr next)
  unfolding climb times
  climb-Climbed zero exp a curr next pos lt enough small c e le = absurd (omega arith)
  climb-Climbed (suc n) exp a curr next pos lt enough small c e le =
      elim (Bool-cases (leb next exp)) [
        | inr h ↦ rw h (record {
          k = 0;
          which = refl;
          level_lem = omega arith;
          fits = record { least = pos; below = lt; reached = omega arith; next = ground arith };
          curr = c;
          next = e;
        })
        | inl h ↦
            let a' = promote a in
            let le' : next ≤ exp = ground arith in
            let climbs : level a' ≡ level a + 1 = up a lt in
            let lower : level a + 1 < top = elim (dec_lt (level a + 1) top) [
              | yes l ↦ l
              | no g ↦ absurd (
                  omega (
                    arith,
                    subst (λ l. exp < table l) {x = top} {y = level a + 1} (omega arith) small,
                  ))
            ] in
            let e' : next_exp a' ≡ table (level a' + 1) = entry a' (omega arith) in
            let c' : next ≡ table (level a') = e ∙ ap table (sym climbs) in
            let more : leb (next_exp a') next ≡ false =
              ground (arith, ladder.grows (level a') (omega arith) (omega arith)) in
            let r =
              climb-Climbed n exp a' next (next_exp a') (omega arith) (omega arith) (omega arith)
                small c' e' le' in
            rw (h, more)
              (record {
                k = suc r.k;
                which = r.which;
                level_lem = omega (arith, r.level_lem);
                fits = r.fits;
                curr = r.curr;
                next = r.next;
              })
      ]

-- The same, downwards.
pub record Descended {A : Type 0} (table : ℕ → ℕ) (top : ℕ) (level : A → ℕ) (demote : A → A)
    (exp : ℕ) (a : A) (r : A × ℕ) : Type 0 where
  pub k : ℕ
  pub which : r.0 ≡ times k demote a
  pub level_lem : level r.0 + k ≡ level a
  pub fits : Fits table top exp (level r.0)
  pub curr : r.1 ≡ table (level r.0)

module _ {A : Type 0} (table : ℕ → ℕ) (top : ℕ) (level : A → ℕ) (demote : A → A) (curr_exp : A → ℕ)
    (least : ℕ) (ladder : IsLadder table top) (low : least ≤ 1)
    (down : (a : A) → 1 ≤ level a → level a < top → level (demote a) ≡ level a - 1)
    (entry : (a : A) → 1 ≤ level a → level a < top → curr_exp a ≡ table (level a)) where
  pub descend-Descended :
      (n exp : ℕ) (a : A) (curr : ℕ)
      → 1 ≤ level a
      → level a < top
      → level a ≤ n
      → exp < table (level a + 1)
      → curr ≡ table (level a)
      → Descended table top level demote exp a (descend level curr_exp demote least n exp a curr)
  unfolding descend times
  descend-Descended zero exp a curr pos lt enough small c = absurd (omega arith)
  descend-Descended (suc n) exp a curr pos lt enough small c = elim (dec_lt exp curr) [
    | no h ↦
        let stop : (ltb least (level a) && ltb exp curr) ≡ false = ground arith in
        rw stop (record {
          k = 0;
          which = refl;
          level_lem = omega arith;
          fits = record { least = pos; below = lt; reached = omega arith; next = small };
          curr = c;
        })
    | yes h ↦
        let some_left : 2 ≤ level a = elim (dec_lt 1 (level a)) [
          | yes l ↦ l
          | no g ↦ absurd (
              omega
                (arith, subst (λ l. table l ≡ 0) {x = 1} {y = level a} (omega arith) ladder.first))
        ] in
        let go_on : (ltb least (level a) && ltb exp curr) ≡ true = ground arith in
        let a' = demote a in
        let goes : level a' ≡ level a - 1 = down a pos lt in
        let small' : exp < table (level a' + 1) =
          subst (λ l. exp < table l) {x = level a} {y = level a' + 1} (omega (arith, goes))
            (omega arith) in
        let c' : curr_exp a' ≡ table (level a') = entry a' (omega arith) (omega arith) in
        let r =
          descend-Descended n exp a' (curr_exp a') (omega arith) (omega arith) (omega arith) small'
            c' in
        rw go_on (record {
          k = suc r.k;
          which = r.which;
          level_lem = omega (arith, r.level_lem);
          fits = r.fits;
          curr = r.curr;
        })
  ]
