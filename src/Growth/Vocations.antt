-- ===== src/Growth/Vocations.antt =====
-- The caches of a vocation in src/vocation.cpp: what a read of them answers.
use native.Mathlib.Nat.{mod-eq_of_lt}
use baiakthunder.Base.{
  ℕ, ◌%◌, ◌^◌, ◌<◌, ◌≡◌, refl, sym, ap, ◌∙◌, arith, Option, none, some, ◌==◌, Bool-cases,
  Option-cases, inl, inr,
}
use baiakthunder.Growth.Tries.{Cache, get_req}

-- What a cache has for a level is what was computed, cut to the bits of the cache.
unfoldable pub Coherent : ℕ → (ℕ → ℕ) → Cache → Type 0
Coherent width computed cache = (l v : ℕ) → cache l ≡ some v → v ≡ computed l % 2 ^ width

unwrap : ℕ → Option ℕ → ℕ
unwrap d none = d
unwrap d (some v) = v

some-same : {v w : ℕ} → some v ≡ some w → v ≡ w
unfolding unwrap
some-same e = ap (unwrap 0) e

-- A read of what fits the cache gives what is computed, before it is cached and after it.
pub record Read (width : ℕ) (computed : ℕ → ℕ) (level : ℕ) (r : ℕ × Cache) : Type 0 where
  pub value : r.0 ≡ computed level
  pub coherent : Coherent width computed r.1

pub get_req-Read :
    (width : ℕ) (computed : ℕ → ℕ) (cache : Cache) (level : ℕ)
    → Coherent width computed cache
    → computed level < 2 ^ width
    → Read width computed level (get_req width computed cache level)
unfolding get_req Coherent
get_req-Read width computed cache level c fits = elim (Option-cases (cache level)) [
  | inl h ↦
      rw (get_req, h)
        (record {
          value = refl;
          coherent = λ l v e. elim (Bool-cases (l == level)) [
            | inl k ↦
                let e' : some (computed level % 2 ^ width) ≡ some v = rw k at e in
                let same : l ≡ level = ground (arith, k) in
                sym (some-same e') ∙ ap (λ m. computed m % 2 ^ width) (sym same)
            | inr k ↦ c l v (rw k at e)
          ];
        })
  | inr (v, h) ↦ rw (get_req, h) (record { value = c level v h ∙ mod-eq_of_lt fits; coherent = c })
]
