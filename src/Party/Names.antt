-- ===== src/Party/Names.antt =====
-- The lists of players and parties in src/party.cpp that name nobody twice.
use baiakthunder.Base.{ℕ, ◌≡◌, refl, false, ◌&&◌, ◌||◌, not, List, [], ◌∷◌, ◌++◌, arith, ◌==◌}
use baiakthunder.Party.{contains, remove}

abbrev pub Distinct : List ℕ → Type 0
Distinct [] = Unit {0}
Distinct (x ∷ xs) = (contains x xs ≡ false) × Distinct xs

pub contains-append :
    (y : ℕ) (xs ys : List ℕ) → contains y (xs ++ ys) ≡ (contains y xs || contains y ys)
contains-append y [] ys = refl
contains-append y (x ∷ xs) ys = ground (arith, contains-append y xs ys)

pub contains-remove :
    (x y : ℕ) (xs : List ℕ)
    → Distinct xs
    → contains y (remove x xs) ≡ (contains y xs && not (x == y))
contains-remove x y [] d = refl
contains-remove x y (z ∷ zs) (a, d) = ground (arith, contains-remove x y zs d)

pub Distinct-remove : (x : ℕ) (xs : List ℕ) → Distinct xs → Distinct (remove x xs)
Distinct-remove x [] d = tt
Distinct-remove x (z ∷ zs) (a, d) = ground (arith, contains-remove x z zs d, Distinct-remove x zs d)

pub Distinct-append :
    (x : ℕ) (xs : List ℕ) → contains x xs ≡ false → Distinct xs → Distinct (xs ++ x ∷ [])
Distinct-append x [] h d = (refl, tt)
Distinct-append x (z ∷ zs) h (a, d) =
    (ground (arith, contains-append z zs (x ∷ [])), Distinct-append x zs (ground arith) d)
