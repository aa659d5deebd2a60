-- ===== src/Base/Bits.antt =====
-- `|` of disjoint fields and `&` with a mask, as arithmetic. The native operations stand for a
-- recursion on binary digits; one equation for the lowest digit gives the rest.
use Prim.Native.Nat.{
  ℕ, zero, suc, ◌+◌, ◌-◌, ◌*◌, ◌/◌, ◌%◌, ◌^◌, ◌≤◌, ◌<◌, min, max, bit_and, bit_or, digits,
  bit_and-bitwise, bit_or-bitwise,
}
use mathlib.Core.Path.{◌≡◌, refl, ap, ◌∙◌}
use native.Mathlib.Nat.{pow-suc, one-le-pow}
use native.Mathlib.Omega.{arith}

-- Fuel beyond the number itself changes no digit.
enough_digits :
    (tail : ℕ → ℕ) (bit : ℕ → ℕ → ℕ) (n m a b : ℕ)
    → a ≤ n
    → a ≤ m
    → digits tail bit n a b ≡ digits tail bit m a b
enough_digits tail bit zero zero zero b p q = refl
enough_digits tail bit zero (suc m) zero b p q = refl
enough_digits tail bit (suc n) zero zero b p q = refl
enough_digits tail bit (suc n) (suc m) zero b p q = refl
enough_digits tail bit zero m (suc a) b p q = absurd (omega arith)
enough_digits tail bit (suc n) zero (suc a) b p q = absurd (omega arith)
enough_digits tail bit (suc n) (suc m) (suc a) b p q =
    let half : suc a / 2 ≤ n = omega arith in
    let half' : suc a / 2 ≤ m = omega arith in
    rw (enough_digits tail bit n m (suc a / 2) (b / 2) half half')

or_digit : (a b : ℕ) → bit_or a b ≡ bit_or (a / 2) (b / 2) * 2 + max (a % 2) (b % 2)
or_digit zero b = omega (arith, bit_or-bitwise 0 b, bit_or-bitwise 0 (b / 2))
or_digit (suc a) b = omega (
  arith,
  bit_or-bitwise (suc a) b,
  bit_or-bitwise (suc a / 2) (b / 2),
  enough_digits (λ y. y) max a (suc a / 2) (suc a / 2) (b / 2) (omega arith) (omega arith),
)

and_digit : (a b : ℕ) → bit_and a b ≡ bit_and (a / 2) (b / 2) * 2 + min (a % 2) (b % 2)
and_digit zero b = omega (arith, bit_and-bitwise 0 b, bit_and-bitwise 0 (b / 2))
and_digit (suc a) b = omega (
  arith,
  bit_and-bitwise (suc a) b,
  bit_and-bitwise (suc a / 2) (b / 2),
  enough_digits (λ y. 0) min a (suc a / 2) (suc a / 2) (b / 2) (omega arith) (omega arith),
)

pub zero-bit_or : (b : ℕ) → bit_or 0 b ≡ b
zero-bit_or b = bit_or-bitwise 0 b

zero-bit_and : (b : ℕ) → bit_and 0 b ≡ 0
zero-bit_and b = bit_and-bitwise 0 b

shift_suc : (q k : ℕ) → q * 2 ^ suc k ≡ 2 * (q * 2 ^ k)
shift_suc q k = omega (arith, ap (λ (t : ℕ). q * t) (pow-suc 2 k))

-- A field below bit `k` and one from bit `k` on: their `|` is their sum.
pub bit_or-shift : (k r q : ℕ) → r < 2 ^ k → bit_or r (q * 2 ^ k) ≡ r + q * 2 ^ k
bit_or-shift zero zero q h = omega (arith, zero-bit_or (q * 2 ^ 0))
bit_or-shift zero (suc r) q h = absurd (omega arith)
bit_or-shift (suc k) r q h = omega (
  arith,
  or_digit r (q * 2 ^ suc k),
  shift_suc q k,
  pow-suc 2 k,
  bit_or-shift k (r / 2) q (omega (arith, pow-suc 2 k)),
  ap (λ t. bit_or (r / 2) t) half,
)
  where
    half : q * 2 ^ suc k / 2 ≡ q * 2 ^ k
    half = omega (arith, shift_suc q k)

mod_double : (m a : ℕ) → 0 < m → a % (2 * m) ≡ 2 * (a / 2 % m) + a % 2
mod_double m a h = grind arith

bit_and-zero : (n a : ℕ) → a ≤ n → bit_and a 0 ≡ 0
bit_and-zero n zero h = zero-bit_and 0
bit_and-zero zero (suc a) h = absurd (omega arith)
bit_and-zero (suc n) (suc a) h =
    omega (arith, and_digit (suc a) 0, bit_and-zero n (suc a / 2) (omega arith))

-- A mask of `w` ones is the remainder by `2 ^ w`.
pub bit_and-low : (w a : ℕ) → bit_and a (2 ^ w - 1) ≡ a % 2 ^ w
bit_and-low zero a = omega (arith, bit_and-zero a a (omega arith))
bit_and-low (suc w) a = omega (
  arith,
  and_digit a (2 ^ suc w - 1),
  pow-suc 2 w,
  one-le-pow w 2 (omega arith),
  bit_and-low w (a / 2),
  mod_double (2 ^ w) a (one-le-pow w 2 (omega arith)),
  ap (λ t. bit_and (a / 2) t) half,
  ap (λ t. a % t) (pow-suc 2 w ∙ twice),
)
  where
    half : (2 ^ suc w - 1) / 2 ≡ 2 ^ w - 1
    half = omega (arith, pow-suc 2 w, one-le-pow w 2 (omega arith))

    twice : 2 ^ w * 2 ≡ 2 * 2 ^ w
    twice = omega arith

-- A mask with the bits from `k` up to `w` clears the digits below bit `k`.
pub bit_and-high : (w k a : ℕ) → k ≤ w → bit_and a (2 ^ w - 2 ^ k) ≡ a % 2 ^ w - a % 2 ^ k
bit_and-high w zero a h = omega (arith, bit_and-low w a)
bit_and-high zero (suc k) a h = absurd (omega arith)
bit_and-high (suc w) (suc k) a h = omega (
  arith,
  and_digit a (2 ^ suc w - 2 ^ suc k),
  pow-suc 2 w,
  pow-suc 2 k,
  bit_and-high w k (a / 2) (omega arith),
  mod_double (2 ^ w) a (one-le-pow w 2 (omega arith)),
  mod_double (2 ^ k) a (one-le-pow k 2 (omega arith)),
  ap (λ t. bit_and (a / 2) t) half,
  ap (λ t. a % t) (pow-suc 2 w ∙ twice w),
  ap (λ t. a % t) (pow-suc 2 k ∙ twice k),
)
  where
    half : (2 ^ suc w - 2 ^ suc k) / 2 ≡ 2 ^ w - 2 ^ k
    half = omega (arith, pow-suc 2 w, pow-suc 2 k)

    twice : (n : ℕ) → 2 ^ n * 2 ≡ 2 * 2 ^ n
    twice n = omega arith

bit_or-zero : (n a : ℕ) → a ≤ n → bit_or a 0 ≡ a
bit_or-zero n zero h = zero-bit_or 0
bit_or-zero zero (suc a) h = absurd (omega arith)
bit_or-zero (suc n) (suc a) h =
    omega (arith, or_digit (suc a) 0, bit_or-zero n (suc a / 2) (omega arith))

bit_or_comm : (n a b : ℕ) → a ≤ n → bit_or a b ≡ bit_or b a
bit_or_comm n zero b h = omega (arith, zero-bit_or b, bit_or-zero b b (omega arith))
bit_or_comm zero (suc a) b h = absurd (omega arith)
bit_or_comm (suc n) (suc a) b h =
    omega (
      arith,
      or_digit (suc a) b,
      or_digit b (suc a),
      bit_or_comm n (suc a / 2) (b / 2) (omega arith),
    )

-- The same with the high field first.
pub shift-bit_or : (k q r : ℕ) → r < 2 ^ k → bit_or (q * 2 ^ k) r ≡ q * 2 ^ k + r
shift-bit_or k q r h =
    omega (arith, bit_or_comm (q * 2 ^ k) (q * 2 ^ k) r (omega arith), bit_or-shift k r q h)
