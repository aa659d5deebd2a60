-- ===== src/Base/Buffer.antt =====
-- A byte buffer as a function from indices, with `memcpy` into it and slices out of it, and the
-- little-endian bytes of a number.
use Prim.Native.Nat.{ℕ, zero, suc, ◌+◌, ◌-◌, ◌*◌, ◌/◌, ◌%◌, ◌^◌, ◌≤◌, ◌<◌}
use mathlib.Core.Path.{◌≡◌, refl, sym, ap, ap₂, ◌∙◌}
use mathlib.Core.List.{List, [], ◌∷◌, ◌++◌}
use native.Mathlib.Nat.{pow-suc}
use native.Mathlib.Omega.{arith}
use baiakthunder.Base.Tests.{ltb, if◌then◌else◌}
use baiakthunder.Base.Lists.{length, get_or, length-append, take, drop}
use baiakthunder.Base.Slices.{take-append, drop-append}

abbrev pub Buffer : Type 0
Buffer = ℕ → ℕ

-- memcpy(buffer + pos, bytes, n)
abbrev pub write : Buffer → ℕ → List ℕ → Buffer
write buf pos bytes i = if ltb i pos then buf i else get_or bytes (i - pos) (buf i)

-- The `n` bytes from `pos` on.
unfoldable pub slice : Buffer → ℕ → ℕ → List ℕ
slice buf pos zero = []
slice buf pos (suc n) = buf pos ∷ slice buf (pos + 1) n

pub length-slice : (buf : Buffer) (pos n : ℕ) → length (slice buf pos n) ≡ n
unfolding slice
length-slice buf pos zero = refl
length-slice buf pos (suc n) = ap suc (length-slice buf (pos + 1) n)

-- Buffers that agree on the range have the same slice.
pub slice-cong :
    (buf buf' : Buffer) (pos n : ℕ)
    → ((i : ℕ) → pos ≤ i → i < pos + n → buf i ≡ buf' i)
    → slice buf pos n ≡ slice buf' pos n
unfolding slice
slice-cong buf buf' pos zero h = refl
slice-cong buf buf' pos (suc n) h =
    ap₂ ◌∷◌ (h pos (omega arith) (omega arith))
      (slice-cong buf buf' (pos + 1) n (λ i lo hi. h i (omega arith) (omega arith)))

pub slice-add :
    (buf : Buffer) (pos m n : ℕ) → slice buf pos (m + n) ≡ slice buf pos m ++ slice buf (pos + m) n
unfolding slice
slice-add buf pos zero n = ap₂ (slice buf) (omega arith) (omega arith)
slice-add buf pos (suc m) n =
    let e : suc m + n ≡ suc (m + n) = omega arith in
    ap (slice buf pos) e
    ∙ ap (◌∷◌ (buf pos)) (
        slice-add buf (pos + 1) m n
        ∙ ap (λ p. slice buf (pos + 1) m ++ slice buf p n) (omega arith))

get_or_past : (bytes : List ℕ) (i d : ℕ) → length bytes ≤ i → get_or bytes i d ≡ d
get_or_past [] i d h = refl
get_or_past (b ∷ bytes) zero d h = absurd (omega arith)
get_or_past (b ∷ bytes) (suc i) d h = get_or_past bytes i d (omega arith)

-- A write leaves what is before it and what is behind it.
pub write_before :
    (buf : Buffer) (pos : ℕ) (bytes : List ℕ) (i : ℕ) → i < pos → write buf pos bytes i ≡ buf i
write_before buf pos bytes i h = ground arith

pub write_past :
    (buf : Buffer) (pos : ℕ) (bytes : List ℕ) (i : ℕ)
    → pos + length bytes ≤ i
    → write buf pos bytes i ≡ buf i
write_past buf pos bytes i h = ground (arith, get_or_past bytes (i - pos) (buf i))

-- The slice that was written.
pub slice-write :
    (buf : Buffer) (pos : ℕ) (bytes : List ℕ)
    → slice (write buf pos bytes) pos (length bytes) ≡ bytes
unfolding slice
slice-write buf pos [] = refl
slice-write buf pos (b ∷ bytes) = ap₂ ◌∷◌ (first pos (omega arith)) (
    slice-cong (write buf pos (b ∷ bytes)) (write buf (pos + 1) bytes) (pos + 1) (length bytes)
      (λ i lo hi. later i (i - (pos + 1)) lo (omega arith))
    ∙ slice-write buf (pos + 1) bytes)
  where
    first : (i : ℕ) → i ≡ pos → write buf pos (b ∷ bytes) i ≡ b
    first i e = let z : i - pos ≡ 0 = omega arith in ground arith

    later :
        (i j : ℕ)
        → pos + 1 ≤ i
        → i - pos ≡ suc j
        → write buf pos (b ∷ bytes) i ≡ write buf (pos + 1) bytes i
    later i j lo e = let z : i - (pos + 1) ≡ j = omega arith in ground arith

-- The `n` low bytes of a number, lowest first, and the number that bytes stand for.
unfoldable pub le_bytes : ℕ → ℕ → List ℕ
le_bytes zero v = []
le_bytes (suc n) v = v % 256 ∷ le_bytes n (v / 256)

unfoldable pub le_value : List ℕ → ℕ
le_value [] = 0
le_value (b ∷ bytes) = b + 256 * le_value bytes

pub length-le_bytes : (n v : ℕ) → length (le_bytes n v) ≡ n
unfolding le_bytes
length-le_bytes zero v = refl
length-le_bytes (suc n) v = ap suc (length-le_bytes n (v / 256))

pub le_value-le_bytes : (n v : ℕ) → v < 256 ^ n → le_value (le_bytes n v) ≡ v
unfolding le_value le_bytes
le_value-le_bytes zero v h = omega arith
le_value-le_bytes (suc n) v h =
    omega (arith, le_value-le_bytes n (v / 256) (omega (arith, pow-suc 256 n)))

-- A slice that is two lists after one another is the one, and then the other.
pub slice-split :
    (buf : Buffer) (pos : ℕ) (a b : List ℕ)
    → slice buf pos (length (a ++ b)) ≡ a ++ b
    → (slice buf pos (length a) ≡ a) × (slice buf (pos + length a) (length b) ≡ b)
slice-split buf pos a b h = (
  sym (take-append u v)
      ∙ ap (λ n. take n (u ++ v)) size
      ∙ ap (take (length a)) whole
      ∙ take-append a b,
  sym (drop-append u v)
      ∙ ap (λ n. drop n (u ++ v)) size
      ∙ ap (drop (length a)) whole
      ∙ drop-append a b,
)
  where
    u : List ℕ
    u = slice buf pos (length a)

    v : List ℕ
    v = slice buf (pos + length a) (length b)

    whole : u ++ v ≡ a ++ b
    whole =
        sym (slice-add buf pos (length a) (length b))
        ∙ ap (slice buf pos) (sym (length-append a b))
        ∙ h

    size : length u ≡ length a
    size = length-slice buf pos (length a)
