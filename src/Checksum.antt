-- ===== src/Checksum.antt =====
-- `adlerChecksum` of src/tools.cpp: Adler-32 with the remainders put off to every 5552 bytes. The
-- scalar loop is modelled; the SSE2 loop of x86 builds is not.
pub mod Adler
pub mod Bounds
mod Tests
use baiakthunder.Base.{
  ℕ, zero, suc, ◌+◌, ◌-◌, ◌*◌, ◌%◌, ◌^◌, bit_or, List, [], ◌∷◌, length, take, drop, ltb,
  if◌then◌else◌,
}

abbrev pub adler : ℕ
adler = 65521

-- const.h, NETWORKMESSAGE_MAXSIZE
abbrev pub max_size : ℕ
max_size = 65500

-- The two `uint32_t` sums.
pub record Sums : Type 0 where
  pub a : ℕ
  pub b : ℕ

-- do { a += *data++; b += a; } while (--tmp)
pub add_bytes : Sums → List ℕ → Sums
add_bytes s [] = s
add_bytes s (x ∷ bytes) =
    let a = (s.a + x) % 2 ^ 32 in add_bytes (record { a = a; b = (s.b + a) % 2 ^ 32 }) bytes

-- a %= adler; b %= adler;
pub reduce : Sums → Sums
reduce s = record { a = s.a % adler; b = s.b % adler }

-- size_t tmp = length > 5552 ? 5552 : length;
pub chunk_size : ℕ → ℕ
chunk_size length = if ltb 5552 length then 5552 else length

-- while (length > 0), a chunk of at most 5552 bytes a round; the first argument bounds the rounds.
pub chunks : ℕ → Sums → List ℕ → Sums
unfolding add_bytes reduce chunk_size
chunks zero s bytes = s
chunks (suc fuel) s [] = s
chunks (suc fuel) s (x ∷ bytes) =
    let tmp = chunk_size (length (x ∷ bytes)) in
    chunks fuel (reduce (add_bytes s (take tmp (x ∷ bytes)))) (drop tmp (x ∷ bytes))

-- (b << 16) | a, in 32 bits
abbrev pub join : Sums → ℕ
join s = bit_or (s.b * 2 ^ 16 % 2 ^ 32) s.a

pub adler_checksum : List ℕ → ℕ
unfolding chunks
adler_checksum bytes =
    if ltb max_size (length bytes)
    then 0
    else join (chunks (length bytes) (record { a = 1; b = 0 }) bytes)
