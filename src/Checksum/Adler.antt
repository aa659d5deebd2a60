-- ===== src/Checksum/Adler.antt =====
-- The checksum of tools.cpp is Adler-32 as it is defined: no sum wraps before its remainder is taken.
use baiakthunder.Base.Bits.{shift-bit_or}
use baiakthunder.Base.{
  ℕ, zero, suc, ◌+◌, ◌*◌, ◌%◌, ◌^◌, ◌≤◌, ◌<◌, ◌≡◌, refl, sym, ap, ◌∙◌, bit_or, List, [], ◌∷◌, ◌++◌,
  arith, length, take, drop, take-append-drop, length-take, length-drop, ltb, if◌then◌else◌, All,
  All-take, All-drop, false,
}
use baiakthunder.Checksum.{
  Sums, adler, max_size, add_bytes, reduce, chunk_size, chunks, adler_checksum, join,
}

abbrev pub IsByte : ℕ → Type 0
IsByte x = x < 256

-- The definition: both sums modulo 65521 after every byte.
unfoldable pub adler32_from : Sums → List ℕ → Sums
adler32_from s [] = s
adler32_from s (x ∷ bytes) =
    let a = (s.a + x) % adler in adler32_from (record { a = a; b = (s.b + a) % adler }) bytes

-- The second sum above the first.
unfoldable pub adler32 : List ℕ → ℕ
unfolding adler32_from
adler32 bytes = let s = adler32_from (record { a = 1; b = 0 }) bytes in s.b * 2 ^ 16 + s.a

pub record IsReduced (s : Sums) : Type 0 where
  pub a : s.a < adler
  pub b : s.b < adler

-- `n` bytes into a chunk the sums are this small.
record Within (n : ℕ) (s : Sums) : Type 0 where
  a : s.a ≤ 65520 + 255 * n
  b : 2 * s.b ≤ 131040 + n * (131040 + 255 * (n + 1))

Sums_path :
    {a b c d : ℕ}
    → a ≡ b
    → c ≡ d
    → ◌≡◌ {A = Sums} (record { a = a; b = c }) (record { a = b; b = d })
Sums_path p q = λ i. record { a = p i; b = q i }

growth :
    (n : ℕ)
    → (n + 1) * (131040 + 255 * (n + 1 + 1)) ≡ n * (131040 + 255 * (n + 1)) + 131040 + 510 * (n + 1)
growth n = omega arith

-- One more byte, before any wrap.
step_Within :
    (n : ℕ) (s : Sums) (x : ℕ)
    → Within n s
    → x < 256
    → n < 5552
    → Within (n + 1) (record { a = (s.a + x) % 2 ^ 32; b = (s.b + (s.a + x) % 2 ^ 32) % 2 ^ 32 })
step_Within n s x w h k = record { a = omega (arith, w.a); b = omega (arith, w.a, w.b, growth n) }

room_below : (n : ℕ) → n ≤ 5552 → n * (131040 + 255 * (n + 1)) ≤ 5552 * 1547055
room_below n h = grind arith

-- A chunk wraps nowhere, and its remainders are those of the definition.
chunk-adler32 :
    (n : ℕ) (s : Sums) (bytes : List ℕ)
    → Within n s
    → n + length bytes ≤ 5552
    → All IsByte bytes
    → reduce (add_bytes s bytes) ≡ adler32_from (reduce s) bytes
unfolding reduce add_bytes adler32_from
chunk-adler32 n s [] w h b = refl
chunk-adler32 n s (x ∷ bytes) w h b =
    chunk-adler32 (n + 1)
      (record { a = (s.a + x) % 2 ^ 32; b = (s.b + (s.a + x) % 2 ^ 32) % 2 ^ 32 }) bytes
      (step_Within n s x w b.0 (omega arith)) (omega arith) b.1
    ∙ ap (λ t. adler32_from t bytes) (Sums_path reduced_a reduced_b)
  where
    small_a : (s.a + x) % 2 ^ 32 ≡ s.a + x
    small_a = omega (arith, w.a, b.0)

    small_b : (s.b + (s.a + x) % 2 ^ 32) % 2 ^ 32 ≡ s.b + (s.a + x)
    small_b = omega (arith, small_a, w.a, w.b, b.0, growth n, room_below (n + 1) (omega arith))

    reduced_a : (s.a + x) % 2 ^ 32 % adler ≡ (s.a % adler + x) % adler
    reduced_a = omega (arith, small_a)

    reduced_b :
        (s.b + (s.a + x) % 2 ^ 32) % 2 ^ 32 % adler
        ≡ (s.b % adler + (s.a % adler + x) % adler) % adler
    reduced_b = omega (arith, small_b)

reduce-IsReduced : (s : Sums) → IsReduced (reduce s)
unfolding reduce
reduce-IsReduced s = record { a = omega arith; b = omega arith }

reduce-id : (s : Sums) → IsReduced s → reduce s ≡ s
unfolding reduce
reduce-id s r = Sums_path (omega (arith, r.a)) (omega (arith, r.b))

adler32_from-append :
    (s : Sums) (u v : List ℕ) → adler32_from s (u ++ v) ≡ adler32_from (adler32_from s u) v
unfolding adler32_from
adler32_from-append s [] v = refl
adler32_from-append s (x ∷ u) v =
    adler32_from-append (record { a = (s.a + x) % adler; b = (s.b + (s.a + x) % adler) % adler }) u
      v

adler32_from-IsReduced :
    (s : Sums) (bytes : List ℕ) → IsReduced s → IsReduced (adler32_from s bytes)
unfolding adler32_from
adler32_from-IsReduced s [] r = r
adler32_from-IsReduced s (x ∷ bytes) r =
    adler32_from-IsReduced (record { a = (s.a + x) % adler; b = (s.b + (s.a + x) % adler) % adler })
      bytes (record { a = omega arith; b = omega arith })

-- One chunk of at most 5552 bytes, from reduced sums.
one_chunk :
    (s : Sums) (bytes : List ℕ)
    → IsReduced s
    → length bytes ≤ 5552
    → All IsByte bytes
    → reduce (add_bytes s bytes) ≡ adler32_from s bytes
one_chunk s bytes r h b =
    chunk-adler32 0 s bytes (record { a = omega (arith, r.a); b = omega (arith, r.b) })
      (omega arith) b
    ∙ ap (λ t. adler32_from t bytes) (reduce-id s r)

chunk_size_bounds :
    (n : ℕ) → 0 < n → (0 < chunk_size n) × (chunk_size n ≤ 5552) × (chunk_size n ≤ n)
unfolding chunk_size
chunk_size_bounds n h = ground arith

chunks-adler32 :
    (fuel : ℕ) (s : Sums) (bytes : List ℕ)
    → length bytes ≤ fuel
    → IsReduced s
    → All IsByte bytes
    → chunks fuel s bytes ≡ adler32_from s bytes
unfolding chunks
chunks-adler32 zero s [] h r b = unfold adler32_from in refl
chunks-adler32 zero s (x ∷ bytes) h r b = absurd (omega arith)
chunks-adler32 (suc fuel) s [] h r b = unfold adler32_from in refl
chunks-adler32 (suc fuel) s (x ∷ bytes) h r b =
    let (some_left, at_most, fits) = chunk_size_bounds (suc (length bytes)) (omega arith) in
    let n : ℕ = chunk_size (suc (length bytes)) in
    let first =
      one_chunk s (take n (x ∷ bytes)) r (omega (arith, length-take n (x ∷ bytes)))
        (All-take IsByte n (x ∷ bytes) b) in
    chunks-adler32 fuel (reduce (add_bytes s (take n (x ∷ bytes)))) (drop n (x ∷ bytes))
      (omega (arith, length-drop n (x ∷ bytes)))
      (reduce-IsReduced (add_bytes s (take n (x ∷ bytes)))) (All-drop IsByte n (x ∷ bytes) b)
    ∙ ap (λ t. adler32_from t (drop n (x ∷ bytes))) first
    ∙ sym (adler32_from-append s (take n (x ∷ bytes)) (drop n (x ∷ bytes)))
    ∙ ap (adler32_from s) (take-append-drop n (x ∷ bytes))

-- On at most 65500 bytes the checksum is the Adler-32 of the definition.
pub adler_checksum-adler32 :
    (bytes : List ℕ)
    → length bytes ≤ max_size
    → All IsByte bytes
    → adler_checksum bytes ≡ adler32 bytes
unfolding adler_checksum adler32
adler_checksum-adler32 bytes h b =
    let start : Sums = record { a = 1; b = 0 } in
    let r : IsReduced start = record { a = omega arith; b = omega arith } in
    small (chunks-adler32 (length bytes) start bytes (omega arith) r b)
      (adler32_from-IsReduced start bytes r)
  where
    small :
        {s t : Sums}
        → s ≡ t
        → IsReduced t
        → (if ltb max_size (length bytes) then 0 else join s) ≡ t.b * 2 ^ 16 + t.a
    small {s} {t} e r =
        rw (e, short) (ap (λ u. bit_or u t.a) fits ∙ shift-bit_or 16 t.b t.a (omega (arith, r.a)))
      where
        short : ltb max_size (length bytes) ≡ false
        short = ground arith

        fits : t.b * 2 ^ 16 % 2 ^ 32 ≡ t.b * 2 ^ 16
        fits = omega (arith, r.b)
