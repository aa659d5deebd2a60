-- ===== src/Checksum/Bounds.antt =====
-- The checksum of tools.cpp is a 32-bit number.
use baiakthunder.Base.{
  ℕ, zero, suc, ◌*◌, ◌%◌, ◌^◌, ◌<◌, ◌≡◌, List, [], ◌∷◌, arith, length, take, drop, ltb, Bool-cases,
  inl, inr,
}
use baiakthunder.Base.Bits.{shift-bit_or}
use baiakthunder.Checksum.{
  Sums, add_bytes, reduce, chunks, chunk_size, join, adler_checksum, max_size,
}
use baiakthunder.Checksum.Adler.{IsReduced}

reduce-IsReduced : (s : Sums) → IsReduced (reduce s)
unfolding reduce
reduce-IsReduced s = record { a = omega arith; b = omega arith }

chunks-IsReduced :
    (fuel : ℕ) (s : Sums) (bytes : List ℕ) → IsReduced s → IsReduced (chunks fuel s bytes)
unfolding chunks
chunks-IsReduced zero s bytes r = r
chunks-IsReduced (suc fuel) s [] r = r
chunks-IsReduced (suc fuel) s (x ∷ bytes) r =
    let tmp = chunk_size (length (x ∷ bytes)) in
    let s' = reduce (add_bytes s (take tmp (x ∷ bytes))) in
    chunks-IsReduced fuel s' (drop tmp (x ∷ bytes))
      (reduce-IsReduced (add_bytes s (take tmp (x ∷ bytes))))

join_bound : (s : Sums) → IsReduced s → join s < 2 ^ 32
join_bound s r =
    let fits : s.b * 2 ^ 16 % 2 ^ 32 ≡ s.b * 2 ^ 16 = omega (arith, r.b) in
    rw fits (omega (arith, shift-bit_or 16 s.b s.a (omega (arith, r.a)), r.a, r.b))

pub adler_checksum_bound : (bytes : List ℕ) → adler_checksum bytes < 2 ^ 32
unfolding adler_checksum
adler_checksum_bound bytes = elim (Bool-cases (ltb max_size (length bytes))) [
  | inl h ↦ rw h (omega arith)
  | inr h ↦ rw h (
      join_bound (chunks (length bytes) (record { a = 1; b = 0 }) bytes) (
        chunks-IsReduced (length bytes) (record { a = 1; b = 0 }) bytes
          (record { a = omega arith; b = omega arith })))
]
