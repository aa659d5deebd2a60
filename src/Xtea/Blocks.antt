-- ===== src/Xtea/Blocks.antt =====
-- The template's walk over blocks of 128, 32, 8, 2 or 1 lanes, against a walk over 8-byte groups.
use mathlib.Core.List.{map-append, append_assoc}
use native.Mathlib.Nat.{pow-suc, one-le-pow}
use baiakthunder.Base.Bits.{bit_and-high}
use baiakthunder.Base.{
  ℕ, zero, suc, ◌+◌, ◌-◌, ◌*◌, ◌/◌, ◌%◌, ◌^◌, ◌≤◌, ◌<◌, ◌≡◌, refl, sym, ap, ap₂, ◌∙◌, List, ◌++◌,
  ◌≢◌, map, arith, length, take, drop, length-append, length-map, length-drop, drop-drop,
  take-append, drop-append, All,
}
use baiakthunder.Xtea.{
  Lane, Key, Mode, encrypting, decrypting, word, load, store, cipher, each_block, block_bytes, run,
  encrypt, decrypt,
}
use baiakthunder.Xtea.Bytes.{
  IsByte, length-store, length-load, load-add, load-store, store-load, store-append, load-IsLane,
}
use baiakthunder.Xtea.Feistel.{
  round_lane, rounds-map, round_lane-encrypting-IsLane, decrypt-encrypt_lanes,
}

-- The first `n` groups of eight bytes go through the rounds, each by itself; the others stay.
unfoldable pub groups : Mode → Key → ℕ → List ℕ → List ℕ
groups mode k n bytes = store (map (round_lane mode k) (load n bytes)) ++ drop (8 * n) bytes

-- What the whole routine is for: every full group of eight bytes, and nothing of the tail.
unfoldable pub reference : Mode → Key → List ℕ → List ℕ
unfolding groups
reference mode k bytes = groups mode k (length bytes / 8) bytes

cipher-groups :
    (mode : Mode) (k : Key) (n : ℕ) (bytes : List ℕ) → cipher mode k n bytes ≡ groups mode k n bytes
unfolding cipher groups
cipher-groups mode k n bytes = rw (rounds-map mode k (load n bytes)) refl

-- The bytes that `n` groups take.
module _ (mode : Mode) (k : Key) where
  out : ℕ → List ℕ → List ℕ
  out n bytes = store (map (round_lane mode k) (load n bytes))

  length-out : (n : ℕ) (bytes : List ℕ) → length (out n bytes) ≡ 8 * n
  unfolding out
  length-out n bytes =
      length-store (map (round_lane mode k) (load n bytes))
      ∙ ap (λ t. 8 * t) (length-map (load n bytes) (round_lane mode k) ∙ length-load n bytes)

  out-add :
      (m n : ℕ) (bytes : List ℕ) → out (m + n) bytes ≡ out m bytes ++ out n (drop (8 * m) bytes)
  unfolding out
  out-add m n bytes = simp (load-add m n bytes, map-append, store-append)

  take-groups : (n : ℕ) (bytes : List ℕ) → take (8 * n) (groups mode k n bytes) ≡ out n bytes
  unfolding groups out
  take-groups n bytes =
      rw (← length-out n bytes) (take-append (out n bytes) (drop (length (out n bytes)) bytes))

  drop-groups : (n : ℕ) (bytes : List ℕ) → drop (8 * n) (groups mode k n bytes) ≡ drop (8 * n) bytes
  unfolding groups out
  drop-groups n bytes =
      rw (← length-out n bytes) (drop-append (out n bytes) (drop (length (out n bytes)) bytes))

  length-groups :
      (n : ℕ) (bytes : List ℕ)
      → 8 * n ≤ length bytes
      → length (groups mode k n bytes) ≡ length bytes
  unfolding groups out
  length-groups n bytes h = omega (
    arith,
    length-append (out n bytes) (drop (8 * n) bytes),
    length-out n bytes,
    length-drop (8 * n) bytes,
  )

  -- Groups of the head, then groups of the rest, are groups of the whole.
  groups-add :
      (m n : ℕ) (bytes : List ℕ)
      → out m bytes ++ groups mode k n (drop (8 * m) bytes) ≡ groups mode k (m + n) bytes
  unfolding groups store out
  groups-add m n bytes =
      sym (
        append_assoc (out m bytes) (out n (drop (8 * m) bytes)) (drop (8 * n) (drop (8 * m) bytes)))
      ∙ ap₂ ◌++◌ (sym (out-add m n bytes))
          (drop-drop (8 * m) (8 * n) bytes ∙ ap (λ t. drop t bytes) (omega arith))

  groups-none : (bytes : List ℕ) → groups mode k 0 bytes ≡ bytes
  unfolding groups load store
  groups-none bytes = refl

  each_block-groups :
      (size n : ℕ) (bytes : List ℕ)
      → each_block mode k size n bytes ≡ groups mode k (n * size) bytes
  unfolding each_block
  each_block-groups size zero bytes =
      sym (groups-none bytes) ∙ ap (λ t. groups mode k t bytes) none_left
    where
      none_left : 0 ≡ 0 * size
      none_left = omega arith
  each_block-groups size (suc n) bytes =
      rw
        (
          cipher-groups mode k size bytes,
          take-groups size bytes,
          drop-groups size bytes,
          each_block-groups size n (drop (8 * size) bytes),
          groups-add size (n * size) bytes,
        )
        (ap (λ t. groups mode k t bytes) (omega arith))

-- The mask rounds the length down to whole blocks.
block_bytes_lem :
    (e size len : ℕ)
    → size ≡ 2 ^ e
    → e ≤ 29
    → len < word
    → block_bytes size len ≡ len - len % (8 * size)
unfolding block_bytes
block_bytes_lem e size len s le lt =
    rw step (bit_and-high 64 (suc (suc (suc e))) len (omega arith) ∙ trimmed)
  where
    eight : 8 * size ≡ 2 ^ suc (suc (suc e))
    eight = omega (arith, s, pow-suc 2 e, pow-suc 2 (suc e), pow-suc 2 (suc (suc e)))

    step : 2 ^ 64 - 8 * size ≡ 2 ^ 64 - 2 ^ suc (suc (suc e))
    step = rw eight refl

    trimmed : len % 2 ^ 64 - len % 2 ^ suc (suc (suc e)) ≡ len - len % (8 * size)
    trimmed = rw eight (omega arith)

whole_blocks : (len size : ℕ) → 0 < size → len - len % (8 * size) ≡ 8 * (len / (8 * size) * size)
whole_blocks len size h = grind arith

count_blocks : (q size : ℕ) → 0 < size → (8 * (q * size) + (8 * size - 1)) / (8 * size) ≡ q
count_blocks q size h = grind arith

groups_split :
    (len q size : ℕ)
    → 0 < size
    → q ≡ len / (8 * size)
    → (8 * (q * size) ≤ len) × (q * size + (len - 8 * (q * size)) / 8 ≡ len / 8)
groups_split len q size h e = grind arith

-- One instantiation: the blocks of `size` lanes, then what the smaller sizes do with the rest.
one_size :
    (mode : Mode) (k : Key) (e size : ℕ) (bytes : List ℕ)
    → size ≡ 2 ^ e
    → e ≤ 29
    → length bytes < word
    → (q : ℕ) × (q ≡ length bytes / (8 * size))
      × (block_bytes size (length bytes) ≡ 8 * (q * size))
      × (each_block mode k size
            ((block_bytes size (length bytes) + (8 * size - 1)) / (8 * size))
            bytes
          ≡ groups mode k (q * size) bytes)
one_size mode k e size bytes s le lt = (q, refl, blocks, done)
  where
    q : ℕ
    q = length bytes / (8 * size)

    positive : 0 < size
    positive = omega (arith, s, one-le-pow e 2 (omega arith))

    blocks : block_bytes size (length bytes) ≡ 8 * (q * size)
    blocks =
        block_bytes_lem e size (length bytes) s le lt ∙ whole_blocks (length bytes) size positive

    done :
        each_block mode k size
          ((block_bytes size (length bytes) + (8 * size - 1)) / (8 * size))
          bytes
        ≡ groups mode k (q * size) bytes
    done = rw (blocks, count_blocks q size positive) (each_block-groups mode k size q bytes)

module _ (mode : Mode) (k : Key) (fuel size : ℕ) (bytes : List ℕ) where
  abbrev blocks_of : ℕ
  blocks_of = block_bytes size (length bytes)

  abbrev done_of : List ℕ
  done_of = each_block mode k size ((blocks_of + (8 * size - 1)) / (8 * size)) bytes

  run_one : size ≡ 1 → run (suc fuel) mode k size bytes ≡ done_of
  unfolding run
  run_one e = ground arith

  run_more :
      size ≢ 1
      → run (suc fuel) mode k size bytes
        ≡ take blocks_of done_of ++ run fuel mode k ((size + 1) / 2) (drop blocks_of done_of)
  unfolding run
  run_more e = ground arith

-- The rest behind `m` groups, walked over by the smaller sizes, completes the walk.
rest_done :
    (mode : Mode) (k : Key) (m : ℕ) (bytes : List ℕ)
    → 8 * m ≤ length bytes
    → m + (length bytes - 8 * m) / 8 ≡ length bytes / 8
    → take (8 * m) (groups mode k m bytes)
        ++ reference mode k (drop (8 * m) (groups mode k m bytes))
      ≡ reference mode k bytes
unfolding reference
rest_done mode k m bytes h e =
    rw (take-groups mode k m bytes, drop-groups mode k m bytes, length-drop (8 * m) bytes)
      (groups-add mode k m ((length bytes - 8 * m) / 8) bytes ∙ ap (λ t. groups mode k t bytes) e)

two_steps :
    (mode : Mode) (k : Key) (fuel size m : ℕ) (bytes : List ℕ)
    → blocks_of mode k fuel size bytes ≡ 8 * m
    → done_of mode k fuel size bytes ≡ groups mode k m bytes
    → run fuel mode k ((size + 1) / 2) (drop (8 * m) (groups mode k m bytes))
      ≡ reference mode k (drop (8 * m) (groups mode k m bytes))
    → take (blocks_of mode k fuel size bytes) (done_of mode k fuel size bytes)
        ++ run fuel mode k
            ((size + 1) / 2)
            (drop (blocks_of mode k fuel size bytes) (done_of mode k fuel size bytes))
      ≡ take (8 * m) (groups mode k m bytes)
        ++ reference mode k (drop (8 * m) (groups mode k m bytes))
two_steps mode k fuel size m bytes b d r =
    ap₂ (λ n xs. take n xs ++ run fuel mode k ((size + 1) / 2) (drop n xs)) b d
    ∙ ap (◌++◌ (take (8 * m) (groups mode k m bytes))) r

one_left : (len q size : ℕ) → size ≡ 1 → q ≡ len / (8 * size) → q * size ≡ len / 8
one_left len q size s e =
    omega (arith, e ∙ ap (λ (t : ℕ). len / (8 * t)) s, ap (λ (t : ℕ). q * t) s)

-- The template gives the reference walk, whatever power of two it starts from.
run-reference :
    (fuel e size : ℕ) (mode : Mode) (k : Key) (bytes : List ℕ)
    → e < fuel
    → size ≡ 2 ^ e
    → e ≤ 29
    → length bytes < word
    → run fuel mode k size bytes ≡ reference mode k bytes
run-reference zero e size mode k bytes f s le lt = absurd (omega arith)
run-reference (suc fuel) zero size mode k bytes f s le lt =
    let (q, whole, blocks, done) = one_size mode k 0 size bytes s le lt in
    run_one mode k fuel size bytes s
    ∙ done
    ∙ unfold reference in ap (λ t. groups mode k t bytes) (one_left (length bytes) q size s whole)
run-reference (suc fuel) (suc e) size mode k bytes f s le lt =
    let (q, whole, blocks, done) = one_size mode k (suc e) size bytes s le lt in
    let (fits, total) = groups_split (length bytes) q size positive whole in
    let m : ℕ = q * size in
    let smaller : (xs : List ℕ)
        → length xs < word
        → run fuel mode k ((size + 1) / 2) xs ≡ reference mode k xs =
      λ xs h. run-reference fuel e ((size + 1) / 2) mode k xs (omega arith) half (omega arith) h in
    run_more mode k fuel size bytes several
    ∙ two_steps mode k fuel size m bytes blocks done (
        smaller (drop (8 * m) (groups mode k m bytes)) (
          omega (
            arith,
            length-drop (8 * m) (groups mode k m bytes),
            length-groups mode k m bytes fits,
          )))
    ∙ rest_done mode k m bytes fits total
  where
    positive : 0 < size
    positive = omega (arith, s, one-le-pow (suc e) 2 (omega arith))

    several : size ≢ 1
    several = omega (arith, s, pow-suc 2 e, one-le-pow e 2 (omega arith))

    half : (size + 1) / 2 ≡ 2 ^ e
    half = omega (arith, s, pow-suc 2 e)

lt_two_pow : (e : ℕ) → e < 2 ^ e
lt_two_pow zero = omega arith
lt_two_pow (suc e) = omega (arith, lt_two_pow e, pow-suc 2 e)

-- Whatever power of two the compiler picked for the block size, encryption and decryption treat each
-- full group of eight bytes by itself, and leave a shorter tail as it is (below 2^32 bytes).
pub crypt-reference :
    (e : ℕ) (bytes : List ℕ) (k : Key)
    → e ≤ 29
    → length bytes < word
    → (encrypt (2 ^ e) bytes k ≡ reference encrypting k bytes)
      × (decrypt (2 ^ e) bytes k ≡ reference decrypting k bytes)
unfolding encrypt decrypt
crypt-reference e bytes k le lt = (
  run-reference (2 ^ e) e (2 ^ e) encrypting k bytes (lt_two_pow e) refl le lt,
  run-reference (2 ^ e) e (2 ^ e) decrypting k bytes (lt_two_pow e) refl le lt,
)

length-reference :
    (mode : Mode) (k : Key) (bytes : List ℕ) → length (reference mode k bytes) ≡ length bytes
unfolding reference
length-reference mode k bytes = length-groups mode k (length bytes / 8) bytes (omega arith)

groups_back :
    (k : Key) (n : ℕ) (bytes : List ℕ)
    → 8 * n ≤ length bytes
    → All IsByte bytes
    → groups decrypting k n (groups encrypting k n bytes) ≡ bytes
unfolding groups
groups_back k n bytes h b =
    ap₂ ◌++◌ (ap store (ap (map (round_lane decrypting k)) reloaded ∙ undone))
      (drop-groups encrypting k n bytes)
    ∙ store-load n bytes h b
  where
    lanes : List Lane
    lanes = load n bytes

    coded : List Lane
    coded = map (round_lane encrypting k) lanes

    size : length coded ≡ n
    size = length-map lanes (round_lane encrypting k) ∙ length-load n bytes

    reloaded : load n (store coded ++ drop (8 * n) bytes) ≡ coded
    reloaded =
        ap (λ t. load t (store coded ++ drop (8 * n) bytes)) (sym size)
        ∙ load-store coded (drop (8 * n) bytes)
            (round_lane-encrypting-IsLane k lanes (load-IsLane n bytes b))

    undone : map (round_lane decrypting k) coded ≡ lanes
    undone = decrypt-encrypt_lanes k lanes (load-IsLane n bytes b)

reference_back :
    (k : Key) (bytes : List ℕ)
    → All IsByte bytes
    → reference decrypting k (reference encrypting k bytes) ≡ bytes
unfolding reference
reference_back k bytes b =
    ap (λ t. groups decrypting k (t / 8) (reference encrypting k bytes))
      (length-reference encrypting k bytes)
    ∙ groups_back k (length bytes / 8) bytes (omega arith) b

-- Decryption gives back every message, and the two ends may use different block sizes.
pub decrypt-encrypt :
    (d e : ℕ) (bytes : List ℕ) (k : Key)
    → d ≤ 29
    → e ≤ 29
    → length bytes < word
    → All IsByte bytes
    → decrypt (2 ^ d) (encrypt (2 ^ e) bytes k) k ≡ bytes
decrypt-encrypt d e bytes k ld le lt b = rw ((crypt-reference e bytes k le lt).0) (
    (crypt-reference d (reference encrypting k bytes) k ld
      (omega (arith, length-reference encrypting k bytes))).1
    ∙ reference_back k bytes b)

-- Nor does either change how many bytes there are.
pub length-encrypt :
    (e : ℕ) (bytes : List ℕ) (k : Key)
    → e ≤ 29
    → length bytes < word
    → length (encrypt (2 ^ e) bytes k) ≡ length bytes
length-encrypt e bytes k le lt =
    rw ((crypt-reference e bytes k le lt).0) (length-reference encrypting k bytes)
