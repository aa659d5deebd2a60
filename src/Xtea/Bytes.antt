-- ===== src/Xtea/Bytes.antt =====
-- Loading and storing lanes: little-endian words, lane after lane.
use baiakthunder.Base.{
  ℕ, zero, suc, ◌+◌, ◌*◌, ◌/◌, ◌%◌, ◌^◌, ◌<◌, ◌≤◌, ◌≡◌, refl, ap, ap₂, ◌∙◌, bit_or, List, [], ◌∷◌,
  ◌++◌, arith, length, drop, get_or, All, All-get_or, All-drop, drop-drop,
}
use mathlib.Core.List.{append_assoc}
use baiakthunder.Base.Bits.{bit_or-shift}
use baiakthunder.Xtea.{Lane, word, load_word, load, store_word, store}

abbrev pub IsByte : ℕ → Type 0
IsByte b = b < 256

abbrev lane : ℕ → ℕ → Lane
lane a b = record { left = a; right = b }

abbrev pub IsLane : Lane → Type 0
IsLane v = (v.left < word) × (v.right < word)

pub length-store : (lanes : List Lane) → length (store lanes) ≡ 8 * length lanes
unfolding store store_word
length-store [] = refl
length-store (v ∷ lanes) = omega (arith, length-store lanes)

-- The four bytes are disjoint fields of the word.
word_of_bytes :
    (a b c d : ℕ)
    → a < 256
    → b < 256
    → c < 256
    → bit_or (bit_or (bit_or a (b * 2 ^ 8)) (c * 2 ^ 16)) (d * 2 ^ 24)
      ≡ a + b * 2 ^ 8 + c * 2 ^ 16 + d * 2 ^ 24
word_of_bytes a b c d ha hb hc =
    rw
      (
        bit_or-shift 8 a b ha,
        bit_or-shift 16 (a + b * 2 ^ 8) c (omega arith),
        bit_or-shift 24 (a + b * 2 ^ 8 + c * 2 ^ 16) d (omega arith),
      )
      refl

fields_of_word :
    (a b c d : ℕ)
    → a < 256
    → b < 256
    → c < 256
    → d < 256
    → store_word (a + b * 2 ^ 8 + c * 2 ^ 16 + d * 2 ^ 24) ≡ a ∷ b ∷ c ∷ d ∷ []
unfolding store_word
fields_of_word a b c d ha hb hc hd = ground arith

word_of_fields :
    (x : ℕ)
    → x < word
    → x % 256 + x / 2 ^ 8 % 256 * 2 ^ 8 + x / 2 ^ 16 % 256 * 2 ^ 16 + x / 2 ^ 24 % 256 * 2 ^ 24 ≡ x
word_of_fields x h = omega arith

load_word-store_word : (x : ℕ) (rest : List ℕ) → x < word → load_word (store_word x ++ rest) 0 ≡ x
unfolding load_word store_word
load_word-store_word x rest h =
    word_of_bytes _ _ _ (x / 2 ^ 24 % 256) (omega arith) (omega arith) (omega arith)
    ∙ word_of_fields x h

load_word-store_words :
    (x y : ℕ) (rest : List ℕ) → y < word → load_word ((store_word x ++ store_word y) ++ rest) 4 ≡ y
unfolding load_word store_word
load_word-store_words x y rest h =
    word_of_bytes _ _ _ (y / 2 ^ 24 % 256) (omega arith) (omega arith) (omega arith)
    ∙ word_of_fields y h

bytes_of_word :
    (a b c d : ℕ)
    → a < 256
    → b < 256
    → c < 256
    → d < 256
    → store_word (bit_or (bit_or (bit_or a (b * 2 ^ 8)) (c * 2 ^ 16)) (d * 2 ^ 24))
      ≡ a ∷ b ∷ c ∷ d ∷ []
bytes_of_word a b c d ha hb hc hd =
    ap store_word (word_of_bytes a b c d ha hb hc) ∙ fields_of_word a b c d ha hb hc hd

Lane_path : {a b c d : ℕ} → a ≡ b → c ≡ d → lane a c ≡ lane b d
Lane_path p q = λ i. lane (p i) (q i)

-- What was stored is loaded again, whatever follows it.
pub load-store :
    (lanes : List Lane) (rest : List ℕ)
    → All IsLane lanes
    → load (length lanes) (store lanes ++ rest) ≡ lanes
unfolding load store
load-store [] rest h = refl
load-store (v ∷ lanes) rest h =
    ap₂ ◌∷◌
      (Lane_path (load_word-store_word v.left (store_word v.right ++ store lanes ++ rest) h.0.0)
        (load_word-store_words v.left v.right (store lanes ++ rest) h.0.1))
      (load-store lanes rest h.1)

-- Storing what was loaded gives the bytes back.
pub store-load :
    (n : ℕ) (bytes : List ℕ)
    → 8 * n ≤ length bytes
    → All IsByte bytes
    → store (load n bytes) ++ drop (8 * n) bytes ≡ bytes
unfolding load store load_word
store-load zero bytes h b = refl
store-load (suc n) (b0 ∷ b1 ∷ b2 ∷ b3 ∷ b4 ∷ b5 ∷ b6 ∷ b7 ∷ rest) h b =
    let others : store (load n rest)
          ++ drop (8 * suc n) (b0 ∷ b1 ∷ b2 ∷ b3 ∷ b4 ∷ b5 ∷ b6 ∷ b7 ∷ rest)
        ≡ rest =
      rw eight (store-load n rest (omega arith) b.1.1.1.1.1.1.1.1) in
    λ i. (first i ++ second i) ++ others i
  where
    first : store_word (load_word (b0 ∷ b1 ∷ b2 ∷ b3 ∷ []) 0) ≡ b0 ∷ b1 ∷ b2 ∷ b3 ∷ []
    first = bytes_of_word b0 b1 b2 b3 (omega arith) (omega arith) (omega arith) (omega arith)

    second : store_word (load_word (b4 ∷ b5 ∷ b6 ∷ b7 ∷ []) 0) ≡ b4 ∷ b5 ∷ b6 ∷ b7 ∷ []
    second = bytes_of_word b4 b5 b6 b7 (omega arith) (omega arith) (omega arith) (omega arith)

    eight : 8 * suc n ≡ suc (suc (suc (suc (suc (suc (suc (suc (8 * n))))))))
    eight = omega arith
store-load (suc n) short h b = absurd (omega arith)

pub length-load : (n : ℕ) (bytes : List ℕ) → length (load n bytes) ≡ n
unfolding load
length-load zero bytes = refl
length-load (suc n) bytes = ap suc (length-load n (drop 8 bytes))

-- A load of `m + n` lanes is a load of `m`, then one of `n` from where it stopped.
pub load-add :
    (m n : ℕ) (bytes : List ℕ) → load (m + n) bytes ≡ load m bytes ++ load n (drop (8 * m) bytes)
unfolding load
load-add zero n bytes = ap (λ k. load k bytes) (omega arith)
load-add (suc m) n bytes =
    let e : suc m + n ≡ suc (m + n) = omega arith in
    rw (e, load)
      (ap (◌∷◌ (lane (load_word bytes 0) (load_word bytes 4)))
        (load-add m n (drop 8 bytes) ∙ ap (λ t. load m (drop 8 bytes) ++ load n t) far))
  where
    far : drop (8 * m) (drop 8 bytes) ≡ drop (8 * suc m) bytes
    far = drop-drop 8 (8 * m) bytes ∙ ap (λ k. drop k bytes) (omega arith)

pub store-append : (u v : List Lane) → store (u ++ v) ≡ store u ++ store v
unfolding store
store-append [] v = refl
store-append (x ∷ u) v = simp (store-append u v, append_assoc)

pub load-IsLane : (n : ℕ) (bytes : List ℕ) → All IsByte bytes → All IsLane (load n bytes)
unfolding load load_word
load-IsLane zero bytes b = tt
load-IsLane (suc n) bytes b =
    ((word_lt 0, word_lt 4), load-IsLane n (drop 8 bytes) (All-drop IsByte 8 bytes b))
  where
    at : (j : ℕ) → get_or bytes j 0 < 256
    at j = All-get_or IsByte bytes j 0 b (omega arith)

    word_lt : (j : ℕ) → load_word bytes j < word
    word_lt j = omega (
      arith,
      word_of_bytes _ _ _ (get_or bytes (j + 3) 0) (at j) (at (j + 1)) (at (j + 2)),
      at j,
      at (j + 1),
      at (j + 2),
      at (j + 3),
    )
