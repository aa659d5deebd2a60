-- ===== src/Xtea/Feistel.antt =====
-- One lane through the 32 rounds: decryption undoes encryption, whatever the key.
use baiakthunder.Base.{
  ℕ, zero, suc, ◌*◌, ◌%◌, ◌<◌, ◌≡◌, bit_xor, refl, sym, ap₂, ◌^◌, List, [], ◌∷◌, map, arith, All,
}
use mathlib.Core.List.{map-id, map-map}
use baiakthunder.Xtea.{
  mix, low_subkey, high_subkey, Lane, Key, word, delta, add32, sub32, encrypt_left, encrypt_right,
  decrypt_left, decrypt_right, encrypt_rounds, decrypt_rounds, Mode, encrypting, decrypting, rounds,
}
use baiakthunder.Xtea.Bytes.{IsLane}

add32-lt : (a b : ℕ) → add32 a b < word
unfolding add32
add32-lt a b = omega arith

sub32-add32 : (a b : ℕ) → a < word → sub32 (add32 a b) b ≡ a
unfolding add32 sub32
sub32-add32 a b h = omega arith

-- The round of one lane that starts at `sum`, and the one that takes it back.
encrypt_round : Key → ℕ → Lane → Lane
encrypt_round k sum v = encrypt_right k (add32 sum delta) (encrypt_left k sum v)

decrypt_round : Key → ℕ → Lane → Lane
decrypt_round k sum v = decrypt_left k (sub32 sum delta) (decrypt_right k sum v)

encrypt_round-IsLane : (k : Key) (sum : ℕ) (v : Lane) → IsLane v → IsLane (encrypt_round k sum v)
unfolding encrypt_round encrypt_left encrypt_right
encrypt_round-IsLane k sum v h = (add32-lt v.left _, add32-lt v.right _)

decrypt_right-encrypt_right :
    (k : Key) (s : ℕ) (v : Lane) → v.right < word → decrypt_right k s (encrypt_right k s v) ≡ v
unfolding decrypt_right encrypt_right
decrypt_right-encrypt_right k s v h =
    λ i. record v { right = sub32-add32 v.right (bit_xor (mix v.left) (high_subkey k s)) h i }

decrypt_left-encrypt_left :
    (k : Key) (s : ℕ) (v : Lane) → v.left < word → decrypt_left k s (encrypt_left k s v) ≡ v
unfolding decrypt_left encrypt_left
decrypt_left-encrypt_left k s v h =
    λ i. record v { left = sub32-add32 v.left (bit_xor (mix v.right) (low_subkey k s)) h i }

decrypt_round-encrypt_round :
    (k : Key) (s : ℕ) (v : Lane)
    → s < word
    → IsLane v
    → decrypt_round k (add32 s delta) (encrypt_round k s v) ≡ v
unfolding decrypt_round encrypt_round
decrypt_round-encrypt_round k s v hs h =
    rw
      (
        decrypt_right-encrypt_right k (add32 s delta) (encrypt_left k s v) (right_kept),
        sub32-add32 s delta hs,
      )
      (decrypt_left-encrypt_left k s v h.0)
  where
    right_kept : (encrypt_left k s v).right < word
    right_kept = unfold encrypt_left in h.1

-- `n` rounds of one lane, and the sum behind them.
pub encrypt_lane : Key → ℕ → ℕ → Lane → Lane
encrypt_lane k zero s v = v
encrypt_lane k (suc n) s v = encrypt_lane k n (add32 s delta) (encrypt_round k s v)

pub decrypt_lane : Key → ℕ → ℕ → Lane → Lane
decrypt_lane k zero s v = v
decrypt_lane k (suc n) s v = decrypt_lane k n (sub32 s delta) (decrypt_round k s v)

sum_after : ℕ → ℕ → ℕ
sum_after zero s = s
sum_after (suc n) s = sum_after n (add32 s delta)

-- The rounds undone in the opposite order: the last first.
encrypt_lane-last :
    (k : Key) (n s : ℕ) (v : Lane)
    → encrypt_lane k (suc n) s v ≡ encrypt_round k (sum_after n s) (encrypt_lane k n s v)
unfolding encrypt_lane sum_after
encrypt_lane-last k zero s v = refl
encrypt_lane-last k (suc n) s v = encrypt_lane-last k n (add32 s delta) (encrypt_round k s v)

sum_after-last : (n s : ℕ) → sum_after (suc n) s ≡ add32 (sum_after n s) delta
unfolding sum_after
sum_after-last zero s = refl
sum_after-last (suc n) s = sum_after-last n (add32 s delta)

sum_after-lt : (n s : ℕ) → s < word → sum_after n s < word
unfolding sum_after
sum_after-lt zero s h = h
sum_after-lt (suc n) s h = sum_after-lt n (add32 s delta) (add32-lt s delta)

pub encrypt_lane-IsLane : (k : Key) (n s : ℕ) (v : Lane) → IsLane v → IsLane (encrypt_lane k n s v)
unfolding encrypt_lane
encrypt_lane-IsLane k zero s v h = h
encrypt_lane-IsLane k (suc n) s v h =
    encrypt_lane-IsLane k n (add32 s delta) (encrypt_round k s v) (encrypt_round-IsLane k s v h)

decrypt_lane-encrypt_lane :
    (k : Key) (n s : ℕ) (v : Lane)
    → s < word
    → IsLane v
    → decrypt_lane k n (sum_after n s) (encrypt_lane k n s v) ≡ v
unfolding decrypt_lane
decrypt_lane-encrypt_lane k zero s v hs h = unfold encrypt_lane in refl
decrypt_lane-encrypt_lane k (suc n) s v hs h =
    rw
      (
        encrypt_lane-last k n s v,
        sum_after-last n s,
        sub32-add32 (sum_after n s) delta (sum_after-lt n s hs),
        decrypt_round-encrypt_round k (sum_after n s) (encrypt_lane k n s v) (sum_after-lt n s hs)
            (encrypt_lane-IsLane k n s v h),
      )
      (decrypt_lane-encrypt_lane k n s v hs h)

-- The lanes do not meet: the loops over them are the rounds of each lane.
encrypt_rounds-map :
    (k : Key) (n s : ℕ) (lanes : List Lane)
    → encrypt_rounds k n s lanes ≡ map (encrypt_lane k n s) lanes
unfolding encrypt_rounds encrypt_lane encrypt_round
encrypt_rounds-map k zero s lanes = sym (map-id lanes)
encrypt_rounds-map k (suc n) s lanes = simp (encrypt_rounds-map k n (add32 s delta), map-map)

decrypt_rounds-map :
    (k : Key) (n s : ℕ) (lanes : List Lane)
    → decrypt_rounds k n s lanes ≡ map (decrypt_lane k n s) lanes
unfolding decrypt_rounds decrypt_lane decrypt_round
decrypt_rounds-map k zero s lanes = sym (map-id lanes)
decrypt_rounds-map k (suc n) s lanes = simp (decrypt_rounds-map k n (sub32 s delta), map-map)

-- What either mode does to one lane.
pub round_lane : Mode → Key → Lane → Lane
unfolding encrypt_lane decrypt_lane
round_lane encrypting k v = encrypt_lane k 32 0 v
round_lane decrypting k v = decrypt_lane k 32 (delta * 2 ^ 5 % word) v

-- The vector rounds are the rounds of each lane.
pub rounds-map :
    (mode : Mode) (k : Key) (lanes : List Lane)
    → rounds mode k lanes ≡ map (round_lane mode k) lanes
unfolding rounds round_lane
rounds-map encrypting k lanes = encrypt_rounds-map k 32 0 lanes
rounds-map decrypting k lanes = decrypt_rounds-map k 32 (delta * 2 ^ 5 % word) lanes

-- `delta << 5` is the sum that encryption ends with.
last_sum : sum_after 32 0 ≡ delta * 2 ^ 5 % word
unfolding sum_after add32
last_sum = refl

decrypt-encrypt_lane :
    (k : Key) (v : Lane) → IsLane v → round_lane decrypting k (round_lane encrypting k v) ≡ v
unfolding round_lane
decrypt-encrypt_lane k v h = rw (← last_sum) (decrypt_lane-encrypt_lane k 32 0 v (omega arith) h)

pub round_lane-encrypting-IsLane :
    (k : Key) (lanes : List Lane)
    → All IsLane lanes
    → All IsLane (map (round_lane encrypting k) lanes)
unfolding round_lane
round_lane-encrypting-IsLane k [] h = tt
round_lane-encrypting-IsLane k (v ∷ lanes) h =
    (encrypt_lane-IsLane k 32 0 v h.0, round_lane-encrypting-IsLane k lanes h.1)

pub decrypt-encrypt_lanes :
    (k : Key) (lanes : List Lane)
    → All IsLane lanes
    → map (round_lane decrypting k) (map (round_lane encrypting k) lanes) ≡ lanes
decrypt-encrypt_lanes k [] h = refl
decrypt-encrypt_lanes k (v ∷ lanes) h =
    ap₂ ◌∷◌ (decrypt-encrypt_lane k v h.0) (decrypt-encrypt_lanes k lanes h.1)
