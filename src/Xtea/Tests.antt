-- ===== src/Xtea/Tests.antt =====
-- xtea.cpp on nineteen bytes: two groups and a tail of three.
use baiakthunder.Base.{ℕ, ◌^◌, ◌≡◌, refl, List, [], ◌∷◌, arith, length, All}
use baiakthunder.Xtea.{Key, encrypt, decrypt, run, each_block, block_bytes, encrypting, decrypting}
use baiakthunder.Xtea.Bytes.{IsByte}
use baiakthunder.Xtea.Blocks.{reference, crypt-reference, decrypt-encrypt, length-encrypt}

abbrev secret : Key
secret = 0x01020304 ∷ 0x05060708 ∷ 0x090a0b0c ∷ 0x0d0e0f10 ∷ []

abbrev plain : List ℕ
plain = 1 ∷ 2 ∷ 3 ∷ 4 ∷ 5 ∷ 6 ∷ 7 ∷ 8 ∷ 9 ∷ 10 ∷ 11 ∷ 12 ∷ 13 ∷ 14 ∷ 15 ∷ 16 ∷ 17 ∷ 18 ∷ 19 ∷ []

abbrev coded : List ℕ
coded =
    200 ∷ 131 ∷ 247 ∷ 169 ∷ 155 ∷ 186 ∷ 24 ∷ 39 ∷ 138 ∷ 44 ∷ 244 ∷ 66 ∷ 158 ∷ 200 ∷ 249 ∷ 57 ∷ 17
    ∷ 18 ∷ 19 ∷ []

plain-IsByte : All IsByte plain
plain-IsByte = omega arith

-- The two lanes of one block, and the tail.
encrypt-plain : encrypt 2 plain secret ≡ coded
unfolding encrypt run each_block block_bytes
encrypt-plain = refl

-- The same bytes with blocks of eight lanes, which are too large for any of it.
encrypt-plain_wide : encrypt 8 plain secret ≡ coded
unfolding encrypt run each_block block_bytes
encrypt-plain_wide = refl

decrypt-coded : decrypt 1 coded secret ≡ plain
unfolding decrypt run each_block block_bytes
decrypt-coded = refl

crypt-reference_example :
    (encrypt (2 ^ 1) plain secret ≡ reference encrypting secret plain)
    × (decrypt (2 ^ 1) plain secret ≡ reference decrypting secret plain)
crypt-reference_example = crypt-reference 1 plain secret (omega arith) (omega arith)

decrypt-encrypt_example : decrypt (2 ^ 5) (encrypt (2 ^ 3) plain secret) secret ≡ plain
decrypt-encrypt_example =
    decrypt-encrypt 5 3 plain secret (omega arith) (omega arith) (omega arith) plain-IsByte

length-encrypt_example : length (encrypt (2 ^ 3) plain secret) ≡ 19
length-encrypt_example = length-encrypt 3 plain secret (omega arith) (omega arith)
