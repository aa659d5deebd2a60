-- ===== src/Xtea.antt =====
-- src/xtea.cpp: the block cipher of the game protocol. A `uint32_t` is a number with its wrap
-- written out; `left[]` and `right[]` are one list of lanes; the data behind the pointer is a list
-- of bytes, whose head is the byte that the pointer shows.
pub mod Bytes
pub mod Feistel
pub mod Blocks
mod Tests
use baiakthunder.Base.{
  ℕ, zero, suc, ◌+◌, ◌-◌, ◌*◌, ◌/◌, ◌%◌, ◌^◌, bit_and, bit_or, bit_xor, List, [], ◌∷◌, ◌++◌, map,
  length, take, drop, get_or, ◌==◌, if◌then◌else◌,
}

abbrev pub word : ℕ
word = 2 ^ 32

pub add32 : ℕ → ℕ → ℕ
add32 a b = (a + b) % word

pub sub32 : ℕ → ℕ → ℕ
sub32 a b = (a + (word - b % word)) % word

abbrev pub delta : ℕ
delta = 0x9E3779B9

-- `std::array<uint32_t, 4>`; every index the code uses is masked by 3.
abbrev pub Key : Type 0
Key = List ℕ

pub record Lane : Type 0 where
  pub left : ℕ
  pub right : ℕ

-- ((x << 4) ^ (x >> 5)) + x
mix : ℕ → ℕ
unfolding add32
mix x = add32 (bit_xor (x * 16 % word) (x / 32)) x

-- The two subkeys, sum + k[sum & 3] and sum + k[(sum >> 11) & 3].
low_subkey : Key → ℕ → ℕ
unfolding add32
low_subkey k sum = add32 sum (get_or k (bit_and sum 3) 0)

high_subkey : Key → ℕ → ℕ
unfolding add32
high_subkey k sum = add32 sum (get_or k (bit_and (sum / 2 ^ 11) 3) 0)

pub encrypt_left : Key → ℕ → Lane → Lane
unfolding add32 mix low_subkey
encrypt_left k sum v = record v { left = add32 v.left (bit_xor (mix v.right) (low_subkey k sum)) }

pub encrypt_right : Key → ℕ → Lane → Lane
unfolding add32 mix high_subkey
encrypt_right k sum v = record v {
  right = add32 v.right (bit_xor (mix v.left) (high_subkey k sum));
}

pub decrypt_right : Key → ℕ → Lane → Lane
unfolding sub32 mix high_subkey
decrypt_right k sum v = record v {
  right = sub32 v.right (bit_xor (mix v.left) (high_subkey k sum));
}

pub decrypt_left : Key → ℕ → Lane → Lane
unfolding sub32 mix low_subkey
decrypt_left k sum v = record v { left = sub32 v.left (bit_xor (mix v.right) (low_subkey k sum)) }

-- The body of `for (i = 0; i < 32; ++i)`, with its loops over the lanes, `n` times.
pub encrypt_rounds : Key → ℕ → ℕ → List Lane → List Lane
unfolding encrypt_left encrypt_right add32
encrypt_rounds k zero sum lanes = lanes
encrypt_rounds k (suc n) sum lanes =
    let sum' = add32 sum delta in
    encrypt_rounds k n sum' (map (encrypt_right k sum') (map (encrypt_left k sum) lanes))

pub decrypt_rounds : Key → ℕ → ℕ → List Lane → List Lane
unfolding decrypt_left decrypt_right sub32
decrypt_rounds k zero sum lanes = lanes
decrypt_rounds k (suc n) sum lanes =
    let sum' = sub32 sum delta in
    decrypt_rounds k n sum' (map (decrypt_left k sum') (map (decrypt_right k sum) lanes))

-- data[j] | data[j+1] << 8 | data[j+2] << 16 | data[j+3] << 24
pub load_word : List ℕ → ℕ → ℕ
load_word bytes j =
    bit_or
      (bit_or (bit_or (get_or bytes j 0) (get_or bytes (j + 1) 0 * 2 ^ 8))
        (get_or bytes (j + 2) 0 * 2 ^ 16))
      (get_or bytes (j + 3) 0 * 2 ^ 24)

-- The first loop: lane `i` from the eight bytes at `8 * i`.
pub load : ℕ → List ℕ → List Lane
unfolding load_word
load zero bytes = []
load (suc n) bytes =
    record { left = load_word bytes 0; right = load_word bytes 4 } ∷ load n (drop 8 bytes)

-- static_cast<uint8_t>(x), (x >> 8), (x >> 16), (x >> 24)
pub store_word : ℕ → List ℕ
store_word x = x % 256 ∷ x / 2 ^ 8 % 256 ∷ x / 2 ^ 16 % 256 ∷ x / 2 ^ 24 % 256 ∷ []

-- The last loop: what it writes, lane by lane.
pub store : List Lane → List ℕ
unfolding store_word
store [] = []
store (v ∷ lanes) = (store_word v.left ++ store_word v.right) ++ store lanes

pub data Mode : Type 0 where
  encrypting decrypting : Mode

-- The 32 rounds; decryption starts at `delta << 5`.
pub rounds : Mode → Key → List Lane → List Lane
unfolding encrypt_rounds decrypt_rounds
rounds encrypting k lanes = encrypt_rounds k 32 0 lanes
rounds decrypting k lanes = decrypt_rounds k 32 (delta * 2 ^ 5 % word) lanes

-- `XTEA_encrypt<BLOCK_SIZE>` and `XTEA_decrypt<BLOCK_SIZE>`: the bytes behind the block stay.
pub cipher : Mode → Key → ℕ → List ℕ → List ℕ
unfolding rounds load store
cipher mode k size bytes = store (rounds mode k (load size bytes)) ++ drop (8 * size) bytes

-- `for (i = 0; i < blocks; i += step)`, for `n` rounds.
pub each_block : Mode → Key → ℕ → ℕ → List ℕ → List ℕ
unfolding cipher
each_block mode k size zero bytes = bytes
each_block mode k size (suc n) bytes =
    let done = cipher mode k size bytes in
    take (8 * size) done ++ each_block mode k size n (drop (8 * size) done)

-- length & ~(step - 1), in the 64 bits of size_t
pub block_bytes : ℕ → ℕ → ℕ
block_bytes size len = bit_and len (2 ^ 64 - 8 * size)

-- `XTEA<Encrypt, BlockSize>::operator()`: the template halves `BlockSize` until it is 1.
-- The first argument bounds the instantiations.
pub run : ℕ → Mode → Key → ℕ → List ℕ → List ℕ
run zero mode k size bytes = bytes
run (suc fuel) mode k size bytes =
    let blocks = block_bytes size (length bytes) in
    let done = each_block mode k size ((blocks + (8 * size - 1)) / (8 * size)) bytes in
    let rest = run fuel mode k ((size + 1) / 2) (drop blocks done) in
    if size == 1 then done else take blocks done ++ rest

-- `xtea::encrypt` and `xtea::decrypt` over an `InitialBlockSize` chosen when compiling.
pub encrypt : ℕ → List ℕ → Key → List ℕ
encrypt size bytes k = run size encrypting k size bytes

pub decrypt : ℕ → List ℕ → Key → List ℕ
decrypt size bytes k = run size decrypting k size bytes
