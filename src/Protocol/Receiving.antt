-- ===== src/Protocol/Receiving.antt =====
-- A coded message that src/protocol.cpp receives.
use baiakthunder.Base.{
  ℕ, ◌+◌, ◌-◌, ◌%◌, ◌^◌, ◌<◌, ◌≤◌, ◌≡◌, refl, sym, ap, ap₂, ◌∙◌, Bool, true, List, ◌++◌, arith,
  length, length-append, All,
}
use baiakthunder.Base.Buffer.{
  write, slice, le_bytes, le_value, length-le_bytes, le_value-le_bytes, slice-split, slice-write,
}
use baiakthunder.Xtea.{Key, encrypt, decrypt}
use baiakthunder.Xtea.Bytes.{IsByte}
use baiakthunder.Xtea.Blocks.{decrypt-encrypt}
use baiakthunder.Message.{Message, get, can_read, set_length}
use baiakthunder.Protocol.{xtea_decrypt}

-- A decoded message, at its body.
pub record Decoded (body : List ℕ) (m : Message) : Type 0 where
  pub position : m.position ≡ 8
  pub length_lem : m.length ≡ length body
  pub bytes : slice m.buffer 8 (length body) ≡ body

-- The plain bytes of a message, once they stand behind its checksum.
read_inner :
    (m : Message) (body fill : List ℕ)
    → m.position ≡ 6
    → length body < 2 ^ 16
    → m.length ≡ 8 + length body + length fill
    → slice m.buffer 6 (length (le_bytes 2 (length body) ++ (body ++ fill)))
      ≡ le_bytes 2 (length body) ++ (body ++ fill)
    → (get 2 m ≡ (length body, record m { position = 8 })) × (slice m.buffer 8 (length body) ≡ body)
unfolding get can_read
read_inner m body fill pos short len inner =
    let head = le_bytes 2 (length body) in
    let two = length-le_bytes 2 (length body) in
    let (first, rest) = slice-split m.buffer 6 head (body ++ fill) inner in
    let tail : slice m.buffer 8 (length (body ++ fill)) ≡ body ++ fill =
      ap (λ k. slice m.buffer k (length (body ++ fill))) (omega (arith, two)) ∙ rest in
    let value : le_value (slice m.buffer 6 2) ≡ length body =
      ap (λ k. le_value (slice m.buffer 6 k)) (sym two)
      ∙ ap le_value first
      ∙ le_value-le_bytes 2 (length body) (omega arith) in
    (rw pos (ground (arith, value)), (slice-split m.buffer 8 body fill tail).0)

xtea_decrypt_read :
    (block : ℕ) (key : Key) (m m2 : Message) (len : ℕ)
    → (m.length + 2) % 8 ≡ 0
    → get 2 (record m {
      buffer =
          write m.buffer m.position (decrypt block (slice m.buffer m.position (m.length - 6)) key);
    })
      ≡ (len, m2)
    → len + 8 ≤ m2.length
    → xtea_decrypt block key m ≡ (true, set_length m2 len)
unfolding xtea_decrypt
xtea_decrypt_read block key m m2 len eight e fits = ground (arith, e)

-- A message behind its checksum whose remaining bytes are an encrypted length, body and padding, a
-- multiple of eight in all, is decrypted to that body.
pub xtea_decrypt-Decoded :
    (d e : ℕ) (key : Key) (m : Message) (body fill : List ℕ)
    → d ≤ 29
    → e ≤ 29
    → m.position ≡ 6
    → length body < 2 ^ 16
    → m.length ≡ 8 + length body + length fill
    → m.length < 2 ^ 16
    → (m.length + 2) % 8 ≡ 0
    → All IsByte (le_bytes 2 (length body) ++ (body ++ fill))
    → slice m.buffer 6 (m.length - 6)
      ≡ encrypt (2 ^ e) (le_bytes 2 (length body) ++ (body ++ fill)) key
    → ((xtea_decrypt (2 ^ d) key m).0 ≡ true) × Decoded body (xtea_decrypt (2 ^ d) key m).1
xtea_decrypt-Decoded d e key m body fill ld le pos short len small eight b coded =
    let inner = le_bytes 2 (length body) ++ (body ++ fill) in
    let size : length inner ≡ m.length - 6 = omega (
      arith,
      length-append (le_bytes 2 (length body)) (body ++ fill),
      length-append body fill,
      length-le_bytes 2 (length body),
      len,
    ) in
    let plain : decrypt (2 ^ d) (slice m.buffer m.position (m.length - 6)) key ≡ inner =
      ap (λ k. decrypt (2 ^ d) (slice m.buffer k (m.length - 6)) key) pos
      ∙ ap (λ xs. decrypt (2 ^ d) xs key) coded
      ∙ decrypt-encrypt d e inner key ld le (omega (arith, size)) b in
    let m1 : Message = record m {
      buffer =
          write m.buffer m.position
            (decrypt (2 ^ d) (slice m.buffer m.position (m.length - 6)) key);
    } in
    let there : slice m1.buffer 6 (length inner) ≡ inner =
      ap₂ (λ k xs. slice (write m.buffer k xs) 6 (length inner)) pos plain
      ∙ slice-write m.buffer 6 inner in
    let (read, body_there) = read_inner m1 body fill pos short len there in
    let done =
      xtea_decrypt_read (2 ^ d) key m (record m1 { position = 8 }) (length body) eight read
        (omega (arith, len)) in
    (
      ap (λ (r : Bool × Message). r.0) done,
      record {
        position = ap (λ (r : Bool × Message). r.1.position) done ∙ (unfold set_length in refl);
        length_lem =
            ap (λ (r : Bool × Message). r.1.length) done ∙ (unfold set_length in omega arith);
        bytes =
            ap (λ (r : Bool × Message). slice r.1.buffer 8 (length body)) done
            ∙ (unfold set_length in body_there);
      },
    )
