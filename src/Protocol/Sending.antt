-- ===== src/Protocol/Sending.antt =====
-- The bytes of a message that src/protocol.cpp sends.
use baiakthunder.Base.{
  ℕ, ◌+◌, ◌-◌, ◌%◌, ◌^◌, ◌<◌, ◌≤◌, ◌≡◌, refl, sym, ap, ap₂, ◌∙◌, Bool, true, false, Option, none,
  List, ◌++◌, ltb, ◌==◌, if◌then◌else◌, arith, length, replicate, length-replicate, Bool-cases, inl,
  inr, append_none, append_assoc,
}
use baiakthunder.Base.Buffer.{
  Buffer, write, slice, le_bytes, length-le_bytes, slice-add, slice-cong, slice-write, write_before,
  length-slice,
}
use baiakthunder.Xtea.{Key, encrypt, word}
use baiakthunder.Xtea.Blocks.{length-encrypt}
use baiakthunder.Checksum.{adler_checksum}
use baiakthunder.Message.{add_padding_bytes, can_add, max_body_length}
use baiakthunder.OutputMessage.{
  OutputMessage, output, write_message_length, add_header, add_crypto_header,
}
use baiakthunder.OutputMessage.Headers.{output-add_crypto_header, output-add_header}
use baiakthunder.OutputMessage.Headers.{checksum_bytes}
use baiakthunder.Protocol.{Protocol, compress, pad, xtea_encrypt, on_send_message}

-- A message whose body ends where it is written on, with eight bytes of room for headers, and room
-- for the padding.
pub record IsSendable (o : OutputMessage) : Type 0 where
  pub aligned : o.start + o.msg.length ≡ o.msg.position
  pub front : 8 ≤ o.start
  pub room : o.msg.position + 8 < max_body_length

-- How many bytes are padded.
abbrev pub padding : ℕ → ℕ
padding n = if n % 8 == 0 then 0 else 8 - n % 8

-- Bytes written behind a slice.
slice-back :
    (buf : Buffer) (pos n : ℕ) (bytes : List ℕ)
    → slice (write buf (pos + n) bytes) pos (n + length bytes) ≡ slice buf pos n ++ bytes
slice-back buf pos n bytes =
    slice-add (write buf (pos + n) bytes) pos n (length bytes)
    ∙ ap₂ (◌++◌)
        (slice-cong (write buf (pos + n) bytes) buf pos n
          (λ i lo hi. write_before buf (pos + n) bytes i hi))
        (slice-write buf (pos + n) bytes)

output-pad :
    (o : OutputMessage)
    → o.start + o.msg.length ≡ o.msg.position
    → o.msg.position + 8 < max_body_length
    → (output (pad o) ≡ output o ++ replicate (padding o.msg.length) 0x33)
      × ((pad o).msg.length ≡ o.msg.length + padding o.msg.length)
      × ((pad o).start ≡ o.start)
unfolding pad output add_padding_bytes can_add
output-pad o al room = elim (Bool-cases (o.msg.length % 8 == 0)) [
  | inl h ↦ rw h (sym (append_none (slice o.msg.buffer o.start o.msg.length)), omega arith, refl)
  | inr h ↦
      let k = 8 - o.msg.length % 8 in
      let fits : ltb ((k + o.msg.position) % 2 ^ 64) max_body_length ≡ true = ground arith in
      let n : (o.msg.length + k) % 2 ^ 16 ≡ o.msg.length + length {A = ℕ} (replicate k 0x33) =
        omega (arith, length-replicate {A = ℕ} k 0x33) in
      rw (h, fits)
        (
          ap₂ (λ pos m. slice (write o.msg.buffer pos (replicate k 0x33)) o.start m) (sym al) n
              ∙ slice-back o.msg.buffer o.start o.msg.length (replicate k 0x33),
          omega arith,
          refl,
        )
]

output-xtea_encrypt :
    (e : ℕ) (key : Key) (o : OutputMessage)
    → e ≤ 29
    → (pad o).msg.length < word
    → output (xtea_encrypt (2 ^ e) key o) ≡ encrypt (2 ^ e) (output (pad o)) key
unfolding xtea_encrypt output
output-xtea_encrypt e key o le lt =
    let o' = pad o in
    let bytes = slice o'.msg.buffer o'.start o'.msg.length in
    let coded = encrypt (2 ^ e) bytes key in
    let m = length-slice o'.msg.buffer o'.start o'.msg.length in
    let n : o'.msg.length ≡ length coded =
      omega (arith, length-encrypt e bytes key le (omega (arith, m)), m) in
    ap (slice (write o'.msg.buffer o'.start coded) o'.start) n
    ∙ slice-write o'.msg.buffer o'.start coded

write_message_length_fields :
    (o : OutputMessage)
    → o.msg.length + 2 < 2 ^ 16
    → ((write_message_length o).msg.length ≡ o.msg.length + 2)
      × ((write_message_length o).start ≡ o.start - 2)
      × ((write_message_length o).msg.position ≡ o.msg.position)
unfolding write_message_length add_header
write_message_length_fields o h = (omega arith, refl, refl)

pub padding-le : (n : ℕ) → padding n ≤ 7
padding-le n = ground arith

sent_encrypted :
    (block : ℕ) (deflate : List ℕ → Option (List ℕ)) (p : Protocol) (o : OutputMessage)
    → p.raw_messages ≡ false
    → p.encryption_enabled ≡ true
    → p.checksum_enabled ≡ true
    → p.compression ≡ false
    → on_send_message block deflate p o
      ≡ add_crypto_header true false (xtea_encrypt block p.key (write_message_length o))
unfolding on_send_message
sent_encrypted block deflate p o raw enc sum comp = rw (raw, enc, sum, comp) refl

compress_failed :
    (deflate : List ℕ → Option (List ℕ)) (o : OutputMessage)
    → deflate (output o) ≡ none
    → compress deflate o ≡ o
unfolding compress
compress_failed deflate o h = ground (arith, h)

sent_marked :
    (block : ℕ) (deflate : List ℕ → Option (List ℕ)) (p : Protocol) (o : OutputMessage)
    → p.raw_messages ≡ false
    → p.encryption_enabled ≡ true
    → p.compression ≡ true
    → 64 < o.msg.length
    → deflate (output o) ≡ none
    → on_send_message block deflate p o
      ≡ add_crypto_header p.checksum_enabled true
          (xtea_encrypt block p.key (write_message_length o))
unfolding on_send_message
sent_marked block deflate p o raw enc comp long failed =
    let longer : ltb 64 o.msg.length ≡ true = ground arith in
    rw (raw, enc, comp, longer, compress_failed deflate o failed) refl

-- The bytes behind encryption and headers, whether or not there is a checksum, or the mark of compression.
output_sealed :
    (e : ℕ) (key : Key) (add_checksum compressed : Bool) (o : OutputMessage)
    → e ≤ 29
    → IsSendable o
    → let n = o.msg.length + 2 in
      let coded =
        encrypt (2 ^ e) (le_bytes 2 o.msg.length ++ (output o ++ replicate (padding n) 0x33)) key in
      let sum = checksum_bytes add_checksum compressed coded in
      output (
        add_crypto_header add_checksum compressed
          (xtea_encrypt (2 ^ e) key (write_message_length o)))
      ≡ le_bytes 2 (n + padding n + length sum) ++ (sum ++ coded)
output_sealed e key add_checksum compressed o le s =
    let o1 = write_message_length o in
    let o2 = xtea_encrypt (2 ^ e) key o1 in
    let n = o.msg.length + 2 in
    let fields = write_message_length_fields o (omega (arith, s.room, s.front, s.aligned)) in
    let padded =
      output-pad o1 (omega (arith, fields.0, fields.1, fields.2, s.aligned, s.front))
        (omega (arith, fields.2, s.room)) in
    let headed : output o1 ≡ le_bytes 2 o.msg.length ++ output o =
      unfold write_message_length in
      output-add_header 2 o.msg.length o (omega (arith, s.front))
        (omega (arith, s.room, s.aligned)) in
    let fill : List ℕ = replicate (padding n) 0x33 in
    let filled : replicate (padding o1.msg.length) 0x33 ≡ fill =
      ap (λ k. replicate (padding k) 0x33) fields.0 in
    let plain : output (pad o1) ≡ le_bytes 2 o.msg.length ++ (output o ++ fill) =
      padded.0
      ∙ ap₂ (◌++◌) headed filled
      ∙ append_assoc (le_bytes 2 o.msg.length) (output o) fill in
    let len : (pad o1).msg.length ≡ n + padding n = padded.1 ∙ ap (λ k. k + padding k) fields.0 in
    let few : padding n ≤ 7 = padding-le n in
    let coded : output o2 ≡ encrypt (2 ^ e) (le_bytes 2 o.msg.length ++ (output o ++ fill)) key =
      output-xtea_encrypt e key o1 le (omega (arith, len, few, s.room, s.aligned))
      ∙ ap (λ bytes. encrypt (2 ^ e) bytes key) plain in
    let start : 6 ≤ o2.start = unfold xtea_encrypt in omega (arith, padded.2, fields.1, s.front) in
    let len2 : o2.msg.length ≡ n + padding n = unfold xtea_encrypt in len in
    output-add_crypto_header add_checksum compressed o2 start
      (omega (arith, len2, few, s.room, s.aligned))
    ∙ ap₂
        (λ k xs.
          let sum = checksum_bytes add_checksum compressed xs in
          le_bytes 2 (k + length sum) ++ (sum ++ xs))
        len2 coded

-- What is sent under encryption: the length, the checksum, and the length of the body with the body,
-- padded and encrypted.
pub output-on_send_message :
    (e : ℕ) (deflate : List ℕ → Option (List ℕ)) (p : Protocol) (o : OutputMessage)
    → e ≤ 29
    → IsSendable o
    → p.raw_messages ≡ false
    → p.encryption_enabled ≡ true
    → p.checksum_enabled ≡ true
    → p.compression ≡ false
    → let n = o.msg.length + 2 in
      let coded =
        encrypt
          (2 ^ e)
          (le_bytes 2 o.msg.length ++ (output o ++ replicate (padding n) 0x33))
          p.key in
      output (on_send_message (2 ^ e) deflate p o)
      ≡ le_bytes 2 (n + padding n + 4) ++ (le_bytes 4 (adler_checksum coded) ++ coded)
output-on_send_message e deflate p o le s raw enc sum comp =
    let n = o.msg.length + 2 in
    let coded =
      encrypt (2 ^ e) (le_bytes 2 o.msg.length ++ (output o ++ replicate (padding n) 0x33)) p.key in
    ap output (sent_encrypted (2 ^ e) deflate p o raw enc sum comp)
    ∙ output_sealed e p.key true false o le s
    ∙ ap (λ k. le_bytes 2 (n + padding n + k) ++ (le_bytes 4 (adler_checksum coded) ++ coded))
        (length-le_bytes 4 (adler_checksum coded))

-- If zlib fails on a message of more than 64 bytes, it is sent with its body as it was, and with the
-- zero in place of a checksum that says the body is compressed.
pub output-on_send_message_uncompressed :
    (e : ℕ) (deflate : List ℕ → Option (List ℕ)) (p : Protocol) (o : OutputMessage)
    → e ≤ 29
    → IsSendable o
    → p.raw_messages ≡ false
    → p.encryption_enabled ≡ true
    → p.compression ≡ true
    → 64 < o.msg.length
    → deflate (output o) ≡ none
    → let n = o.msg.length + 2 in
      output (on_send_message (2 ^ e) deflate p o)
      ≡ le_bytes 2 (n + padding n + 4)
        ++ (le_bytes 4 0
            ++ encrypt
                (2 ^ e)
                (le_bytes 2 o.msg.length ++ (output o ++ replicate (padding n) 0x33))
                p.key)
output-on_send_message_uncompressed e deflate p o le s raw enc comp long failed =
    let n = o.msg.length + 2 in
    let coded =
      encrypt (2 ^ e) (le_bytes 2 o.msg.length ++ (output o ++ replicate (padding n) 0x33)) p.key in
    ap output (sent_marked (2 ^ e) deflate p o raw enc comp long failed)
    ∙ output_sealed e p.key p.checksum_enabled true o le s
    ∙ ap (λ k. le_bytes 2 (n + padding n + k) ++ (le_bytes 4 0 ++ coded)) (length-le_bytes 4 0)
