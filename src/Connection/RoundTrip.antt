-- ===== src/Connection/RoundTrip.antt =====
-- A message sent by the protocol of one end reaches the protocol of the other (src/protocol.cpp,
-- src/outputmessage.h, src/connection.cpp, src/xtea.cpp and the checksum of src/tools.cpp together).
use baiakthunder.Base.{
  ℕ, zero, suc, ◌+◌, ◌-◌, ◌/◌, ◌%◌, ◌^◌, ◌<◌, ◌≤◌, ◌≡◌, refl, sym, ap, ap₂, ◌∙◌, subst, Bool, true,
  false, Option, some, List, ◌++◌, arith, length, length-append, take, drop, take-append,
  drop-append, All, All-append, replicate, length-replicate,
}
use baiakthunder.Base.Buffer.{
  write, slice, le_bytes, length-le_bytes, length-slice, slice-write, slice-split,
}
use baiakthunder.Checksum.{adler_checksum}
use baiakthunder.Xtea.{encrypt}
use baiakthunder.Xtea.Bytes.{IsByte}
use baiakthunder.Xtea.Blocks.{length-encrypt}
use baiakthunder.Message.{Message, max_size}
use baiakthunder.OutputMessage.{OutputMessage, output}
use baiakthunder.Protocol.{Protocol, on_send_message, on_recv_message, xtea_decrypt}
use baiakthunder.Protocol.Sending.{IsSendable, padding, output-on_send_message, padding-le}
use baiakthunder.Protocol.Receiving.{Decoded, xtea_decrypt-Decoded}
use baiakthunder.Connection.{Connection, packet, parse_header, check_packet}
use baiakthunder.Connection.Transfer.{
  arrive_header, arrive_body, IsWilling, parse_header_good, check_packet_good,
}

le_bytes-IsByte : (n v : ℕ) → All IsByte (le_bytes n v)
unfolding le_bytes
le_bytes-IsByte zero v = tt
le_bytes-IsByte (suc n) v = (omega arith, le_bytes-IsByte n (v / 256))

replicate-IsByte : (n b : ℕ) → b < 256 → All IsByte (replicate n b)
replicate-IsByte zero b h = tt
replicate-IsByte (suc n) b h = (h, replicate-IsByte n b h)

taken :
    (d : ℕ) (p : Protocol) (m : Message)
    → p.encryption_enabled ≡ true
    → (xtea_decrypt (2 ^ d) p.key m).0 ≡ true
    → on_recv_message (2 ^ d) p m ≡ some (xtea_decrypt (2 ^ d) p.key m).1
unfolding on_recv_message
taken d p m enc ok = rw (enc, ok) refl

-- What an encrypted packet comes to, behind its length.
received :
    (d e : ℕ) (p : Protocol) (m : Message) (body fill coded : List ℕ)
    → d ≤ 29
    → e ≤ 29
    → p.encryption_enabled ≡ true
    → length body < 2 ^ 16
    → length fill < 8
    → m.length < 2 ^ 16
    → All IsByte (le_bytes 2 (length body) ++ (body ++ fill))
    → (2 + length body + length fill) % 8 ≡ 0
    → coded ≡ encrypt (2 ^ e) (le_bytes 2 (length body) ++ (body ++ fill)) p.key
    → m.position ≡ 2
    → m.length ≡ 6 + length coded
    → slice m.buffer 2 (m.length - 2) ≡ le_bytes 4 (adler_checksum coded) ++ coded
    → let (ok, m1) = check_packet m in
      (ok ≡ true) × ((m2 : Message) × (on_recv_message (2 ^ d) p m1 ≡ some m2) × Decoded body m2)
received d e p m body fill coded ld le enc short few small b eight is_coded pos len there =
    let inner = le_bytes 2 (length body) ++ (body ++ fill) in
    let size : length inner ≡ 2 + length body + length fill = omega (
      arith,
      length-append (le_bytes 2 (length body)) (body ++ fill),
      length-append body fill,
      length-le_bytes 2 (length body),
    ) in
    let coded_size : length coded ≡ length inner =
      ap length is_coded ∙ length-encrypt e inner p.key le (omega (arith, size, len)) in
    let sum = le_bytes 4 (adler_checksum coded) in
    let four = length-le_bytes 4 (adler_checksum coded) in
    let whole : m.length - 2 ≡ length (sum ++ coded) =
      omega (arith, length-append sum coded, four, len) in
    let (first, rest) =
      slice-split m.buffer 2 sum coded (ap (slice m.buffer 2) (sym whole) ∙ there) in
    let behind : slice m.buffer 6 (m.length - 6) ≡ encrypt (2 ^ e) inner p.key =
      ap₂ (slice m.buffer) (omega (arith, four)) (omega (arith, len)) ∙ rest ∙ is_coded in
    let checked = check_packet_good m coded pos len (omega (arith, coded_size, size)) there in
    let m1 : Message = record m { position = 6 } in
    let (ok, decoded) =
      xtea_decrypt-Decoded d e p.key m1 body fill ld le refl short
        (omega (arith, len, coded_size, size)) small (omega (arith, len, coded_size, size, eight)) b
        behind in
    (
      ap (λ (r : Bool × Message). r.0) checked,
      (
        (xtea_decrypt (2 ^ d) p.key m1).1,
        ap (λ (r : Bool × Message). on_recv_message (2 ^ d) p r.1) checked ∙ taken d p m1 enc ok,
        decoded,
      ),
    )

-- A header and the bytes behind it are accepted as a packet of that size, the checksum is right, and
-- the protocol is handed a message at that body.
abbrev pub Arrives : ℕ → Protocol → Connection → ℕ → ℕ → List ℕ → List ℕ → ℕ → List ℕ → Type 0
Arrives block p c now max_packets header rest size body =
    let (h, c') = parse_header false now max_packets (arrive_header c header) in
    let (ok, m1) = check_packet (arrive_body c'.msg rest) in
    (h ≡ packet size)
    × (ok ≡ true)
    × ((m2 : Message) × (on_recv_message block p m1 ≡ some m2) × Decoded body m2)

packet-Arrives :
    (d e : ℕ) (p : Protocol) (c : Connection) (now max_packets : ℕ) (body fill coded : List ℕ)
    → d ≤ 29
    → e ≤ 29
    → p.encryption_enabled ≡ true
    → length fill < 8
    → length body + 14 < max_size - 16
    → All IsByte (le_bytes 2 (length body) ++ (body ++ fill))
    → (2 + length body + length fill) % 8 ≡ 0
    → coded ≡ encrypt (2 ^ e) (le_bytes 2 (length body) ++ (body ++ fill)) p.key
    → length coded ≡ 2 + length body + length fill
    → IsWilling c now max_packets
    → Arrives
        (2 ^ d)
        p
        c
        now
        max_packets
        (le_bytes 2 (4 + length coded))
        (le_bytes 4 (adler_checksum coded) ++ coded)
        (4 + length coded)
        body
packet-Arrives d e p c now max_packets body fill coded ld le enc few short b eight is_coded size w =
    let rest = le_bytes 4 (adler_checksum coded) ++ coded in
    let (h, m, open_still) =
      parse_header_good c now max_packets (4 + length coded) w (omega arith)
        (omega (arith, size)) in
    let c' =
      (parse_header false now max_packets (arrive_header c (le_bytes 2 (4 + length coded)))).1 in
    let n : length rest ≡ 4 + length coded = omega (
      arith,
      length-append (le_bytes 4 (adler_checksum coded)) coded,
      length-le_bytes 4 (adler_checksum coded),
    ) in
    let pos : c'.msg.position ≡ 2 = ap (λ (m : Message). m.position) m in
    let len : c'.msg.length ≡ 4 + length coded + 2 = ap (λ (m : Message). m.length) m in
    let there : slice (arrive_body c'.msg rest).buffer 2 (c'.msg.length - 2) ≡ rest =
      ap (slice (write c'.msg.buffer 2 rest) 2) (omega (arith, len, n))
      ∙ slice-write c'.msg.buffer 2 rest in
    let (ok, got) =
      received d e p (arrive_body c'.msg rest) body fill coded ld le enc (omega (arith, short)) few
        (omega (arith, len, size, short)) b eight is_coded pos (omega (arith, len)) there in
    (h, ok, got)

split-Arrives :
    (block : ℕ) (p : Protocol) (c : Connection) (now max_packets : ℕ) (coded body : List ℕ)
    → let head = le_bytes 2 (4 + length coded) in
      let rest = le_bytes 4 (adler_checksum coded) ++ coded in
      Arrives block p c now max_packets head rest (4 + length coded) body
      → Arrives block p c now max_packets
          (take 2 (head ++ rest))
          (drop 2 (head ++ rest))
          (length (head ++ rest) - 2)
          body
split-Arrives block p c now max_packets coded body a =
    let head = le_bytes 2 (4 + length coded) in
    let rest = le_bytes 4 (adler_checksum coded) ++ coded in
    let two = length-le_bytes 2 (4 + length coded) in
    let front : take 2 (head ++ rest) ≡ head =
      ap (λ n. take n (head ++ rest)) (sym two) ∙ take-append head rest in
    let back : drop 2 (head ++ rest) ≡ rest =
      ap (λ n. drop n (head ++ rest)) (sym two) ∙ drop-append head rest in
    let size : length (head ++ rest) - 2 ≡ 4 + length coded = omega (
      arith,
      length-append head rest,
      two,
      length-append (le_bytes 4 (adler_checksum coded)) coded,
      length-le_bytes 4 (adler_checksum coded),
    ) in
    rw (front, back, size) a

padded_eight : (n k : ℕ) → k ≡ padding (n + 2) → (2 + n + k) % 8 ≡ 0
padded_eight n k e = ground arith

-- A message of bytes, with room for its headers and its padding, that is sent under encryption with
-- a checksum and no compression: the other end, if its connection is open and this is not one
-- packet too many, accepts a packet of the length that was sent, finds the checksum right, and hands
-- its protocol, under the same key, a message that stands at the body that was sent.
pub on_recv_message-on_send_message :
    (d e : ℕ) (deflate : List ℕ → Option (List ℕ)) (p : Protocol) (o : OutputMessage)
    (c : Connection) (now max_packets : ℕ)
    → d ≤ 29
    → e ≤ 29
    → IsSendable o
    → All IsByte (output o)
    → p.raw_messages ≡ false
    → p.encryption_enabled ≡ true
    → p.checksum_enabled ≡ true
    → p.compression ≡ false
    → IsWilling c now max_packets
    → let sent = output (on_send_message (2 ^ e) deflate p o) in
      Arrives (2 ^ d) p c now max_packets (take 2 sent) (drop 2 sent) (length sent - 2) (output o)
on_recv_message-on_send_message d e deflate p o c now max_packets ld le s b raw enc sum comp w =
    let body = output o in
    let k = padding (o.msg.length + 2) in
    let fill : List ℕ = replicate k 0x33 in
    let filled : length fill ≡ k = length-replicate {A = ℕ} k 0x33 in
    let size : length body ≡ o.msg.length =
      unfold output in length-slice o.msg.buffer o.start o.msg.length in
    let inner = le_bytes 2 (length body) ++ (body ++ fill) in
    let coded = encrypt (2 ^ e) inner p.key in
    let few : k ≤ 7 = padding-le (o.msg.length + 2) in
    let plain : length inner ≡ 2 + length body + length fill = omega (
      arith,
      length-append (le_bytes 2 (length body)) (body ++ fill),
      length-append body fill,
      length-le_bytes 2 (length body),
    ) in
    let coded_size : length coded ≡ 2 + length body + length fill =
      length-encrypt e inner p.key le (omega (arith, plain, filled, few, size, s.room, s.aligned))
      ∙ plain in
    let eight : (2 + length body + length fill) % 8 ≡ 0 =
      padded_eight (length body) (length fill) (filled ∙ ap (λ n. padding (n + 2)) (sym size)) in
    let bytes : All IsByte inner =
      All-append IsByte (le_bytes 2 (length body)) (body ++ fill) (le_bytes-IsByte 2 (length body))
        (All-append IsByte body fill b (replicate-IsByte k 0x33 (omega arith))) in
    let arrived =
      packet-Arrives d e p c now max_packets body fill coded ld le enc (omega (arith, filled, few))
        (omega (arith, size, s.room, s.aligned, s.front)) bytes eight refl coded_size w in
    let sent = output (on_send_message (2 ^ e) deflate p o) in
    let whole : sent
        ≡ le_bytes 2 (4 + length coded) ++ (le_bytes 4 (adler_checksum coded) ++ coded) =
      output-on_send_message e deflate p o le s raw enc sum comp
      ∙ ap₂
          (λ n m.
            le_bytes 2 n
            ++ (le_bytes 4 (adler_checksum (encrypt (2 ^ e) (le_bytes 2 m ++ (body ++ fill)) p.key))
                ++ encrypt (2 ^ e) (le_bytes 2 m ++ (body ++ fill)) p.key))
          (omega (arith, coded_size, filled, size)) (sym size) in
    subst (λ xs. Arrives (2 ^ d) p c now max_packets (take 2 xs) (drop 2 xs) (length xs - 2) body)
      (sym whole) (split-Arrives (2 ^ d) p c now max_packets coded body arrived)
