-- ===== src/Connection/Transfer.antt =====
-- From the bytes that one end sends to the message that the protocol of the other end is given
-- (src/connection.cpp and src/protocol.cpp).
use baiakthunder.Base.{
  ℕ, ◌+◌, ◌-◌, ◌*◌, ◌/◌, ◌%◌, ◌^◌, ◌<◌, ◌≤◌, ◌≡◌, sym, ap, ap₂, ◌∙◌, true, false, ◌||◌, List, ◌++◌,
  ltb, leb, ◌==◌, arith, length, length-append, bit_or,
}
use baiakthunder.Base.Bits.{bit_or-shift}
use baiakthunder.Base.Buffer.{
  Buffer, write, slice, le_bytes, le_value, length-le_bytes, le_value-le_bytes, slice-split,
  slice-write,
}
use baiakthunder.Checksum.{adler_checksum}
use baiakthunder.Checksum.Bounds.{adler_checksum_bound}
use baiakthunder.Message.{
  Message, get, can_read, set_length, get_body_buffer, get_length_header, max_size,
}
use baiakthunder.Connection.{
  Connection, Header, packet, time_passed, restart_count, parse_header, packet_checksum,
  check_packet,
}

-- A packet behind its length: the checksum, and what it is the checksum of.
pub check_packet_good :
    (m : Message) (coded : List ℕ)
    → m.position ≡ 2
    → m.length ≡ 6 + length coded
    → 0 < length coded
    → slice m.buffer 2 (m.length - 2) ≡ le_bytes 4 (adler_checksum coded) ++ coded
    → check_packet m ≡ (true, record m { position = 6 })
unfolding check_packet packet_checksum get can_read
check_packet_good m coded pos len some_bytes there =
    let sum = le_bytes 4 (adler_checksum coded) in
    let four = length-le_bytes 4 (adler_checksum coded) in
    let size : m.length - 2 ≡ length (sum ++ coded) =
      omega (arith, length-append sum coded, four, len) in
    let (first, rest) =
      slice-split m.buffer 2 sum coded (ap (slice m.buffer 2) (sym size) ∙ there) in
    let value : le_value (slice m.buffer 2 4) ≡ adler_checksum coded =
      ap (λ k. le_value (slice m.buffer 2 k)) (sym four)
      ∙ ap le_value first
      ∙ le_value-le_bytes 4 (adler_checksum coded) (adler_checksum_bound coded) in
    let left : m.length - 6 ≡ length coded = omega (arith, len) in
    let body : adler_checksum (slice m.buffer 6 (m.length - 6)) ≡ adler_checksum coded =
      ap adler_checksum (ap₂ (slice m.buffer) (omega (arith, four)) left ∙ rest) in
    rw pos (ground (arith, value, body, len, some_bytes))

header_value :
    (buf : Buffer) (size : ℕ)
    → size < 2 ^ 16
    → slice buf 0 2 ≡ le_bytes 2 size
    → bit_or (buf 0) (buf 1 * 2 ^ 8) % 2 ^ 16 ≡ size
unfolding slice le_bytes
header_value buf size h e =
    let low : buf 0 ≡ size % 256 = cc in
    let high : buf 1 ≡ size / 256 % 256 = cc in
    rw (low, high) (omega (arith, bit_or-shift 8 (size % 256) (size / 256 % 256) (omega arith)))

-- The socket's read of the header, and of the rest.
abbrev pub arrive_header : Connection → List ℕ → Connection
arrive_header c bytes = record c { msg = record c.msg { buffer = write c.msg.buffer 0 bytes } }

abbrev pub arrive_body : Message → List ℕ → Message
arrive_body m bytes = record m { buffer = write m.buffer 2 bytes }

-- The connection is open, and this packet is not one too many.
pub record IsWilling (c : Connection) (now max_packets : ℕ) : Type 0 where
  pub is_open : c.is_open ≡ true
  pub slow : (c.packets_sent + 1) % 2 ^ 32 / time_passed c now ≤ max_packets

restart_count_msg :
    (c : Connection) (now passed : ℕ)
    → ((restart_count c now passed).msg ≡ c.msg)
      × ((restart_count c now passed).is_open ≡ c.is_open)
unfolding restart_count
restart_count_msg c now passed = (ground arith, ground arith)

-- A header that is accepted, whatever is counted.
accepted :
    (c : Connection) (now max_packets size : ℕ)
    → IsWilling c now max_packets
    → get_length_header c.msg ≡ size
    → 0 < size
    → size < max_size - 16
    → let (h, c') = parse_header false now max_packets c in
      (h ≡ packet size)
      × (c'.msg ≡ get_body_buffer (set_length c.msg (size + 2)))
      × (c'.is_open ≡ true)
unfolding parse_header
accepted c now max_packets size w e pos small =
    let c1 : Connection = record c { packets_sent = (c.packets_sent + 1) % 2 ^ 32 } in
    let c2 = restart_count c1 now (time_passed c now) in
    let (same, open_still) = restart_count_msg c1 now (time_passed c now) in
    let value : get_length_header c2.msg ≡ size = ap get_length_header same ∙ e in
    let few : ltb max_packets ((c.packets_sent + 1) % 2 ^ 32 / time_passed c now) ≡ false =
      ground (arith, w.slow) in
    let fits : (size == 0 || leb (max_size - 16) size) ≡ false = ground arith in
    let whole : parse_header false now max_packets c
        ≡ (packet size, record c2 { msg = get_body_buffer (set_length c2.msg (size + 2)) }) =
      ground (arith, few, value) in
    (
      ap (λ (r : Header × Connection). r.0) whole,
      ap (λ (r : Header × Connection). r.1.msg) whole
          ∙ ap (λ m. get_body_buffer (set_length m (size + 2))) same,
      ap (λ (r : Header × Connection). r.1.is_open) whole ∙ open_still ∙ w.is_open,
    )

pub parse_header_good :
    (c : Connection) (now max_packets size : ℕ)
    → IsWilling c now max_packets
    → 0 < size
    → size < max_size - 16
    → let (h, c') = parse_header false now max_packets (arrive_header c (le_bytes 2 size)) in
      (h ≡ packet size)
      × (c'.msg ≡ record c.msg {
        position = 2;
        length = size + 2;
        buffer = write c.msg.buffer 0 (le_bytes 2 size);
      })
      × (c'.is_open ≡ true)
unfolding get_length_header set_length get_body_buffer time_passed
parse_header_good c now max_packets size w pos small =
    let two = length-le_bytes 2 size in
    let there : slice (write c.msg.buffer 0 (le_bytes 2 size)) 0 2 ≡ le_bytes 2 size =
      ap (slice (write c.msg.buffer 0 (le_bytes 2 size)) 0) (sym two)
      ∙ slice-write c.msg.buffer 0 (le_bytes 2 size) in
    let value =
      header_value (write c.msg.buffer 0 (le_bytes 2 size)) size (omega (arith, small)) there in
    let (h, m, o) =
      accepted (arrive_header c (le_bytes 2 size)) now max_packets size
        (record { is_open = w.is_open; slow = w.slow }) value pos small in
    let fits : (size + 2) % 2 ^ 16 ≡ size + 2 = omega (arith, small) in
    (
      h,
      m
          ∙ ap
              (λ n. record c.msg {
                position = 2;
                length = n;
                buffer = write c.msg.buffer 0 (le_bytes 2 size);
              })
              fits,
      o,
    )
