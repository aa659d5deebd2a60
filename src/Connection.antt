-- ===== src/Connection.antt =====
-- src/connection.cpp: what a connection checks of a packet before the protocol sees it. The reads of the
-- socket are arguments, by the bytes that arrive; the clock and MAX_PACKETS_PER_SECOND too.
pub mod Flood
pub mod Transfer
pub mod RoundTrip
mod Tests
use baiakthunder.Base.{
  ℕ, ◌+◌, ◌-◌, ◌/◌, ◌%◌, ◌^◌, Bool, true, false, ◌||◌, List, ltb, leb, ◌==◌, not, if◌then◌else◌,
  max,
}
use baiakthunder.Base.Buffer.{write, slice}
use baiakthunder.Checksum.{adler_checksum}
use baiakthunder.Message.{
  Message, get, skip_bytes, set_length, get_body_buffer, get_length_header, max_size,
}

pub record Connection : Type 0 where
  pub is_open : Bool
  pub packets_sent : ℕ
  pub time_connected : ℕ
  pub received_first : Bool
  pub msg : Message

-- What comes of a header: nothing, the end of the connection, or a packet of that many bytes.
pub data Header : Type 0 where
  ignored closed force_closed : Header
  packet : ℕ → Header

-- timePassed, in 32 bits
unfoldable pub time_passed : Connection → ℕ → ℕ
time_passed c now = max 1 ((now - c.time_connected + 1) % 2 ^ 32)

unfoldable pub restart_count : Connection → ℕ → ℕ → Connection
restart_count c now passed =
    if ltb 2 passed then record c { time_connected = now; packets_sent = 0 } else c

-- Connection::parseHeader. The clock does not go back behind `timeConnected`.
unfoldable pub parse_header : Bool → ℕ → ℕ → Connection → Header × Connection
parse_header error now max_packets_per_second c =
    let passed = time_passed c now in
    let c1 : Connection = record c { packets_sent = (c.packets_sent + 1) % 2 ^ 32 } in
    let c2 = restart_count c1 now passed in
    let size = get_length_header c2.msg in
    if error
    then (force_closed, record c { is_open = false })
    else if not c.is_open
    then (ignored, c)
    else if ltb max_packets_per_second (c1.packets_sent / passed)
    then (closed, record c1 { is_open = false })
    else if size == 0 || leb (max_size - 16) size
    then (force_closed, record c2 { is_open = false })
    else (packet size, record c2 { msg = get_body_buffer (set_length c2.msg (size + 2)) })

-- The checksum of what follows the checksum; 0 if nothing does.
unfoldable pub packet_checksum : Message → ℕ
packet_checksum m =
    let len = m.length - (m.position + 4) in
    if ltb (m.position + 4) m.length
    then adler_checksum (slice m.buffer (m.position + 4) len)
    else 0

-- The first half of Connection::parsePacket: is there a checksum? If not the position steps back.
unfoldable pub check_packet : Message → Bool × Message
check_packet m =
    let (recv_checksum, m') = get 4 m in
    if recv_checksum == packet_checksum m then (true, m') else (false, skip_bytes m' (2 ^ 16 - 4))
