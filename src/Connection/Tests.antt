-- ===== src/Connection/Tests.antt =====
-- A connection at the beginning of its first second.
use baiakthunder.Base.{
  ◌-◌, ◌^◌, ◌≡◌, refl, true, false, none, [], ◌∷◌, arith, length, take, drop, if◌then◌else◌, ◌==◌,
}
use baiakthunder.Base.Buffer.{slice}
use baiakthunder.Xtea.{Key}
use baiakthunder.Message.{get_length_header}
use baiakthunder.OutputMessage.{OutputMessage, output}
use baiakthunder.Protocol.{Protocol, on_send_message}
use baiakthunder.Connection.{Connection, closed, packet, parse_header, time_passed}
use baiakthunder.Connection.Flood.{HasCounted, headers, headers_limit}
use baiakthunder.Connection.Transfer.{IsWilling}
use baiakthunder.Connection.RoundTrip.{Arrives, on_recv_message-on_send_message}

abbrev four_words : Key
four_words = 1 ∷ 2 ∷ 3 ∷ 4 ∷ []

abbrev protocol : Protocol
protocol = record {
  raw_messages = false;
  encryption_enabled = true;
  checksum_enabled = true;
  compression = false;
  key = four_words;
}

abbrev two_bytes : OutputMessage
two_bytes = record {
  msg = record { length = 2; position = 10; overrun = false; buffer = λ i. 7 };
  start = 8;
}

-- The length that stands in front is 14.
abbrev connection : Connection
connection = record {
  is_open = true;
  packets_sent = 0;
  time_connected = 1000;
  received_first = true;
  msg = record {
    length = 0;
    position = 8;
    overrun = false;
    buffer = λ i. if i == 0 then 14 else 0;
  };
}

connection-HasCounted : HasCounted connection 1000 0
unfolding get_length_header
connection-HasCounted = record {
  is_open = refl;
  same_second = refl;
  count = refl;
  some_bytes = omega arith;
  not_too_many = omega arith;
}

headers_limit_example :
    ((parse_header false 1000 25 (headers 3 1000 25 connection)).0
      ≡ packet (get_length_header (headers 3 1000 25 connection).msg))
    × ((parse_header false 1000 25 (headers 25 1000 25 connection)).0 ≡ closed)
headers_limit_example =
    headers_limit 3 1000 25 connection connection-HasCounted (omega arith) (omega arith)

connection-IsWilling : IsWilling connection 1004 25
unfolding time_passed
connection-IsWilling = record { is_open = refl; slow = omega arith }

on_recv_message-on_send_message_example :
    let sent = output (on_send_message (2 ^ 3) (λ bytes. none) protocol two_bytes) in
    Arrives
      (2 ^ 4)
      protocol
      connection
      1004
      25
      (take 2 sent)
      (drop 2 sent)
      (length sent - 2)
      (7 ∷ 7 ∷ [])
unfolding output slice
on_recv_message-on_send_message_example =
    on_recv_message-on_send_message 4 3 (λ bytes. none) protocol two_bytes connection 1004 25
      (omega arith) (omega arith)
      (record { aligned = omega arith; front = omega arith; room = omega arith })
      (omega arith, (omega arith, tt)) refl refl refl refl connection-IsWilling
