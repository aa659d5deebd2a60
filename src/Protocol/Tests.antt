-- ===== src/Protocol/Tests.antt =====
-- A body of seventy bytes behind eight bytes of room.
use baiakthunder.Base.{◌+◌, ◌^◌, ◌≡◌, refl, true, false, none, [], ◌∷◌, ◌++◌, arith}
use baiakthunder.Base.Buffer.{le_bytes}
use baiakthunder.Xtea.{Key, encrypt}
use baiakthunder.OutputMessage.{OutputMessage, output}
use baiakthunder.Protocol.{Protocol, on_send_message}
use baiakthunder.Protocol.Sending.{IsSendable, output-on_send_message_uncompressed}

abbrev four_words : Key
four_words = 1 ∷ 2 ∷ 3 ∷ 4 ∷ []

abbrev protocol : Protocol
protocol = record {
  raw_messages = false;
  encryption_enabled = true;
  checksum_enabled = true;
  compression = false;
  key = four_words;
}

abbrev text_message : OutputMessage
text_message = record {
  msg = record { length = 70; position = 78; overrun = false; buffer = λ i. 7 };
  start = 8;
}

text_message-IsSendable : IsSendable text_message
text_message-IsSendable = record { aligned = omega arith; front = omega arith; room = omega arith }

output-on_send_message_uncompressed_example :
    output (
      on_send_message (2 ^ 3) (λ bytes. none) (record protocol { compression = true }) text_message)
    ≡ le_bytes 2 (72 + 0 + 4)
      ++ (le_bytes 4 0 ++ encrypt (2 ^ 3) (le_bytes 2 70 ++ (output text_message ++ [])) four_words)
output-on_send_message_uncompressed_example =
    output-on_send_message_uncompressed 3 (λ bytes. none) (record protocol { compression = true })
      text_message (omega arith) text_message-IsSendable refl refl refl (omega arith) refl
