-- ===== src/OutputMessage.antt =====
-- src/outputmessage.h: a message to send, with the headers that grow in front of its body.
pub mod Headers
mod Tests
use baiakthunder.Base.{ℕ, ◌+◌, ◌-◌, ◌%◌, ◌^◌, Bool, List, if◌then◌else◌, true, false}
use baiakthunder.Base.Buffer.{write, slice, le_bytes}
use baiakthunder.Checksum.{adler_checksum}
use baiakthunder.Message.{Message}

pub record OutputMessage : Type 0 where
  pub msg : Message
  pub start : ℕ

-- The bytes that are sent: from `getOutputBuffer` on, `getLength` of them.
unfoldable pub output : OutputMessage → List ℕ
output o = slice o.msg.buffer o.start o.msg.length

-- OutputMessage::add_header, for a `T` of that many bytes; the source asserts that they fit.
unfoldable pub add_header : ℕ → ℕ → OutputMessage → OutputMessage
add_header size add o = record {
  msg = record o.msg {
    buffer = write o.msg.buffer (o.start - size) (le_bytes size add);
    length = (o.msg.length + size) % 2 ^ 16;
  };
  start = o.start - size;
}

-- OutputMessage::writeMessageLength
unfoldable pub write_message_length : OutputMessage → OutputMessage
write_message_length o = add_header 2 o.msg.length o

-- OutputMessage::addCryptoHeader
unfoldable pub add_crypto_header : Bool → Bool → OutputMessage → OutputMessage
add_crypto_header add_checksum compression o = write_message_length (
    if compression
    then add_header 4 0 o
    else if add_checksum
    then add_header 4 (adler_checksum (output o)) o
    else o)

-- OutputMessage::append, of a message whose bytes begin behind eight bytes of headers
unfoldable pub append : OutputMessage → Message → OutputMessage
append o m = record o {
  msg = record o.msg {
    buffer = write o.msg.buffer o.msg.position (slice m.buffer 8 m.length);
    length = (o.msg.length + m.length) % 2 ^ 16;
    position = (o.msg.position + m.length) % 2 ^ 16;
  };
}
