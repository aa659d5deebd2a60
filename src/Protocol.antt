-- ===== src/Protocol.antt =====
-- src/protocol.cpp: how a message is coded before it is sent, and decoded when it is received. The
-- compressor of zlib is an argument, by the bytes that it makes of others, `none` where it fails. The
-- block size is the one that xtea.cpp chooses when it is compiled.
pub mod Sending
pub mod Receiving
mod Tests
use baiakthunder.Base.{
  ℕ, ◌+◌, ◌-◌, ◌%◌, ◌^◌, Bool, Option, List, true, false, none, some, not, ◌&&◌, ltb, ◌==◌,
  if◌then◌else◌, length,
}
use baiakthunder.Base.Buffer.{write, slice}
use baiakthunder.Xtea.{Key, encrypt, decrypt}
use baiakthunder.Message.{Message, add_padding_bytes, add_bytes, reset, get, set_length}
use baiakthunder.OutputMessage.{OutputMessage, output, write_message_length, add_crypto_header}

pub record Protocol : Type 0 where
  pub raw_messages : Bool
  pub encryption_enabled : Bool
  pub checksum_enabled : Bool
  pub compression : Bool
  pub key : Key

-- The message padded to a multiple of eight bytes
unfoldable pub pad : OutputMessage → OutputMessage
pad o =
    let padding_bytes = o.msg.length % 8 in
    if padding_bytes == 0 then o else record o { msg = add_padding_bytes o.msg (8 - padding_bytes) }

-- XTEA_encrypt
unfoldable pub xtea_encrypt : ℕ → Key → OutputMessage → OutputMessage
xtea_encrypt block key o =
    let o' = pad o in
    record o' {
      msg = record o'.msg { buffer = write o'.msg.buffer o'.start (encrypt block (output o') key) };
    }

-- Protocol::compress; where zlib fails the message stays.
unfoldable pub compress : (List ℕ → Option (List ℕ)) → OutputMessage → OutputMessage
compress deflate o = elim (deflate (output o)) [
  | none ↦ o
  | some bytes ↦ record o { msg = add_bytes (reset o.msg) bytes }
]

-- Protocol::onSendMessage
unfoldable pub on_send_message :
    ℕ → (List ℕ → Option (List ℕ)) → Protocol → OutputMessage → OutputMessage
on_send_message block deflate p o =
    let compressed = p.compression && ltb 64 o.msg.length in
    let o1 = write_message_length (if compressed then compress deflate o else o) in
    if p.raw_messages
    then o
    else if p.encryption_enabled
    then add_crypto_header p.checksum_enabled compressed (xtea_encrypt block p.key o1)
    else o1

-- XTEA_decrypt. `(length - 6) & 7` is taken in `int`, so it is the remainder of length + 2 by 8, and
-- what passes the test has six bytes at least.
unfoldable pub xtea_decrypt : ℕ → Key → Message → Bool × Message
xtea_decrypt block key m =
    let n = m.length - 6 in
    let bytes = decrypt block (slice m.buffer m.position n) key in
    let m1 : Message = record m { buffer = write m.buffer m.position bytes } in
    let (inner_length, m2) = get 2 m1 in
    if not ((m.length + 2) % 8 == 0)
    then (false, m)
    else if ltb m2.length (inner_length + 8)
    then (false, m2)
    else (true, set_length m2 inner_length)

-- Protocol::onRecvMessage: what `parsePacket` is given, if anything.
unfoldable pub on_recv_message : ℕ → Protocol → Message → Option Message
on_recv_message block p m =
    let (ok, m') = xtea_decrypt block p.key m in
    if p.encryption_enabled then (if ok then some m' else none) else some m
