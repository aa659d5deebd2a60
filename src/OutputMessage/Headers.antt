-- ===== src/OutputMessage/Headers.antt =====
-- The headers of outputmessage.h, as the bytes that are sent.
use baiakthunder.Base.{
  ℕ, ◌+◌, ◌-◌, ◌%◌, ◌^◌, ◌<◌, ◌≤◌, ◌≡◌, ap, ap₂, ◌∙◌, Bool, true, false, List, ◌++◌, if◌then◌else◌,
  arith, length, [],
}
use baiakthunder.Base.Buffer.{
  Buffer, write, slice, le_bytes, length-le_bytes, slice-add, slice-cong, slice-write, write_past,
}
use baiakthunder.Checksum.{adler_checksum}
use baiakthunder.OutputMessage.{
  OutputMessage, output, add_header, write_message_length, add_crypto_header,
}

-- Bytes written in front of a slice.
slice-front :
    (buf : Buffer) (pos : ℕ) (bytes : List ℕ) (n : ℕ)
    → slice (write buf pos bytes) pos (length bytes + n) ≡ bytes ++ slice buf (pos + length bytes) n
slice-front buf pos bytes n =
    slice-add (write buf pos bytes) pos (length bytes) n
    ∙ ap₂ (◌++◌) (slice-write buf pos bytes) (
        slice-cong (write buf pos bytes) buf (pos + length bytes) n
          (λ i lo hi. write_past buf pos bytes i lo))

pub output-add_header :
    (size add : ℕ) (o : OutputMessage)
    → size ≤ o.start
    → o.msg.length + size < 2 ^ 16
    → output (add_header size add o) ≡ le_bytes size add ++ output o
unfolding output add_header
output-add_header size add o fits short =
    let bytes = le_bytes size add in
    let n : (o.msg.length + size) % 2 ^ 16 ≡ length bytes + o.msg.length =
      omega (arith, length-le_bytes size add) in
    let begin : o.start - size + length bytes ≡ o.start = omega (arith, length-le_bytes size add) in
    ap (slice (write o.msg.buffer (o.start - size) bytes) (o.start - size)) n
    ∙ slice-front o.msg.buffer (o.start - size) bytes o.msg.length
    ∙ ap (λ k. bytes ++ slice o.msg.buffer k o.msg.length) begin

-- What stands between the length and the body.
abbrev pub checksum_bytes : Bool → Bool → List ℕ → List ℕ
checksum_bytes add_checksum compression body =
    if compression
    then le_bytes 4 0
    else if add_checksum
    then le_bytes 4 (adler_checksum body)
    else []

with_sum :
    (sum : ℕ) (o : OutputMessage)
    → 6 ≤ o.start
    → o.msg.length + 6 < 2 ^ 16
    → output (write_message_length (add_header 4 sum o))
      ≡ le_bytes 2 (o.msg.length + length (le_bytes 4 sum)) ++ (le_bytes 4 sum ++ output o)
unfolding write_message_length
with_sum sum o room short =
    output-add_header 2 (add_header 4 sum o).msg.length (add_header 4 sum o) room_left still_short
    ∙ ap₂ (λ n bytes. le_bytes 2 n ++ bytes) longer
        (output-add_header 4 sum o (omega arith) (omega arith))
  where
    longer : (add_header 4 sum o).msg.length ≡ o.msg.length + length (le_bytes 4 sum)
    longer = unfold add_header in omega (arith, length-le_bytes 4 sum)

    room_left : 2 ≤ (add_header 4 sum o).start
    room_left = unfold add_header in omega arith

    still_short : (add_header 4 sum o).msg.length + 2 < 2 ^ 16
    still_short = unfold add_header in omega arith

-- With six bytes of room in front, and a length that stays below 2^16, the message that is sent with
-- its headers is: the length of what follows, then zero if compressed, or the checksum of the body if
-- wanted, or neither, then the body as it was.
pub output-add_crypto_header :
    (add_checksum compression : Bool) (o : OutputMessage)
    → 6 ≤ o.start
    → o.msg.length + 6 < 2 ^ 16
    → let sum = checksum_bytes add_checksum compression (output o) in
      output (add_crypto_header add_checksum compression o)
      ≡ le_bytes 2 (o.msg.length + length sum) ++ (sum ++ output o)
unfolding add_crypto_header write_message_length
output-add_crypto_header add_checksum true o room short = with_sum 0 o room short
output-add_crypto_header true false o room short = with_sum (adler_checksum (output o)) o room short
output-add_crypto_header false false o room short =
    output-add_header 2 o.msg.length o (omega arith) (omega arith)
    ∙ ap (λ n. le_bytes 2 n ++ output o) (omega arith)
