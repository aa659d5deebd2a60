-- ===== src/OutputMessage/Tests.antt =====
-- A body of two bytes behind eight bytes of room.
use baiakthunder.Base.{◌+◌, ◌≡◌, true, false, ◌++◌, arith, length}
use baiakthunder.Base.Buffer.{le_bytes}
use baiakthunder.OutputMessage.{OutputMessage, output, add_crypto_header}
use baiakthunder.OutputMessage.Headers.{checksum_bytes, output-add_crypto_header}

abbrev two_bytes : OutputMessage
two_bytes = record {
  msg = record { length = 2; position = 10; overrun = false; buffer = λ i. i };
  start = 8;
}

output-add_crypto_header_example :
    output (add_crypto_header true false two_bytes)
    ≡ le_bytes 2 (2 + length (checksum_bytes true false (output two_bytes)))
      ++ (checksum_bytes true false (output two_bytes) ++ output two_bytes)
output-add_crypto_header_example =
    output-add_crypto_header true false two_bytes (omega arith) (omega arith)
