-- ===== src/PropStream.antt =====
-- src/fileloader.h: PropStream and PropWriteStream, the fields in the properties of a node. A reader is
-- the bytes from its pointer to its end, a writer is its buffer, and a number of type T is its value
-- with `sizeof(T)` as an argument. The failure of a read is `none`.
pub mod RoundTrip
mod Tests
use baiakthunder.Base.{
  ℕ, ◌+◌, ◌^◌, ◌-◌, Option, none, some, List, [], ◌∷◌, ◌++◌, ltb, if◌then◌else◌, length, take, drop,
}
use baiakthunder.Base.Buffer.{le_bytes, le_value}

-- PropStream::size
abbrev pub size : List ℕ → ℕ
size p = length p

-- PropStream::read
unfoldable pub read : ℕ → List ℕ → Option ℕ × List ℕ
read width p =
    if ltb (size p) width then (none, p) else (some (le_value (take width p)), drop width p)

-- The part of PropStream::readString behind the length
unfoldable pub read_chars : ℕ → List ℕ → Option (List ℕ) × List ℕ
read_chars n p = if ltb (size p) n then (none, p) else (some (take n p), drop n p)

-- PropStream::readString. Where the string is cut off the length is read all the same.
unfoldable pub read_string : List ℕ → Option (List ℕ) × List ℕ
read_string p =
    let (len, rest) = read 2 p in elim len [ none ↦ (none, rest) | some n ↦ read_chars n rest ]

-- PropStream::skip
unfoldable pub skip : ℕ → List ℕ → Option (List ℕ)
skip n p = if ltb (size p) n then none else some (drop n p)

-- PropWriteStream::write
unfoldable pub write : ℕ → ℕ → List ℕ → List ℕ
write width add buffer = buffer ++ le_bytes width add

-- PropWriteStream::writeString
unfoldable pub write_string : List ℕ → List ℕ → List ℕ
write_string str buffer =
    if ltb (2 ^ 16 - 1) (length str) then write 2 0 buffer else write 2 (length str) buffer ++ str
