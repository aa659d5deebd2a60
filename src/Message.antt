-- ===== src/Message.antt =====
-- src/networkmessage.h and networkmessage.cpp: the message buffer of the protocols. The 65500 bytes
-- are a function of the index; `info.position` and `info.length` are 16-bit counters.
-- `getPreviousByte`, `skipBytes` and the setters stand with the readers. `addDouble` is left out.
pub mod Wire
pub mod Writing
pub mod Bounds
pub mod Reading
mod Tests
use baiakthunder.Base.{
  ℕ, ◌+◌, ◌-◌, ◌%◌, ◌^◌, Bool, true, false, ◌||◌, bit_and, bit_or, List, [], ◌∷◌, length, min,
  get_or, replicate, ltb, leb, ◌==◌, if◌then◌else◌, ◌*◌,
}
use baiakthunder.Position.{Position}
use baiakthunder.Base.Buffer.{Buffer, write, slice, le_bytes, le_value}

abbrev pub max_size : ℕ
max_size = 65500

-- NETWORKMESSAGE_MAXSIZE - HEADER_LENGTH - CHECKSUM_LENGTH - XTEA_MULTIPLE
abbrev pub max_body_length : ℕ
max_body_length = 65486

abbrev pub initial_buffer_position : ℕ
initial_buffer_position = 8

pub record Message : Type 0 where
  pub length : ℕ
  pub position : ℕ
  pub overrun : Bool
  pub buffer : Buffer

-- `reset` gives `info` its defaults and keeps the bytes.
unfoldable pub reset : Message → Message
reset m = record m { length = 0; position = initial_buffer_position; overrun = false }

-- (size + info.position) < MAX_BODY_LENGTH, in `size_t`
unfoldable pub can_add : Message → ℕ → Bool
can_add m size = ltb ((size + m.position) % 2 ^ 64) max_body_length

-- What the writers do behind `canAdd`: copy at `position`, and advance both counters by `size`.
pub put : Message → List ℕ → Message
put m bytes = record m {
  buffer = write m.buffer m.position bytes;
  position = (m.position + length bytes) % 2 ^ 16;
  length = (m.length + length bytes) % 2 ^ 16;
}

pub add_byte : Message → ℕ → Message
unfolding can_add put
add_byte m value = if can_add m 1 then put m (value ∷ []) else m

-- `add<T>` for an unsigned `T` of `size` bytes
pub add : ℕ → Message → ℕ → Message
unfolding can_add put
add size m value = if can_add m size then put m (le_bytes size value) else m

pub add_string : Message → List ℕ → Message
unfolding can_add put add
add_string m value =
    if can_add m (length value + 2) then put (add 2 m (length value % 2 ^ 16)) value else m

pub add_bytes : Message → List ℕ → Message
unfolding can_add put
add_bytes m bytes = if can_add m (length bytes) then put m bytes else m

-- `memset(buffer + info.position, 0x33, n)`: the position stays.
unfoldable pub add_padding_bytes : Message → ℕ → Message
unfolding can_add
add_padding_bytes m n =
    if can_add m n
    then record m {
      buffer = write m.buffer m.position (replicate n 0x33);
      length = (m.length + n) % 2 ^ 16;
    }
    else m

pub add_position : Message → Position → Message
unfolding add add_byte
add_position m pos = add_byte (add 2 (add 2 m pos.x) pos.y) pos.z

-- What `ItemType` says to the client.
pub record ItemType : Type 0 where
  pub client_id : ℕ
  pub stackable : Bool
  pub splash : Bool
  pub fluid_container : Bool

pub record Item : Type 0 where
  pub id : ℕ
  pub count : ℕ
  pub fluid_type : ℕ
  pub description : List ℕ

abbrev pub fluid_map : List ℕ
fluid_map = 0 ∷ 1 ∷ 5 ∷ 3 ∷ 6 ∷ 8 ∷ 9 ∷ 2 ∷ []

add_item_type : ItemType → ℕ → ℕ → Message → Message
unfolding add add_byte
add_item_type it count fluid m =
    let m' = add 2 m it.client_id in
    if it.stackable
    then add_byte m' count
    else if it.splash || it.fluid_container
    then add_byte m' (get_or fluid_map (bit_and fluid 7) 0)
    else m'

-- `addItem(id, count, withDescription)`, over the table of item types
pub add_item_id_count : (ℕ → ItemType) → Message → ℕ → ℕ → Bool → Message
unfolding add_item_type add_string
add_item_id_count items m id count with_description =
    let m' = add_item_type (items id) count count m in
    if with_description then add_string m' [] else m'

-- `addItem(item, withDescription)`
pub add_item : (ℕ → ItemType) → Message → Item → Bool → Message
unfolding add_item_type add_string
add_item items m item with_description =
    let m' = add_item_type (items item.id) (min 0xFF item.count) item.fluid_type m in
    if with_description then add_string m' item.description else m'

pub add_item_id : (ℕ → ItemType) → Message → ℕ → Message
unfolding add
add_item_id items m id = add 2 m (items id).client_id

-- `canRead`; no sum leaves 32 bits, so `size >= MAXSIZE - position` is an order of sums.
unfoldable pub can_read : Message → ℕ → Bool
can_read m size =
    if ltb (m.length + 8) (m.position + size) || leb max_size (size + m.position)
    then false
    else true

-- A read that is refused marks the message.
unfoldable pub refused : Message → Message
refused m = record m { overrun = true }

pub get_byte : Message → ℕ × Message
unfolding can_read refused
get_byte m =
    if can_read m 1
    then (m.buffer m.position, record m { position = (m.position + 1) % 2 ^ 16 })
    else (0, refused m)

-- buffer[--info.position]
pub get_previous_byte : Message → ℕ × Message
get_previous_byte m =
    let position = (m.position + (2 ^ 16 - 1)) % 2 ^ 16 in
    (m.buffer position, record m { position = position })

-- `get<T>` for an unsigned `T` of `size` bytes
unfoldable pub get : ℕ → Message → ℕ × Message
unfolding can_read refused
get size m =
    if can_read m size
    then (
      le_value (slice m.buffer m.position size),
      record m { position = (m.position + size) % 2 ^ 16 },
    )
    else (0, refused m)

-- The part of `getString` behind the length.
get_chars : ℕ → Message → List ℕ × Message
unfolding can_read refused
get_chars size m =
    if can_read m size
    then (slice m.buffer m.position size, record m { position = (m.position + size) % 2 ^ 16 })
    else ([], refused m)

pub get_string : ℕ → Message → List ℕ × Message
unfolding get get_chars
get_string string_len m =
    let (len, m') = get 2 m in if string_len == 0 then get_chars len m' else get_chars string_len m

pub get_position : Message → Position × Message
unfolding get get_byte
get_position m =
    let (x, m1) = get 2 m in
    let (y, m2) = get 2 m1 in let (z, m3) = get_byte m2 in (record { x = x; y = y; z = z }, m3)

-- `info.position += count`, where `count` is the 16-bit pattern of an `int16_t`
unfoldable pub skip_bytes : Message → ℕ → Message
skip_bytes m count = record m { position = (m.position + count) % 2 ^ 16 }

unfoldable pub set_length : Message → ℕ → Message
set_length m length = record m { length = length % 2 ^ 16 }

-- `getBodyBuffer` shows the bytes from 2 on, and moves the position there.
unfoldable pub get_body_buffer : Message → Message
get_body_buffer m = record m { position = 2 }

unfoldable pub get_length_header : Message → ℕ
get_length_header m = bit_or (m.buffer 0) (m.buffer 1 * 2 ^ 8) % 2 ^ 16
