-- ===== src/Message/Wire.antt =====
-- The wire format: what each typed write puts into the message, as a list of bytes.
use baiakthunder.Base.{ℕ, ◌<◌, ◌^◌, List, [], ◌∷◌, ◌++◌, length}
use baiakthunder.Base.Buffer.{le_bytes}
use baiakthunder.Position.{Position}
use baiakthunder.Message.{
  Message, add_byte, add, add_string, add_position, get_byte, get, get_string, get_position,
}

-- One typed value, as the protocols write and read them.
pub data Field : Type 0 where
  byte u16 u32 u64 : ℕ → Field
  text : List ℕ → Field
  place : Position → Field

pub data Kind : Type 0 where
  byte u16 u32 u64 text place : Kind

unfoldable pub kind_of : Field → Kind
kind_of (Field.byte v) = Kind.byte
kind_of (Field.u16 v) = Kind.u16
kind_of (Field.u32 v) = Kind.u32
kind_of (Field.u64 v) = Kind.u64
kind_of (Field.text v) = Kind.text
kind_of (Field.place v) = Kind.place

unfoldable pub encode : Field → List ℕ
encode (Field.byte v) = v ∷ []
encode (Field.u16 v) = le_bytes 2 v
encode (Field.u32 v) = le_bytes 4 v
encode (Field.u64 v) = le_bytes 8 v
encode (Field.text v) = le_bytes 2 (length v) ++ v
encode (Field.place p) = le_bytes 2 p.x ++ (le_bytes 2 p.y ++ p.z ∷ [])

unfoldable pub encode_all : List Field → List ℕ
unfolding encode
encode_all [] = []
encode_all (f ∷ fs) = encode f ++ encode_all fs

-- The values fit their C++ types; a text fits the 16 bits of its length.
abbrev pub Fits : Field → Type 0
Fits (Field.byte v) = v < 2 ^ 8
Fits (Field.u16 v) = v < 2 ^ 16
Fits (Field.u32 v) = v < 2 ^ 32
Fits (Field.u64 v) = v < 2 ^ 64
Fits (Field.text v) = length v < 2 ^ 16
Fits (Field.place p) = (p.x < 2 ^ 16) × (p.y < 2 ^ 16) × (p.z < 2 ^ 8)

unfoldable pub write_field : Message → Field → Message
write_field m (Field.byte v) = add_byte m v
write_field m (Field.u16 v) = add 2 m v
write_field m (Field.u32 v) = add 4 m v
write_field m (Field.u64 v) = add 8 m v
write_field m (Field.text v) = add_string m v
write_field m (Field.place p) = add_position m p

unfoldable pub write_all : Message → List Field → Message
unfolding write_field
write_all m [] = m
write_all m (f ∷ fs) = write_all (write_field m f) fs

field_of {ℓ} : {A : Type ℓ} → (A → Field) → A × Message → Field × Message
field_of f (v, m) = (f v, m)

unfoldable pub read_field : Kind → Message → Field × Message
unfolding field_of
read_field Kind.byte m = field_of Field.byte (get_byte m)
read_field Kind.u16 m = field_of Field.u16 (get 2 m)
read_field Kind.u32 m = field_of Field.u32 (get 4 m)
read_field Kind.u64 m = field_of Field.u64 (get 8 m)
read_field Kind.text m = field_of Field.text (get_string 0 m)
read_field Kind.place m = field_of Field.place (get_position m)

unfoldable pub read_all : List Kind → Message → List Field × Message
unfolding read_field
read_all [] m = ([], m)
read_all (k ∷ ks) m = let (f, m1) = read_field k m in let (fs, m2) = read_all ks m1 in (f ∷ fs, m2)
