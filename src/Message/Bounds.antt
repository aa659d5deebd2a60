-- ===== src/Message/Bounds.antt =====
-- networkmessage.h at the end of the body: no write passes it, and what is dropped there.
use baiakthunder.Base.{
  ℕ, ◌+◌, ◌%◌, ◌^◌, ◌≤◌, ◌<◌, ◌≡◌, ◌≢◌, refl, ◌∙◌, true, false, inl, inr, List, [], ◌∷◌, ◌++◌,
  arith, length, length-append, replicate, length-replicate, if◌then◌else◌, Bool-cases,
}
use baiakthunder.Base.Buffer.{write, write_past, le_bytes, length-le_bytes}
use baiakthunder.Position.{Position}
use baiakthunder.Message.{
  Message, max_body_length, can_add, put, add_byte, add, add_string, add_bytes, add_padding_bytes,
  add_position,
}
use baiakthunder.Message.Wire.{Field, encode, write_field}
use baiakthunder.Message.Writing.{Wrote, Wrote-append, add-Wrote}

-- Nothing at or behind the end of the body has changed, and the position is still a 16-bit number.
pub record Kept (m m' : Message) : Type 0 where
  pub position : m'.position < 2 ^ 16
  pub tail : (i : ℕ) → max_body_length ≤ i → m'.buffer i ≡ m.buffer i

Kept-refl : (m : Message) → m.position < 2 ^ 16 → Kept m m
Kept-refl m h = record { position = h; tail = λ i le. refl }

Kept-trans : {m m' m'' : Message} → Kept m m' → Kept m' m'' → Kept m m''
Kept-trans v w = record { position = w.position; tail = λ i le. w.tail i le ∙ v.tail i le }

room :
    (m : Message) (size : ℕ)
    → m.position < 2 ^ 16
    → size < 2 ^ 32
    → can_add m size ≡ true
    → m.position + size < max_body_length
unfolding can_add
room m size p s h = ground arith

no_room :
    (m : Message) (size : ℕ)
    → m.position < 2 ^ 16
    → size < 2 ^ 32
    → max_body_length ≤ m.position + size
    → can_add m size ≡ false
unfolding can_add
no_room m size p s h = ground arith

put-Kept :
    (m : Message) (bytes : List ℕ)
    → m.position + length bytes < max_body_length
    → Kept m (put m bytes)
unfolding put
put-Kept m bytes h = record {
  position = omega arith;
  tail = λ i le. write_past m.buffer m.position bytes i (omega arith);
}

-- A guarded write is kept within the body whatever the guard says.
guarded-Kept :
    (m : Message) (size : ℕ) (m' : Message)
    → m.position < 2 ^ 16
    → size < 2 ^ 32
    → (m.position + size < max_body_length → Kept m m')
    → Kept m (if can_add m size then m' else m)
guarded-Kept m size m' p s k = elim (Bool-cases (can_add m size)) [
  | inl e ↦ rw e (k (room m size p s e))
  | inr e ↦ rw e (Kept-refl m p)
]

add_byte-Kept : (m : Message) (v : ℕ) → m.position < 2 ^ 16 → Kept m (add_byte m v)
unfolding add_byte
add_byte-Kept m v p = guarded-Kept m 1 (put m (v ∷ [])) p (omega arith) (put-Kept m (v ∷ []))

add-Kept :
    (size : ℕ) (m : Message) (v : ℕ) → m.position < 2 ^ 16 → size < 2 ^ 32 → Kept m (add size m v)
unfolding add
add-Kept size m v p s =
    guarded-Kept m size (put m (le_bytes size v)) p s
      (λ h. put-Kept m (le_bytes size v) (omega (arith, length-le_bytes size v)))

add_string-Kept :
    (m : Message) (v : List ℕ)
    → m.position < 2 ^ 16
    → length v + 2 < 2 ^ 32
    → Kept m (add_string m v)
unfolding add_string
add_string-Kept m v p s =
    guarded-Kept m (length v + 2) (put (add 2 m (length v % 2 ^ 16)) v) p s written
  where
    written :
        m.position + (length v + 2) < max_body_length → Kept m (put (add 2 m (length v % 2 ^ 16)) v)
    written h =
        let header = add-Wrote 2 m (length v % 2 ^ 16) (omega arith) in
        Kept-trans (add-Kept 2 m (length v % 2 ^ 16) p (omega arith)) (
          put-Kept (add 2 m (length v % 2 ^ 16)) v
            (omega (arith, header.position, length-le_bytes 2 (length v % 2 ^ 16))))

add_position-Kept : (m : Message) (v : Position) → m.position < 2 ^ 16 → Kept m (add_position m v)
unfolding add_position
add_position-Kept m v p =
    Kept-trans first
      (Kept-trans second (add_byte-Kept (add 2 (add 2 m v.x) v.y) v.z second.position))
  where
    first : Kept m (add 2 m v.x)
    first = add-Kept 2 m v.x p (omega arith)

    second : Kept (add 2 m v.x) (add 2 (add 2 m v.x) v.y)
    second = add-Kept 2 (add 2 m v.x) v.y first.position (omega arith)

-- Whether or not there is room, no typed write touches a byte at or behind the end of the body (so
-- none behind the end of the buffer), and the position stays a 16-bit number.
pub write_field-Kept :
    (m : Message) (f : Field)
    → m.position < 2 ^ 16
    → length (encode f) < 2 ^ 32
    → Kept m (write_field m f)
unfolding write_field encode
write_field-Kept m (Field.byte v) p s = add_byte-Kept m v p
write_field-Kept m (Field.u16 v) p s = add-Kept 2 m v p (omega arith)
write_field-Kept m (Field.u32 v) p s = add-Kept 4 m v p (omega arith)
write_field-Kept m (Field.u64 v) p s = add-Kept 8 m v p (omega arith)
write_field-Kept m (Field.text v) p s =
    add_string-Kept m v p
      (omega (arith, length-append (le_bytes 2 (length v)) v, length-le_bytes 2 (length v)))
write_field-Kept m (Field.place v) p s = add_position-Kept m v p

-- Nor do raw bytes and padding of less than 2^32 bytes, from any 16-bit position.
pub add_bytes-Kept :
    (m : Message) (bytes : List ℕ) (n : ℕ)
    → m.position < 2 ^ 16
    → length bytes < 2 ^ 32
    → n < 2 ^ 32
    → Kept m (add_bytes m bytes) × Kept m (add_padding_bytes m n)
unfolding add_bytes add_padding_bytes
add_bytes-Kept m bytes n p s t = (
  guarded-Kept m (length bytes) (put m bytes) p s (put-Kept m bytes),
  guarded-Kept m n padded p t (λ h. record {
    position = p;
    tail = λ i le.
        write_past m.buffer m.position (replicate n 0x33) i
          (omega (arith, length-replicate n (byte 0x33)));
  }),
)
  where
    byte : ℕ → ℕ
    byte b = b

    padded : Message
    padded = record m {
      buffer = write m.buffer m.position (replicate n 0x33);
      length = (m.length + n) % 2 ^ 16;
    }

-- A write of anything but a position that finds no room is dropped whole: the message is unchanged.
pub write_field_dropped :
    (m : Message) (f : Field)
    → ((p : Position) → f ≢ Field.place p)
    → m.position < 2 ^ 16
    → length (encode f) < 2 ^ 32
    → max_body_length ≤ m.position + length (encode f)
    → write_field m f ≡ m
unfolding write_field encode add_byte add add_string
write_field_dropped m (Field.byte v) np p s h = rw (no_room m 1 p (omega arith) h) refl
write_field_dropped m (Field.u16 v) np p s h =
    rw (no_room m 2 p (omega arith) (omega (arith, length-le_bytes 2 v))) refl
write_field_dropped m (Field.u32 v) np p s h =
    rw (no_room m 4 p (omega arith) (omega (arith, length-le_bytes 4 v))) refl
write_field_dropped m (Field.u64 v) np p s h =
    rw (no_room m 8 p (omega arith) (omega (arith, length-le_bytes 8 v))) refl
write_field_dropped m (Field.text v) np p s h =
    rw (no_room m (length v + 2) p (omega (arith, s, text_size)) (omega (arith, h, text_size))) refl
  where
    text_size : length (le_bytes 2 (length v) ++ v) ≡ length v + 2
    text_size = omega (arith, length-append (le_bytes 2 (length v)) v, length-le_bytes 2 (length v))
write_field_dropped m (Field.place v) np p s h = absurd (np v refl)

-- A position has three writes and no check of its own: one byte short of room, its `z` is dropped
-- and the rest stays in the message.
pub add_position_cut :
    (m : Message) (v : Position)
    → m.position + 5 ≡ max_body_length
    → Wrote m (add_position m v) (le_bytes 2 v.x ++ le_bytes 2 v.y)
unfolding add_position
add_position_cut m v h =
    rw
      (dropped (add 2 (add 2 m v.x) v.y) v.z (
        omega
          (arith, first.position, second.position, length-le_bytes 2 v.x, length-le_bytes 2 v.y)))
      (Wrote-append (le_bytes 2 v.x) (le_bytes 2 v.y) first second)
  where
    first : Wrote m (add 2 m v.x) (le_bytes 2 v.x)
    first = add-Wrote 2 m v.x (omega arith)

    second : Wrote (add 2 m v.x) (add 2 (add 2 m v.x) v.y) (le_bytes 2 v.y)
    second = add-Wrote 2 (add 2 m v.x) v.y (omega (arith, first.position, length-le_bytes 2 v.x))

    dropped : (n : Message) (b : ℕ) → n.position + 1 ≡ max_body_length → add_byte n b ≡ n
    dropped n b e =
        unfold add_byte in rw (no_room n 1 (omega arith) (omega arith) (omega arith)) refl
