-- ===== src/Message/Writing.antt =====
-- The writers of networkmessage.h against the wire format, and the bounds of the buffer.
use baiakthunder.Base.{
  ℕ, ◌+◌, ◌%◌, ◌^◌, ◌≤◌, ◌<◌, ◌≡◌, refl, sym, ap, ap₂, ◌∙◌, true, List, [], ◌∷◌, ◌++◌, arith,
  length, length-append,
}
use baiakthunder.Base.Buffer.{
  slice, slice-cong, slice-add, slice-write, write_before, write_past, le_bytes, length-le_bytes,
}
use baiakthunder.Position.{Position}
use baiakthunder.Message.{
  Message, max_body_length, can_add, put, add_byte, add, add_string, add_position,
}
use baiakthunder.Message.Wire.{Field, encode, encode_all, write_field, write_all}

-- `m'` is `m` with `bytes` appended at its position, and no other byte changed.
pub record Wrote (m m' : Message) (bytes : List ℕ) : Type 0 where
  pub position : m'.position ≡ m.position + length bytes
  pub counted : m'.length ≡ (m.length + length bytes) % 2 ^ 16
  pub overrun : m'.overrun ≡ m.overrun
  pub content : slice m'.buffer m.position (length bytes) ≡ bytes
  pub before : (i : ℕ) → i < m.position → m'.buffer i ≡ m.buffer i
  pub past : (i : ℕ) → m.position + length bytes ≤ i → m'.buffer i ≡ m.buffer i

pub put-Wrote :
    (m : Message) (bytes : List ℕ)
    → m.position + length bytes < 2 ^ 16
    → Wrote m (put m bytes) bytes
unfolding put
put-Wrote m bytes h = record {
  position = omega arith;
  counted = refl;
  overrun = refl;
  content = slice-write m.buffer m.position bytes;
  before = write_before m.buffer m.position bytes;
  past = write_past m.buffer m.position bytes;
}

pub Wrote-append :
    {m m' m'' : Message} (a b : List ℕ) → Wrote m m' a → Wrote m' m'' b → Wrote m m'' (a ++ b)
Wrote-append {m} {m'} {m''} a b v w = record {
  position = omega (arith, v.position, w.position, length-append a b);
  counted = omega (arith, v.counted, w.counted, length-append a b);
  overrun = w.overrun ∙ v.overrun;
  content =
      ap (slice m''.buffer m.position) (length-append a b)
      ∙ slice-add m''.buffer m.position (length a) (length b)
      ∙ ap₂ ◌++◌ (kept ∙ v.content)
          (ap (λ p. slice m''.buffer p (length b)) (sym v.position) ∙ w.content);
  before = λ i h. w.before i (omega (arith, v.position)) ∙ v.before i h;
  past = λ i h.
      w.past i (omega (arith, v.position, length-append a b))
      ∙ v.past i (omega (arith, length-append a b));
}
  where
    kept : slice m''.buffer m.position (length a) ≡ slice m'.buffer m.position (length a)
    kept =
        slice-cong m''.buffer m'.buffer m.position (length a)
          (λ i lo hi. w.before i (omega (arith, v.position)))

Wrote-nothing : (m : Message) → m.length < 2 ^ 16 → Wrote m m []
Wrote-nothing m h = record {
  position = omega arith;
  counted = omega arith;
  overrun = refl;
  content = unfold slice in refl;
  before = λ i h. refl;
  past = λ i h. refl;
}

pub can_add-fits :
    (m : Message) (size : ℕ) → m.position + size < max_body_length → can_add m size ≡ true
unfolding can_add
can_add-fits m size h = ground arith

add_byte-Wrote :
    (m : Message) (v : ℕ) → m.position + 1 < max_body_length → Wrote m (add_byte m v) (v ∷ [])
unfolding add_byte
add_byte-Wrote m v h = rw (can_add-fits m 1 h) (put-Wrote m (v ∷ []) (omega arith))

pub add-Wrote :
    (size : ℕ) (m : Message) (v : ℕ)
    → m.position + size < max_body_length
    → Wrote m (add size m v) (le_bytes size v)
unfolding add
add-Wrote size m v h =
    rw (can_add-fits m size h)
      (put-Wrote m (le_bytes size v) (omega (arith, length-le_bytes size v)))

add_string-Wrote :
    (m : Message) (v : List ℕ)
    → m.position + (length v + 2) < max_body_length
    → Wrote m (add_string m v) (le_bytes 2 (length v) ++ v)
unfolding add_string
add_string-Wrote m v h =
    rw (can_add-fits m (length v + 2) h, short)
      (Wrote-append (le_bytes 2 (length v)) v header (
        put-Wrote (add 2 m (length v)) v
          (omega (arith, header.position, length-le_bytes 2 (length v)))))
  where
    header : Wrote m (add 2 m (length v)) (le_bytes 2 (length v))
    header = add-Wrote 2 m (length v) (omega arith)

    short : length v % 2 ^ 16 ≡ length v
    short = omega arith

add_position-Wrote :
    (m : Message) (p : Position)
    → m.position + 5 < max_body_length
    → Wrote m (add_position m p) (le_bytes 2 p.x ++ (le_bytes 2 p.y ++ p.z ∷ []))
unfolding add_position
add_position-Wrote m p h = Wrote-append (le_bytes 2 p.x) (le_bytes 2 p.y ++ p.z ∷ []) first (
    Wrote-append (le_bytes 2 p.y) (p.z ∷ []) second
      (add_byte-Wrote _ p.z (omega (arith, first.position, second.position, len p.x, len p.y))))
  where
    len : (v : ℕ) → length (le_bytes 2 v) ≡ 2
    len v = length-le_bytes 2 v

    first : Wrote m (add 2 m p.x) (le_bytes 2 p.x)
    first = add-Wrote 2 m p.x (omega arith)

    second : Wrote (add 2 m p.x) (add 2 (add 2 m p.x) p.y) (le_bytes 2 p.y)
    second = add-Wrote 2 (add 2 m p.x) p.y (omega (arith, first.position, len p.x))

-- A write for which there is room appends exactly the wire format of its value.
pub write_field-Wrote :
    (m : Message) (f : Field)
    → m.position + length (encode f) < max_body_length
    → Wrote m (write_field m f) (encode f)
unfolding write_field encode
write_field-Wrote m (Field.byte v) h = add_byte-Wrote m v h
write_field-Wrote m (Field.u16 v) h = add-Wrote 2 m v (omega (arith, length-le_bytes 2 v))
write_field-Wrote m (Field.u32 v) h = add-Wrote 4 m v (omega (arith, length-le_bytes 4 v))
write_field-Wrote m (Field.u64 v) h = add-Wrote 8 m v (omega (arith, length-le_bytes 8 v))
write_field-Wrote m (Field.text v) h =
    add_string-Wrote m v
      (omega (arith, length-append (le_bytes 2 (length v)) v, length-le_bytes 2 (length v)))
write_field-Wrote m (Field.place p) h = add_position-Wrote m p (omega (arith, place_size))
  where
    place_size : length (le_bytes 2 p.x ++ (le_bytes 2 p.y ++ p.z ∷ [])) ≡ 5
    place_size = omega (
      arith,
      length-append (le_bytes 2 p.x) (le_bytes 2 p.y ++ p.z ∷ []),
      length-append (le_bytes 2 p.y) (p.z ∷ []),
      length-le_bytes 2 p.x,
      length-le_bytes 2 p.y,
    )

pub write_all-Wrote :
    (m : Message) (fs : List Field)
    → m.length < 2 ^ 16
    → m.position + length (encode_all fs) < max_body_length
    → Wrote m (write_all m fs) (encode_all fs)
unfolding write_all encode_all
write_all-Wrote m [] l h = Wrote-nothing m l
write_all-Wrote m (f ∷ fs) l h = Wrote-append (encode f) (encode_all fs) first (
    write_all-Wrote (write_field m f) fs (omega (arith, first.counted))
      (omega (arith, first.position, sizes)))
  where
    sizes : length (encode f ++ encode_all fs) ≡ length (encode f) + length (encode_all fs)
    sizes = length-append (encode f) (encode_all fs)

    first : Wrote m (write_field m f) (encode f)
    first = write_field-Wrote m f (omega (arith, sizes))
