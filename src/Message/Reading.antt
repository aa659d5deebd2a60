-- ===== src/Message/Reading.antt =====
-- The readers of networkmessage.h take back what the writers wrote.
use baiakthunder.Base.{
  ℕ, ◌+◌, ◌%◌, ◌^◌, ◌≤◌, ◌<◌, ◌≡◌, refl, sym, subst, ap, ◌∙◌, true, List, [], ◌∷◌, ◌++◌, map, arith,
  length, length-append, All,
}
use baiakthunder.Base.Buffer.{
  slice, slice-cong, slice-split, le_bytes, length-le_bytes, le_value, le_value-le_bytes,
}
use baiakthunder.Position.{Position}
use baiakthunder.Message.{
  Message, max_size, max_body_length, can_read, get_byte, get, get_chars, get_string, get_position,
}
use baiakthunder.Message.Wire.{
  Field, kind_of, encode, encode_all, Fits, write_all, read_field, read_all,
}
use baiakthunder.Message.Writing.{Wrote, write_all-Wrote}

-- The next `length bytes` bytes of the message are `bytes`, and may be read.
pub record Holds (m : Message) (bytes : List ℕ) : Type 0 where
  pub content : slice m.buffer m.position (length bytes) ≡ bytes
  pub within : m.position + length bytes ≤ m.length + 8
  pub in_buffer : m.position + length bytes < max_size

-- The message with its position `n` further on.
abbrev pub advance : Message → ℕ → Message
advance m n = record m { position = m.position + n }

can_read-fits :
    (m : Message) (n : ℕ)
    → m.position + n ≤ m.length + 8
    → m.position + n < max_size
    → can_read m n ≡ true
unfolding can_read
can_read-fits m n h k = ground arith

wrap_none :
    (m : Message) (n : ℕ) → m.position + n < max_size → (m.position + n) % 2 ^ 16 ≡ m.position + n
wrap_none m n h = omega arith

pub Holds-append :
    (m : Message) (a b : List ℕ) → Holds m (a ++ b) → Holds m a × Holds (advance m (length a)) b
Holds-append m a b h = (
  record {
    content = parts.0;
    within = omega (arith, h.within, length-append a b);
    in_buffer = omega (arith, h.in_buffer, length-append a b);
  },
  record {
    content = parts.1;
    within = omega (arith, h.within, length-append a b);
    in_buffer = omega (arith, h.in_buffer, length-append a b);
  },
)
  where
    parts :
        (slice m.buffer m.position (length a) ≡ a)
        × (slice m.buffer (m.position + length a) (length b) ≡ b)
    parts = slice-split m.buffer m.position a b h.content

advance-advance :
    (m : Message) (a b : ℕ) {n : ℕ} → a + b ≡ n → advance (advance m a) b ≡ advance m n
advance-advance m a b {n} e = λ i. record m { position = total i }
  where
    total : m.position + a + b ≡ m.position + n
    total = omega arith

-- What the three reads at the bottom do when their bytes are there.
get_byte-Holds : (m : Message) (v : ℕ) → Holds m (v ∷ []) → get_byte m ≡ (v, advance m 1)
unfolding get_byte slice
get_byte-Holds m v h =
    rw (can_read-fits m 1 h.within h.in_buffer, wrap_none m 1 h.in_buffer)
      (ap (λ b. (b, advance m 1)) first)
  where
    first : m.buffer m.position ≡ v
    first = cc h.content

get-Holds :
    (size v : ℕ) (m : Message)
    → v < 256 ^ size
    → Holds m (le_bytes size v)
    → get size m ≡ (v, advance m size)
unfolding get
get-Holds size v m lt h =
    rw
      (
        can_read-fits m size (omega (arith, len, h.within)) (omega (arith, len, h.in_buffer)),
        wrap_none m size (omega (arith, len, h.in_buffer)),
      )
      (ap (λ b. (b, advance m size))
        (ap le_value (ap (slice m.buffer m.position) (sym len) ∙ h.content)
          ∙ le_value-le_bytes size v lt))
  where
    len : length (le_bytes size v) ≡ size
    len = length-le_bytes size v

get_chars-Holds :
    (m : Message) (v : List ℕ) → Holds m v → get_chars (length v) m ≡ (v, advance m (length v))
unfolding get_chars
get_chars-Holds m v h =
    rw (can_read-fits m (length v) h.within h.in_buffer, wrap_none m (length v) h.in_buffer)
      (ap (λ b. (b, advance m (length v))) h.content)

get_string-Holds :
    (m : Message) (v : List ℕ)
    → length v < 2 ^ 16
    → Holds m (le_bytes 2 (length v) ++ v)
    → get_string 0 m ≡ (v, advance m (length (le_bytes 2 (length v) ++ v)))
unfolding get_string
get_string-Holds m v lt h =
    let (head, rest) = Holds-append m (le_bytes 2 (length v)) v h in
    let rest' : Holds (advance m 2) v =
      subst (λ n. Holds (advance m n) v) (length-le_bytes 2 (length v)) rest in
    rw (get-Holds 2 (length v) m lt head, get_chars-Holds (advance m 2) v rest')
      (ap (λ n. (v, n))
        (advance-advance m 2 (length v)
          (omega (arith, length-append (le_bytes 2 (length v)) v, length-le_bytes 2 (length v)))))

get_position-Holds :
    (m : Message) (p : Position)
    → Fits (Field.place p)
    → Holds m (le_bytes 2 p.x ++ (le_bytes 2 p.y ++ p.z ∷ []))
    → get_position m ≡ (p, advance m 5)
unfolding get_position
get_position-Holds m p fits h =
    let (hx, h') = Holds-append m (le_bytes 2 p.x) (le_bytes 2 p.y ++ p.z ∷ []) h in
    let (hy, hz) =
      Holds-append (advance m 2) (le_bytes 2 p.y) (p.z ∷ [])
        (subst (λ n. Holds (advance m n) (le_bytes 2 p.y ++ p.z ∷ [])) (two p.x) h') in
    let hz' : Holds (advance (advance m 2) 2) (p.z ∷ []) =
      subst (λ n. Holds (advance (advance m 2) n) (p.z ∷ [])) (two p.y) hz in
    rw
      (
        get-Holds 2 p.x m fits.0 hx,
        get-Holds 2 p.y (advance m 2) fits.1 hy,
        get_byte-Holds (advance (advance m 2) 2) p.z hz',
      )
      (ap (λ n. (p, n))
        (advance-advance (advance m 2) 2 1 {n = 3} (omega arith)
          ∙ advance-advance m 2 3 {n = 5} (omega arith)))
  where
    two : (v : ℕ) → length (le_bytes 2 v) ≡ 2
    two v = length-le_bytes 2 v

place_size : (p : Position) → length (encode (Field.place p)) ≡ 5
unfolding encode
place_size p = omega (
  arith,
  length-append (le_bytes 2 p.x) (le_bytes 2 p.y ++ p.z ∷ []),
  length-append (le_bytes 2 p.y) (p.z ∷ []),
  length-le_bytes 2 p.x,
  length-le_bytes 2 p.y,
)

-- A typed read of bytes in the wire format gives the value, and moves behind it.
pub read_field-Holds :
    (m : Message) (f : Field)
    → Fits f
    → Holds m (encode f)
    → read_field (kind_of f) m ≡ (f, advance m (length (encode f)))
unfolding read_field kind_of encode
read_field-Holds m (Field.byte v) fits h = rw (get_byte-Holds m v h) refl
read_field-Holds m (Field.u16 v) fits h = rw (get-Holds 2 v m fits h, length-le_bytes 2 v) refl
read_field-Holds m (Field.u32 v) fits h = rw (get-Holds 4 v m fits h, length-le_bytes 4 v) refl
read_field-Holds m (Field.u64 v) fits h = rw (get-Holds 8 v m fits h, length-le_bytes 8 v) refl
read_field-Holds m (Field.text v) fits h = rw (get_string-Holds m v fits h) refl
read_field-Holds m (Field.place p) fits h = rw (get_position-Holds m p fits h, place_size p) refl

read_all-Holds :
    (m : Message) (fs : List Field)
    → All Fits fs
    → Holds m (encode_all fs)
    → read_all (map kind_of fs) m ≡ (fs, advance m (length (encode_all fs)))
unfolding read_all encode_all
read_all-Holds m [] fits h = ap (λ n. ([], n)) (λ i. record m { position = still i })
  where
    still : m.position ≡ m.position + 0
    still = omega arith
read_all-Holds m (f ∷ fs) fits h =
    let (head, rest) = Holds-append m (encode f) (encode_all fs) h in
    rw
      (
        read_field-Holds m f fits.0 head,
        read_all-Holds (advance m (length (encode f))) fs fits.1 rest,
      )
      (ap (λ n. (f ∷ fs, n))
        (advance-advance m (length (encode f)) (length (encode_all fs))
          (sym (length-append (encode f) (encode_all fs)))))

-- A message that carries what was written to `m`, as its receiver starts on it: the same bytes, the
-- position where the writing began, and at least as much length as was written.
pub record Received (m r : Message) (from : ℕ) : Type 0 where
  pub same : (i : ℕ) → from ≤ i → i < m.position → r.buffer i ≡ m.buffer i
  pub start : r.position ≡ from
  pub long : m.position ≤ r.length + 8

-- Whatever sequence of typed values is written, with room for all of them, reading the same types
-- gives the values back, in order, and leaves the reader behind the last one.
pub read_all-write_all :
    (m r : Message) (fs : List Field)
    → m.length < 2 ^ 16
    → m.position + length (encode_all fs) < max_body_length
    → All Fits fs
    → Received (write_all m fs) r m.position
    → read_all (map kind_of fs) r ≡ (fs, advance r (length (encode_all fs)))
read_all-write_all m r fs l h fits v = read_all-Holds r fs fits (record {
  content =
      ap (λ p. slice r.buffer p (length (encode_all fs))) v.start
      ∙ slice-cong r.buffer (write_all m fs).buffer m.position (length (encode_all fs))
          (λ i lo hi. v.same i lo (omega (arith, w.position)))
      ∙ w.content;
  within = omega (arith, v.start, v.long, w.position);
  in_buffer = omega (arith, v.start);
})
  where
    w : Wrote m (write_all m fs) (encode_all fs)
    w = write_all-Wrote m fs l h
