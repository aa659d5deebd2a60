-- ===== src/PropStream/RoundTrip.antt =====
-- What PropWriteStream writes, PropStream reads.
use baiakthunder.Base.{
  append_assoc, append_none, ℕ, ◌^◌, ◌-◌, ◌<◌, ◌≤◌, ◌≡◌, refl, sym, ap, ◌∙◌, subst, true, Option,
  none, some, List, [], ◌∷◌, ◌++◌, ltb, length, All, arith, length-append, take-append, drop-append,
}
use baiakthunder.Base.Buffer.{le_bytes, le_value, length-le_bytes, le_value-le_bytes}
use baiakthunder.PropStream.{read, read_chars, read_string, write, write_string}

-- A value to write, a number with its width.
pub data Field : Type 0 where
  number : ℕ → ℕ → Field
  text : List ℕ → Field

pub data Kind : Type 0 where
  number : ℕ → Kind
  text : Kind

unfoldable pub kind_of : Field → Kind
kind_of (number width v) = number width
kind_of (text str) = text

abbrev pub Fits : Field → Type 0
Fits (number width v) = v < 256 ^ width
Fits (text str) = length str < 2 ^ 16

unfoldable pub write_field : Field → List ℕ → List ℕ
write_field (number width v) buffer = write width v buffer
write_field (text str) buffer = write_string str buffer

unfoldable pub write_fields : List Field → List ℕ → List ℕ
write_fields [] buffer = buffer
write_fields (f ∷ fs) buffer = write_fields fs (write_field f buffer)

unfoldable pub number_field : ℕ → Option ℕ × List ℕ → Option (Field × List ℕ)
number_field width (none, p) = none
number_field width (some v, p) = some (number width v, p)

unfoldable pub text_field : Option (List ℕ) × List ℕ → Option (Field × List ℕ)
text_field (none, p) = none
text_field (some str, p) = some (text str, p)

unfoldable pub read_field : Kind → List ℕ → Option (Field × List ℕ)
read_field (number width) p = number_field width (read width p)
read_field text p = text_field (read_string p)

abbrev pub cons_field : Field → Option (List Field × List ℕ) → Option (List Field × List ℕ)
cons_field f none = none
cons_field f (some (fs, p)) = some (f ∷ fs, p)

-- Fields one by one, until one cannot be read.
unfoldable pub read_fields : List Kind → List ℕ → Option (List Field × List ℕ)
read_fields [] p = some ([], p)
read_fields (k ∷ ks) p = elim (read_field k p) [
  | none ↦ none
  | some (f, rest) ↦ cons_field f (read_fields ks rest)
]

abbrev pub kinds : List Field → List Kind
kinds [] = []
kinds (f ∷ fs) = kind_of f ∷ kinds fs

read_bytes : (xs rest : List ℕ) → read (length xs) (xs ++ rest) ≡ (some (le_value xs), rest)
unfolding read
read_bytes xs rest = ground (arith, length-append xs rest, take-append xs rest, drop-append xs rest)

pub read-le_bytes :
    (width v : ℕ) (rest : List ℕ)
    → v < 256 ^ width
    → read width (le_bytes width v ++ rest) ≡ (some v, rest)
read-le_bytes width v rest h =
    subst (λ n. read n (le_bytes width v ++ rest) ≡ (some (le_value (le_bytes width v)), rest))
      (length-le_bytes width v) (read_bytes (le_bytes width v) rest)
    ∙ ap (λ n. (some n, rest)) (le_value-le_bytes width v h)

read_chars-append : (str rest : List ℕ) → read_chars (length str) (str ++ rest) ≡ (some str, rest)
unfolding read_chars
read_chars-append str rest =
    ground (arith, length-append str rest, take-append str rest, drop-append str rest)

-- The bytes of a field.
unfoldable pub encode : Field → List ℕ
encode (number width v) = le_bytes width v
encode (text str) = le_bytes 2 (length str) ++ str

unfoldable pub encode_all : List Field → List ℕ
unfolding encode
encode_all [] = []
encode_all (f ∷ fs) = encode f ++ encode_all fs

write_field-encode :
    (f : Field) (buffer : List ℕ) → Fits f → write_field f buffer ≡ buffer ++ encode f
unfolding write_field write write_string encode
write_field-encode (number width v) buffer h = refl
write_field-encode (text str) buffer h =
    ground (arith, append_assoc buffer (le_bytes 2 (length str)) str)

write_fields-encode_all :
    (fs : List Field) (buffer : List ℕ)
    → All Fits fs
    → write_fields fs buffer ≡ buffer ++ encode_all fs
unfolding write_fields encode_all
write_fields-encode_all [] buffer h = sym (append_none buffer)
write_fields-encode_all (f ∷ fs) buffer (h, hs) =
    write_fields-encode_all fs (write_field f buffer) hs
    ∙ ap (λ b. b ++ encode_all fs) (write_field-encode f buffer h)
    ∙ append_assoc buffer (encode f) (encode_all fs)

read_string-encode :
    (str rest : List ℕ)
    → length str < 2 ^ 16
    → read_string (encode (text str) ++ rest) ≡ (some str, rest)
unfolding encode read_string
read_string-encode str rest h =
    ap (λ p. read_string p) (append_assoc (le_bytes 2 (length str)) str rest)
    ∙ ap read_after (read-le_bytes 2 (length str) (str ++ rest) h)
    ∙ read_chars-append str rest
  where
    read_after : Option ℕ × List ℕ → Option (List ℕ) × List ℕ
    read_after (len, rest) = elim len [ none ↦ (none, rest) | some n ↦ read_chars n rest ]

read_field-encode :
    (f : Field) (rest : List ℕ)
    → Fits f
    → read_field (kind_of f) (encode f ++ rest) ≡ some (f, rest)
unfolding read_field kind_of encode number_field text_field
read_field-encode (number width v) rest h = ap (number_field width) (read-le_bytes width v rest h)
read_field-encode (text str) rest h = ap text_field (read_string-encode str rest h)

read_fields-encode_all :
    (fs : List Field) (rest : List ℕ)
    → All Fits fs
    → read_fields (kinds fs) (encode_all fs ++ rest) ≡ some (fs, rest)
unfolding read_fields encode_all
read_fields-encode_all [] rest h = refl
read_fields-encode_all (f ∷ fs) rest (h, hs) =
    ap (λ p. read_fields (kinds (f ∷ fs)) p) (append_assoc (encode f) (encode_all fs) rest)
    ∙ ap read_on (read_field-encode f (encode_all fs ++ rest) h)
    ∙ ap (cons_field f) (read_fields-encode_all fs rest hs)
  where
    read_on : Option (Field × List ℕ) → Option (List Field × List ℕ)
    read_on o = elim o [ none ↦ none | some (f, rest) ↦ cons_field f (read_fields (kinds fs) rest) ]

-- Numbers that fit their width and strings below 2^16 bytes, written one after the other to an empty
-- stream, are read back in order with nothing left.
pub read_fields-write_fields :
    (fs : List Field) → All Fits fs → read_fields (kinds fs) (write_fields fs []) ≡ some (fs, [])
read_fields-write_fields fs h =
    ap (read_fields (kinds fs))
      (write_fields-encode_all fs [] h ∙ sym (append_none (encode_all fs)))
    ∙ read_fields-encode_all fs [] h

-- A string of 2^16 bytes or more is written as the empty one: what is read back is the empty string.
pub read_string-write_string :
    (str : List ℕ) → 2 ^ 16 ≤ length str → read_string (write_string str []) ≡ (some [], [])
unfolding write_string write le_bytes encode
read_string-write_string str h =
    let short : ltb (2 ^ 16 - 1) (length str) ≡ true = ground arith in
    rw short (read_string-encode [] [] (omega arith))
