-- ===== src/PropStream/Tests.antt =====
-- A flag, a count and a name in one stream.
use baiakthunder.Base.{◌≡◌, refl, none, some, List, [], ◌∷◌, arith}
use baiakthunder.Base.Buffer.{le_bytes, le_value}
use baiakthunder.PropStream.{read, read_chars, read_string, write, write_string}
use baiakthunder.PropStream.RoundTrip.{
  Field, number, text, kinds, read_fields, write_field, write_fields, read_fields-write_fields,
}

abbrev properties : List Field
properties = number 1 7 ∷ number 2 500 ∷ text (65 ∷ 66 ∷ []) ∷ []

properties_bytes : write_fields properties [] ≡ 7 ∷ 244 ∷ 1 ∷ 2 ∷ 0 ∷ 65 ∷ 66 ∷ []
unfolding write_fields write_field write_string write le_bytes
properties_bytes = refl

-- The length of a string that is cut off is gone.
cut_off_string : read_string (3 ∷ 0 ∷ 65 ∷ 66 ∷ []) ≡ (none, 65 ∷ 66 ∷ [])
unfolding read_string read read_chars le_value
cut_off_string = refl

read_fields-write_fields_example :
    read_fields (kinds properties) (write_fields properties []) ≡ some (properties, [])
read_fields-write_fields_example =
    read_fields-write_fields properties (omega arith, (omega arith, (omega arith, tt)))
