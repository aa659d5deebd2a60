-- ===== src/Message/Tests.antt =====
-- Messages written and read at concrete values.
use baiakthunder.Base.{◌+◌, ◌≡◌, refl, true, false, List, [], ◌∷◌, ◌++◌, map, arith, length}
use baiakthunder.Base.Buffer.{le_bytes, le_value, slice}
use baiakthunder.Position.{Position}
use baiakthunder.Message.{
  Message, add_byte, add, add_string, add_position, add_item_id_count, get, get_string, get_byte,
  get_position,
}
use baiakthunder.Message.Wire.{
  Field, kind_of, encode, encode_all, write_field, write_all, read_field, read_all,
}
use baiakthunder.Message.Writing.{Wrote, write_field-Wrote}
use baiakthunder.Message.Bounds.{Kept, write_field-Kept, write_field_dropped, add_position_cut}
use baiakthunder.Message.Reading.{Received, advance, read_all-write_all}

abbrev fresh : Message
fresh = record { length = 0; position = 8; overrun = false; buffer = λ i. 0 }

-- One byte short of room for a position.
abbrev nearly_full : Message
nearly_full = record { length = 65473; position = 65481; overrun = false; buffer = λ i. 7 }

abbrev spot : Position
spot = record { x = 1000; y = 2000; z = 7 }

abbrev fields : List Field
fields = Field.byte 10 ∷ Field.u16 515 ∷ Field.text (104 ∷ 105 ∷ []) ∷ Field.place spot ∷ []

encode_all-fields : encode_all fields ≡ 10 ∷ 3 ∷ 2 ∷ 2 ∷ 0 ∷ 104 ∷ 105 ∷ 232 ∷ 3 ∷ 208 ∷ 7 ∷ 7 ∷ []
unfolding encode_all encode le_bytes
encode_all-fields = refl

-- What the client would read: the counters put back to the start of the body.
abbrev arrived : Message
arrived = record (write_all fresh fields) { position = 8; overrun = false }

read_all-arrived : (read_all (map kind_of fields) arrived).0 ≡ fields
unfolding le_value read_all read_field write_all write_field add_byte add add_string add_position
    get get_string get_byte get_position le_bytes slice kind_of
read_all-arrived = refl

-- A fluid container of kind 2 (lava red) goes out as the client's colour 5.
fluid_byte :
    slice
      (add_item_id_count
        (λ id. record {
          client_id = id + 1;
          stackable = false;
          splash = false;
          fluid_container = true;
        })
        fresh
        300
        2
        false).buffer
      8
      3
    ≡ 45 ∷ 1 ∷ 5 ∷ []
unfolding add_item_id_count add add_byte le_bytes slice
fluid_byte = refl

past_the_end : (get 4 fresh).1.overrun ≡ true
unfolding get
past_the_end = refl

write_field-Wrote_example : Wrote fresh (write_field fresh (Field.u16 515)) (encode (Field.u16 515))
write_field-Wrote_example =
    write_field-Wrote fresh (Field.u16 515) (unfold encode le_bytes in omega arith)

write_field-Kept_example : Kept nearly_full (write_field nearly_full (Field.u64 515))
write_field-Kept_example =
    write_field-Kept nearly_full (Field.u64 515) (omega arith)
      (unfold encode le_bytes in omega arith)

write_field_dropped_example : write_field nearly_full (Field.u64 515) ≡ nearly_full
write_field_dropped_example =
    write_field_dropped nearly_full (Field.u64 515) (λ p e. cc) (omega arith)
      (unfold encode le_bytes in omega arith) (unfold encode le_bytes in omega arith)

add_position_cut_example :
    Wrote nearly_full (add_position nearly_full spot) (le_bytes 2 1000 ++ le_bytes 2 2000)
add_position_cut_example = add_position_cut nearly_full spot refl

arrived-Received : Received (write_all fresh fields) arrived 8
unfolding write_all write_field add_byte add add_string add_position le_bytes
arrived-Received = record { same = λ i lo hi. refl; start = refl; long = omega arith }

read_all-write_all_example :
    read_all (map kind_of fields) arrived ≡ (fields, advance arrived (length (encode_all fields)))
read_all-write_all_example =
    read_all-write_all fresh arrived fields (omega arith)
      (unfold encode_all encode le_bytes in omega arith) (omega arith) arrived-Received
