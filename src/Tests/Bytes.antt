-- ===== src/Tests/Bytes.antt =====
-- Serialization.
use https_github_com_nightdu.Base.{
  ℕ, ◌≡◌, refl, ◌%◌, ◌+◌, ◌^◌, true, false, none, some, [], ◌∷◌, map, length, get_elem?,
  if◌then◌else◌, inl, arith,
}
use https_github_com_nightdu.Platform.{Bytes, World, done}
use https_github_com_nightdu.Typesupport.{
  TypeSupport, Handle, Field, Members, members, nil, leaf, message, bool_t, char_t, uint8_t,
  uint16_t, string_t, size_of,
}
use https_github_com_nightdu.Serialization.Codec.{SerializedMessage}
use https_github_com_nightdu.Serialization.Write.{rmw_serialize}
use https_github_com_nightdu.Serialization.Read.{Filled, rmw_deserialize}
use https_github_com_nightdu.Serialization.Layout.{
  kind_of, places, place_then, code, size_of_places, item, put_all,
}
use https_github_com_nightdu.Serialization.Reads.{fill_all}
use https_github_com_nightdu.Serialization.RoundTrip.{covered}
use https_github_com_nightdu.Serialization.Messages.{
  Describes, rmw_serialize-fields, rmw_deserialize-fields, rmw_deserialize-rmw_serialize,
}
use https_github_com_nightdu.Simulation.{empty_world}
use https_github_com_nightdu.Simulation.Tape.{
  Tape, tape, tape-IsBounded, tape-Resizes, tape-ReadsBack,
}

abbrev field : ℕ → Field
field at = record { is_array = false; array_size = 0; string_upper_bound = 0; offset = at }

abbrev array_field : ℕ → ℕ → ℕ → Field
array_field n bound at = record {
  is_array = true;
  array_size = n;
  string_upper_bound = bound;
  offset = at;
}

-- A struct of a byte, a short, a struct of a flag and two characters, and four characters.
abbrev table : Members
table = members 12 (
    leaf uint8_t (field 0) (
      leaf uint16_t (field 2) (
        message (field 4) (members 3 (leaf bool_t (field 0) (leaf char_t (array_field 2 0 1) nil)))
          (leaf string_t (array_field 1 4 8) nil))))

abbrev handle : Handle
handle = record { table = some table }

abbrev support : TypeSupport
support = record { introspection_c = some handle; introspection_cpp = none }

abbrev described : Describes support table
described = (handle, inl refl, refl)

abbrev memory : Bytes
memory = 7 ∷ 170 ∷ 1 ∷ 2 ∷ 1 ∷ 104 ∷ 105 ∷ 187 ∷ b'h' ∷ b'i' ∷ 0 ∷ 204 ∷ []

abbrev zeros : Bytes
zeros = 0 ∷ 0 ∷ 0 ∷ 0 ∷ 0 ∷ 0 ∷ 0 ∷ 0 ∷ 0 ∷ 0 ∷ 0 ∷ 0 ∷ []

abbrev empty_message : SerializedMessage
empty_message = record { buffer = []; buffer_length = 0 }

abbrev fresh : SerializedMessage
fresh = record { buffer = zeros; buffer_length = 0 }

rmw_serialize-fields_example :
    (w' : World) × (rmw_serialize tape (some memory) (some support) (some empty_message) empty_world
      ≡ done
          (
            code table,
            some (record {
              buffer =
                  tape.storage
                    (put_all tape (tape.init_buffer zeros 12) (map (item memory) (places table 0)));
              buffer_length = (0 + size_of_places (places table 0)) % 2 ^ 64;
            }),
          )
          w')
unfolding places place_then kind_of size_of
rmw_serialize-fields_example =
    rmw_serialize-fields tape support table described memory empty_message fresh empty_world
      (omega arith, (omega arith, (omega arith, (omega arith, ((omega arith, refl), tt))))) refl
      (omega arith)

rmw_deserialize-fields_example :
    let start : Filled Tape = record { memory = zeros; reader = tape.init_buffer zeros 12 } in
    (w' : World) × (rmw_deserialize tape
        (some empty_message)
        (some support)
        (some zeros)
        empty_world
      ≡ done (code table, some fresh, some (fill_all tape start (places table 0)).memory) w')
    × (length (fill_all tape start (places table 0)).memory ≡ length zeros)
unfolding places place_then kind_of size_of
rmw_deserialize-fields_example =
    rmw_deserialize-fields tape support table described tape-IsBounded zeros empty_message fresh
      empty_world (omega arith, (omega arith, (omega arith, (omega arith, (omega arith, tt))))) refl

rmw_deserialize-rmw_serialize_example :
    (sent : SerializedMessage) × (w' : World) × (result : Bytes) × (v' : World) × (rmw_serialize
        tape
        (some memory)
        (some support)
        (some empty_message)
        empty_world
      ≡ done (code table, some sent) w')
    × (rmw_deserialize tape (some sent) (some support) (some zeros) empty_world
        ≡ done (code table, some sent, some result) v')
    × ((i : ℕ)
        → get_elem? result i
          ≡ (if covered memory (places table 0) i then get_elem? memory i else get_elem? zeros i))
unfolding places place_then kind_of size_of
rmw_deserialize-rmw_serialize_example =
    rmw_deserialize-rmw_serialize tape support table described (λ t. t.failed) tape-ReadsBack
      tape-IsBounded tape-Resizes memory zeros empty_message fresh empty_world empty_world refl
      (omega arith, (omega arith, (omega arith, (omega arith, ((omega arith, refl), tt)))))
      (tt, (tt, (tt, (tt, (omega arith, tt))))) refl (omega arith) refl
