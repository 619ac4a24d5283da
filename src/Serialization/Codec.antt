-- ===== src/Serialization/Codec.antt =====
-- What src/rmw_serialize.c uses of microcdr and of rmw, and the memory of a message.
use https_github_com_nightdu.Base.{
  ℕ, ◌+◌, Option, none, some, [], ◌∷◌, ◌++◌, take, drop, length, leb, ◌==◌, if◌then◌else◌,
}
use https_github_com_nightdu.Platform.{Bytes, RmwRet, History, Body, Run, faulted, next}

-- The C types that microcdr has a function for.
pub data Wire : Type 0 where
  bool_wire char_wire uint8_wire int8_wire float_wire double_wire : Wire
  int16_wire uint16_wire int32_wire uint32_wire int64_wire uint64_wire : Wire

-- sizeof
abbrev pub width : Wire → ℕ
width bool_wire = 1
width char_wire = 1
width uint8_wire = 1
width int8_wire = 1
width float_wire = 4
width double_wire = 8
width int16_wire = 2
width uint16_wire = 2
width int32_wire = 4
width uint32_wire = 4
width int64_wire = 8
width uint64_wire = 8

-- What is done with a member, by its type.
pub data Kind : Type 0 where
  number : Wire → Kind
  string unknown : Kind

-- `rmw_serialized_message_t`; its capacity is the length of the buffer.
pub record SerializedMessage : Type 0 where
  pub buffer : Bytes
  pub buffer_length : ℕ

-- microcdr, with its `ucdrBuffer` as `Buffer`, and the function of rmw that resizes a serialized
-- message. Values are the bytes that they have in memory. A function that reads a value answers
-- with the bytes that it stores through its pointer, which are none if it fails.
pub record Ucdr (Buffer : Type 0) : Type 0 where
  pub init_buffer : Bytes → ℕ → Buffer
  -- the memory that the buffer was initialised with
  pub storage : Buffer → Bytes
  pub serialize : Wire → Bytes → Buffer → Buffer
  pub serialize_array : Wire → ℕ → Bytes → Buffer → Buffer
  pub serialize_string : Bytes → Buffer → Buffer
  pub deserialize : Wire → Buffer → Bytes × Buffer
  pub deserialize_array : Wire → ℕ → Buffer → Bytes × Buffer
  pub deserialize_string : ℕ → Buffer → Bytes × Buffer
  pub resize : History → SerializedMessage → ℕ → RmwRet × SerializedMessage

abbrev pub slice : Bytes → ℕ → ℕ → Bytes
slice memory at n = take n (drop at memory)

abbrev pub splice : Bytes → ℕ → Bytes → Bytes
splice memory at bytes = take at memory ++ bytes ++ drop (at + length bytes) memory

-- The characters before the first NUL, if there is one.
abbrev pub c_string : Bytes → Option Bytes
c_string [] = none
c_string (b ∷ bs) = if b == 0 then some [] else prefixed (c_string bs)
  where
    prefixed : Option Bytes → Option Bytes
    prefixed none = none
    prefixed (some text) = some (b ∷ text)

module _ {R : Type 0} where
  -- Reads and writes through a pointer into a message; beyond its memory they are faults.
  abbrev pub load : Bytes → ℕ → ℕ → Body R Bytes
  load memory at n w = if leb (at + n) (length memory) then next (slice memory at n) w else faulted

  abbrev pub store : Bytes → ℕ → Bytes → Body R Bytes
  store memory at bytes w =
      if leb (at + length bytes) (length memory) then next (splice memory at bytes) w else faulted

  abbrev pub load_string : Bytes → ℕ → Body R Bytes
  load_string memory at w = found (c_string (drop at memory))
    where
      found : Option Bytes → Run R Bytes
      found none = faulted
      found (some text) = next text w
