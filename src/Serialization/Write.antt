-- ===== src/Serialization/Write.antt =====
-- `serialize` and `rmw_serialize` of src/rmw_serialize.c.
use https_github_com_nightdu.Base.{ℕ, ◌+◌, ◌*◌, ◌%◌, ◌^◌, Option, none, some, if◌then◌else◌}
use https_github_com_nightdu.Platform.{
  Bytes, RmwRet, ok, invalid_argument, is_ok, World, Outcome, Body, faulted, ◌>>=◌, ◌>>◌, run, call,
  ask, set_error, return, check_argument_for_null, pure, message_resized,
}
use https_github_com_nightdu.Typesupport.{
  TypeId, bool_t, char_t, byte_t, uint8_t, int8_t, float32_t, float64_t, int16_t, uint16_t, int32_t,
  uint32_t, int64_t, uint64_t, string_t, unknown_t, TypeSupport, Field, Members, members,
  MemberList, nil, leaf, message, get_type_support, found, size_of,
}
use https_github_com_nightdu.Serialization.Codec.{
  Ucdr, SerializedMessage, Kind, number, string, unknown, bool_wire, char_wire, uint8_wire,
  int8_wire, float_wire, double_wire, int16_wire, uint16_wire, int32_wire, uint32_wire, int64_wire,
  uint64_wire, width, load, load_string,
}

-- The switch over `type_id_` of `serialize`.
unfoldable pub kind_written : TypeId → Kind
kind_written bool_t = number bool_wire
kind_written char_t = number char_wire
kind_written byte_t = number uint8_wire
kind_written uint8_t = number uint8_wire
kind_written int8_t = number int8_wire
kind_written float32_t = number float_wire
kind_written float64_t = number double_wire
kind_written int16_t = number int16_wire
kind_written uint16_t = number uint16_wire
kind_written int32_t = number int32_wire
kind_written uint32_t = number uint32_wire
kind_written int64_t = number int64_wire
kind_written uint64_t = number uint64_wire
kind_written string_t = string
kind_written (unknown_t n) = unknown

-- `members->...`: a table that is NULL is a fault.
abbrev pub pointee : {R A : Type 0} → Option A → Body R A
pointee none w = faulted
pointee (some a) w = pure a w

-- The writer, and the `buffer_length` of the serialized message.
pub record Serial (Buffer : Type 0) : Type 0 where
  pub writer : Buffer
  pub buffer_length : ℕ

module _ {Buffer : Type 0} (ucdr : Ucdr Buffer) where
  -- The part of a round behind `case`, for a member that is no message.
  unfoldable pub put_field :
      Kind → Field → Bytes → ℕ → Serial Buffer → Body (RmwRet × Serial Buffer) (Serial Buffer)
  put_field (number wire) f memory at s =
      if f.is_array
      then (do
        value ← load memory at (f.array_size * width wire)
        pure (record {
          writer = ucdr.serialize_array wire f.array_size value s.writer;
          buffer_length = (s.buffer_length + f.array_size * width wire) % 2 ^ 64;
        }))
      else (do
        value ← load memory at (width wire)
        pure (record {
          writer = ucdr.serialize wire value s.writer;
          buffer_length = (s.buffer_length + width wire) % 2 ^ 64;
        }))
  put_field string f memory at s =
      if f.is_array
      then (do
        text ← load_string memory at
        pure (record {
          writer = ucdr.serialize_string text s.writer;
          buffer_length = (s.buffer_length + f.string_upper_bound) % 2 ^ 64;
        }))
      else pure s
  put_field unknown f memory at s =
      set_error "Serializing unknown type" >> return (invalid_argument, s)

  -- `memory` holds the outermost message, and `base` is where this one begins in it. What a nested
  -- call returns is dropped.
  unfoldable mutual
    pub serialize : Members → Bytes → ℕ → Serial Buffer → World → Outcome (RmwRet × Serial Buffer)
    serialize (members size list) memory base s = serialize_members list memory base s

    pub serialize_members :
        MemberList → Bytes → ℕ → Serial Buffer → World → Outcome (RmwRet × Serial Buffer)
    serialize_members nil memory base s = run (pure (ok, s))
    serialize_members (message f sub rest) memory base s = run do
      r ← call (serialize sub memory (base + f.offset) s)
      call (serialize_members rest memory base r.1)
    serialize_members (leaf t f rest) memory base s = run do
      s' ← put_field (kind_written t) f memory (base + f.offset) s
      call (serialize_members rest memory base s')

  -- The writer works in the memory of the serialized message.
  unfoldable pub rmw_serialize :
      Option Bytes
      → Option TypeSupport
      → Option SerializedMessage
      → World
      → Outcome (RmwRet × Option SerializedMessage)
  unfolding get_type_support size_of serialize
  rmw_serialize ros_message type_support serialized_message = run do
    let fail : RmwRet → RmwRet × Option SerializedMessage = λ r. (r, serialized_message)
    memory ← check_argument_for_null "ros_message" ros_message (fail invalid_argument)
    support ← check_argument_for_null "type_support" type_support (fail invalid_argument)
    old ← check_argument_for_null "serialized_message" serialized_message (fail invalid_argument)
    answer ← call (get_type_support support)
    ts ← found answer (fail invalid_argument)
    table ← pointee ts.table
    resized ←
        ask (λ h. ucdr.resize h old (size_of table)) (λ a. message_resized (size_of table) a.0)
    (if is_ok resized.0
        then pure tt
        else (do set_error "Cannot resize serialized message"; return (resized.0, some resized.1)))
    let start : Serial Buffer = record {
      writer = ucdr.init_buffer resized.1.buffer (size_of table);
      buffer_length = resized.1.buffer_length;
    }
    r ← call (serialize table memory 0 start)
    pure
        (r.0, some (record { buffer = ucdr.storage r.1.writer; buffer_length = r.1.buffer_length }))
