-- ===== src/Serialization/Read.antt =====
-- `deserialize` and `rmw_deserialize` of src/rmw_serialize.c.
use https_github_com_nightdu.Base.{ℕ, ◌+◌, Option, some, if◌then◌else◌}
use https_github_com_nightdu.Platform.{
  Bytes, RmwRet, ok, invalid_argument, is_ok, World, Outcome, Body, ◌>>=◌, ◌>>◌, run, call, ask,
  set_error, return, check_argument_for_null, pure, message_resized,
}
use https_github_com_nightdu.Typesupport.{
  TypeId, bool_t, char_t, byte_t, uint8_t, int8_t, float32_t, float64_t, int16_t, uint16_t, int32_t,
  uint32_t, int64_t, uint64_t, string_t, unknown_t, TypeSupport, Field, Members, members,
  MemberList, nil, leaf, message, get_type_support, found, size_of,
}
use https_github_com_nightdu.Serialization.Codec.{
  Ucdr, SerializedMessage, Kind, number, string, unknown, bool_wire, char_wire, uint8_wire,
  int8_wire, float_wire, double_wire, int16_wire, uint16_wire, int32_wire, uint32_wire, int64_wire,
  uint64_wire, store,
}
use https_github_com_nightdu.Serialization.Write.{pointee}

-- The switch over `type_id_` of `deserialize`.
unfoldable pub kind_read : TypeId → Kind
kind_read bool_t = number bool_wire
kind_read char_t = number char_wire
kind_read byte_t = number uint8_wire
kind_read uint8_t = number uint8_wire
kind_read int8_t = number int8_wire
kind_read float32_t = number float_wire
kind_read float64_t = number double_wire
kind_read int16_t = number int16_wire
kind_read uint16_t = number uint16_wire
kind_read int32_t = number int32_wire
kind_read uint32_t = number uint32_wire
kind_read int64_t = number int64_wire
kind_read uint64_t = number uint64_wire
kind_read string_t = string
kind_read (unknown_t n) = unknown

-- The memory of the message that is filled, and the reader.
pub record Filled (Buffer : Type 0) : Type 0 where
  pub memory : Bytes
  pub reader : Buffer

abbrev pub put_down :
    {Buffer : Type 0}
    → ℕ
    → Filled Buffer
    → Bytes × Buffer
    → Body (RmwRet × Filled Buffer) (Filled Buffer)
put_down at s answer = do
  memory ← store s.memory at answer.0
  pure (record { memory = memory; reader = answer.1 })

module _ {Buffer : Type 0} (ucdr : Ucdr Buffer) where
  -- The part of a round behind `case`, for a member that is no message.
  unfoldable pub get_field :
      Kind → Field → ℕ → Filled Buffer → Body (RmwRet × Filled Buffer) (Filled Buffer)
  get_field (number wire) f at s =
      if f.is_array
      then put_down at s (ucdr.deserialize_array wire f.array_size s.reader)
      else put_down at s (ucdr.deserialize wire s.reader)
  get_field string f at s =
      if f.is_array
      then put_down at s (ucdr.deserialize_string f.string_upper_bound s.reader)
      else pure s
  get_field unknown f at s = set_error "Serializing unknown type" >> return (invalid_argument, s)

  unfoldable mutual
    pub deserialize : Members → ℕ → Filled Buffer → World → Outcome (RmwRet × Filled Buffer)
    deserialize (members size list) base s = deserialize_members list base s

    pub deserialize_members :
        MemberList → ℕ → Filled Buffer → World → Outcome (RmwRet × Filled Buffer)
    deserialize_members nil base s = run (pure (ok, s))
    deserialize_members (message f sub rest) base s =
        run do
          r ← call (deserialize sub (base + f.offset) s)
          call (deserialize_members rest base r.1)
    deserialize_members (leaf t f rest) base s = run do
      s' ← get_field (kind_read t) f (base + f.offset) s
      call (deserialize_members rest base s')

  unfoldable pub rmw_deserialize :
      Option SerializedMessage
      → Option TypeSupport
      → Option Bytes
      → World
      → Outcome (RmwRet × Option SerializedMessage × Option Bytes)
  unfolding get_type_support size_of deserialize
  rmw_deserialize serialized_message type_support ros_message = run do
    let fail : RmwRet → RmwRet × Option SerializedMessage × Option Bytes =
        λ r. (r, serialized_message, ros_message)
    memory ← check_argument_for_null "ros_message" ros_message (fail invalid_argument)
    support ← check_argument_for_null "type_support" type_support (fail invalid_argument)
    old ← check_argument_for_null "serialized_message" serialized_message (fail invalid_argument)
    answer ← call (get_type_support support)
    ts ← found answer (fail invalid_argument)
    table ← pointee ts.table
    resized ←
        ask (λ h. ucdr.resize h old (size_of table)) (λ a. message_resized (size_of table) a.0)
    (if is_ok resized.0 then pure tt else (do
      set_error "Cannot resize serialized message"
      return (resized.0, some resized.1, ros_message)))
    let start : Filled Buffer = record {
      memory = memory;
      reader = ucdr.init_buffer resized.1.buffer (size_of table);
    }
    r ← call (deserialize table 0 start)
    pure (r.0, some resized.1, some r.1.memory)
