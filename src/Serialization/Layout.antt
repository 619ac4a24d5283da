-- ===== src/Serialization/Layout.antt =====
-- Where the fields of a message lie, as its table says: a flat list of places, in the order of the
-- table, with nested messages opened.
use https_github_com_nightdu.Base.{
  ℕ, ◌+◌, ◌*◌, ◌≤◌, ◌≡◌, true, Option, none, some, List, [], ◌∷◌, ◌++◌, drop, length, is_some,
  if◌then◌else◌,
}
use https_github_com_nightdu.Platform.{Bytes, RmwRet, ok, invalid_argument}
use https_github_com_nightdu.Typesupport.{
  TypeId, bool_t, char_t, byte_t, uint8_t, int8_t, float32_t, float64_t, int16_t, uint16_t, int32_t,
  uint32_t, int64_t, uint64_t, string_t, unknown_t, Field, Members, members, MemberList, nil, leaf,
  message,
}
use https_github_com_nightdu.Serialization.Codec.{
  Ucdr, Wire, width, Kind, number, string, unknown, bool_wire, char_wire, uint8_wire, int8_wire,
  float_wire, double_wire, int16_wire, uint16_wire, int32_wire, uint32_wire, int64_wire,
  uint64_wire, slice, c_string,
}

-- The type that microcdr has for a member of each type of rosidl.
unfoldable pub kind_of : TypeId → Kind
kind_of bool_t = number bool_wire
kind_of char_t = number char_wire
kind_of byte_t = number uint8_wire
kind_of uint8_t = number uint8_wire
kind_of int8_t = number int8_wire
kind_of float32_t = number float_wire
kind_of float64_t = number double_wire
kind_of int16_t = number int16_wire
kind_of uint16_t = number uint16_wire
kind_of int32_t = number int32_wire
kind_of uint32_t = number uint32_wire
kind_of int64_t = number int64_wire
kind_of uint64_t = number uint64_wire
kind_of string_t = string
kind_of (unknown_t n) = unknown

-- A number, an array of numbers, or a string with its bound, and its offset in the message.
pub data Place : Type 0 where
  one : Wire → ℕ → Place
  many : Wire → ℕ → ℕ → Place
  text : ℕ → ℕ → Place

-- An array of numbers is one place, and a string that is no array none. An unknown type ends the
-- list of its own table, and not those of the tables around it.
unfoldable pub place_then : Kind → Field → ℕ → List Place → List Place
place_then (number w) f at more = (if f.is_array then many w f.array_size at else one w at) ∷ more
place_then string f at more = if f.is_array then text f.string_upper_bound at ∷ more else more
place_then unknown f at more = []

unfoldable mutual
  pub places : Members → ℕ → List Place
  places (members size list) base = places_of list base

  pub places_of : MemberList → ℕ → List Place
  places_of nil base = []
  places_of (message f sub rest) base = places sub (base + f.offset) ++ places_of rest base
  places_of (leaf t f rest) base = place_then (kind_of t) f (base + f.offset) (places_of rest base)

unfoldable pub code_then : Kind → RmwRet → RmwRet
code_then unknown more = invalid_argument
code_then string more = more
code_then (number w) more = more

-- RMW_RET_INVALID_ARGUMENT if a member of the table itself has an unknown type; what is nested does
-- not count.
unfoldable pub code_of : MemberList → RmwRet
code_of nil = ok
code_of (message f sub rest) = code_of rest
code_of (leaf t f rest) = code_then (kind_of t) (code_of rest)

unfoldable pub code : Members → RmwRet
unfolding code_of
code (members size list) = code_of list

-- What the serialized length grows by.
abbrev pub size_of_place : Place → ℕ
size_of_place (one w at) = width w
size_of_place (many w n at) = n * width w
size_of_place (text bound at) = bound

abbrev pub offset_of : Place → ℕ
offset_of (one w at) = at
offset_of (many w n at) = at
offset_of (text bound at) = at

abbrev pub size_of_places : List Place → ℕ
size_of_places [] = 0
size_of_places (p ∷ ps) = size_of_place p + size_of_places ps

-- A place lies within the memory of a message; a string ends there.
abbrev pub Fits : Bytes → Place → Type 0
Fits memory (one w at) = at + width w ≤ length memory
Fits memory (many w n at) = at + n * width w ≤ length memory
Fits memory (text bound at) =
    (at + bound ≤ length memory) × (is_some (c_string (drop at memory)) ≡ true)

abbrev pub AllFit : Bytes → List Place → Type 0
AllFit memory [] = Unit {0}
AllFit memory (p ∷ ps) = Fits memory p × AllFit memory ps

-- What the functions of microcdr are called with.
pub data Item : Type 0 where
  one_item : Wire → Bytes → Item
  many_items : Wire → ℕ → Bytes → Item
  text_item : ℕ → Bytes → Item

abbrev pub text_at : Bytes → ℕ → Bytes
text_at memory at = or_empty (c_string (drop at memory))
  where
    or_empty : Option Bytes → Bytes
    or_empty none = []
    or_empty (some t) = t

abbrev pub item : Bytes → Place → Item
item memory (one w at) = one_item w (slice memory at (width w))
item memory (many w n at) = many_items w n (slice memory at (n * width w))
item memory (text bound at) = text_item bound (text_at memory at)

module _ {Buffer : Type 0} (ucdr : Ucdr Buffer) where
  abbrev pub put : Buffer → Item → Buffer
  put b (one_item w v) = ucdr.serialize w v b
  put b (many_items w n v) = ucdr.serialize_array w n v b
  put b (text_item bound v) = ucdr.serialize_string v b

  abbrev pub put_all : Buffer → List Item → Buffer
  put_all b [] = b
  put_all b (i ∷ is) = put_all (put b i) is

  -- Reads what may stand at a place.
  abbrev pub get : Place → Buffer → Bytes × Buffer
  get (one w at) b = ucdr.deserialize w b
  get (many w n at) b = ucdr.deserialize_array w n b
  get (text bound at) b = ucdr.deserialize_string bound b
