-- ===== src/Typesupport.antt =====
-- Type supports: src/hazcat_typesupport.cpp, the introspection tables that src/rmw_serialize.c
-- walks, and `rmw_get_serialized_message_size`.
use https_github_com_nightdu.Base.{ℕ, Bool, Option, none, some}
use https_github_com_nightdu.Platform.{
  RmwRet, ok, invalid_argument, World, Outcome, Body, ◌>>=◌, ◌>>◌, run, call, return, set_error,
  check_argument_for_null, pure,
}

-- `type_id_` of a member that is no message.
pub data TypeId : Type 0 where
  bool_t char_t byte_t uint8_t int8_t float32_t float64_t : TypeId
  int16_t uint16_t int32_t uint32_t int64_t uint64_t string_t : TypeId
  unknown_t : ℕ → TypeId

pub record Field : Type 0 where
  pub is_array : Bool
  pub array_size : ℕ
  pub string_upper_bound : ℕ
  pub offset : ℕ

-- `MessageMembers`: the size of the struct and its members in order. A member of type MESSAGE
-- points to the table of its own type.
mutual
  pub data Members : Type 0 where
    members : ℕ → MemberList → Members

  pub data MemberList : Type 0 where
    nil : MemberList
    leaf : TypeId → Field → MemberList → MemberList
    message : Field → Members → MemberList → MemberList

unfoldable pub size_of : Members → ℕ
size_of (members n list) = n

-- A type support that an introspection library answers with; `table` is its `data`.
pub record Handle : Type 0 where
  pub table : Option Members

-- A type support as the caller has it: what its `func` answers for the introspection identifiers of
-- C and of C++.
pub record TypeSupport : Type 0 where
  pub introspection_c : Option Handle
  pub introspection_cpp : Option Handle

unfoldable pub get_type_support : TypeSupport → World → Outcome (Option Handle)
get_type_support type_support = run (elim type_support.introspection_c [
  | some ts_c ↦ pure (some ts_c)
  | none ↦ elim type_support.introspection_cpp [
    | some ts_cpp ↦ pure (some ts_cpp)
    | none ↦ set_error "Unsupported typesupport" >> pure none
  ]
])

-- What follows the lookup in a caller: the handle, or the error of the caller.
abbrev pub found : {R : Type 0} → Option Handle → R → Body R Handle
found none r = set_error "Unsupported typesupport" >> return r
found (some ts) r = pure ts

unfoldable pub rmw_get_serialized_message_size :
    Option TypeSupport → Option (Unit {0}) → Option ℕ → World → Outcome (RmwRet × Option ℕ)
unfolding get_type_support size_of
rmw_get_serialized_message_size type_support message_bounds size = run do
  support ← check_argument_for_null "type_support" type_support (invalid_argument, size)
  _ ← check_argument_for_null "message_bounds" message_bounds (invalid_argument, size)
  _ ← check_argument_for_null "size" size (invalid_argument, size)
  answer ← call (get_type_support support)
  ts ← found answer (invalid_argument, size)
  measured ts.table size
  where
    measured : Option Members → Option ℕ → Body (RmwRet × Option ℕ) (RmwRet × Option ℕ)
    measured none size =
        set_error "error reading introspection for message" >> return (invalid_argument, size)
    measured (some table) size = pure (ok, some (size_of table))
