-- ===== src/Platform/Types.antt =====
-- The structs that the rmw functions read and write, with the fields that the code uses. A handle
-- carries its own address, which is what the code frees.
use https_github_com_nightdu.Base.{ℕ, ℤ, Bool, true, false, Option, List}

-- An address; 0 is NULL.
abbrev pub Ptr : Type 0
Ptr = ℕ

-- The characters of a C string, without the terminator.
abbrev pub Text : Type 0
Text = List ℕ

abbrev pub Bytes : Type 0
Bytes = List ℕ

-- The codes of `rmw_ret_t` that the code names, and any other that a callee returns.
pub data RmwRet : Type 0 where
  ok error timeout unsupported bad_alloc invalid_argument incorrect_rmw_implementation : RmwRet
  other_ret : ℕ → RmwRet

-- `RMW_RET_OK == ret`
abbrev pub is_ok : RmwRet → Bool
is_ok ok = true
is_ok error = false
is_ok _ = false

-- What an `implementation_identifier` may point to: nothing, the string of this library, the
-- function `rmw_get_implementation_identifier`, or anything else.
pub data Identifier : Type 0 where
  null_identifier rmw_hazcat_identifier identifier_function : Identifier
  other_identifier : ℕ → Identifier

-- The function of rmw_get_implementation_identifier.c.
abbrev pub rmw_get_implementation_identifier : Identifier
rmw_get_implementation_identifier = rmw_hazcat_identifier

-- `i != rmw_get_implementation_identifier()`
abbrev pub is_foreign : Identifier → Bool
is_foreign rmw_hazcat_identifier = false
is_foreign null_identifier = true
is_foreign _ = true

abbrev pub is_null_identifier : Identifier → Bool
is_null_identifier null_identifier = true
is_null_identifier rmw_hazcat_identifier = false
is_null_identifier _ = false

pub record Time : Type 0 where
  pub sec : ℕ
  pub nsec : ℕ

pub record Gid : Type 0 where
  pub implementation_identifier : Identifier
  pub storage : Bytes

pub data HistoryPolicy : Type 0 where
  keep_last history_unknown : HistoryPolicy
  other_history : ℕ → HistoryPolicy

abbrev pub is_history_unknown : HistoryPolicy → Bool
is_history_unknown history_unknown = true
is_history_unknown keep_last = false
is_history_unknown _ = false

pub data ReliabilityPolicy : Type 0 where
  reliable : ReliabilityPolicy
  other_reliability : ℕ → ReliabilityPolicy

pub data DurabilityPolicy : Type 0 where
  volatile : DurabilityPolicy
  other_durability : ℕ → DurabilityPolicy

pub data LivelinessPolicy : Type 0 where
  automatic : LivelinessPolicy
  other_liveliness : ℕ → LivelinessPolicy

pub record QosProfile : Type 0 where
  pub history : HistoryPolicy
  pub depth : ℕ
  pub reliability : ReliabilityPolicy
  pub durability : DurabilityPolicy
  pub deadline : Time
  pub lifespan : Time
  pub liveliness : LivelinessPolicy
  pub liveliness_lease_duration : Time
  pub avoid_ros_namespace_conventions : Bool

-- `pub_sub_data_t`, as far as this library sets it: registration fills in the rest, which the
-- environment answers for. `gid` is `none` where it was never written.
pub record PubSubData : Type 0 where
  pub address : Ptr
  pub alloc : Ptr
  pub depth : ℕ
  pub msg_size : ℕ
  pub gid : Option Gid
  pub context : Ptr

-- A string on the heap.
pub record CString : Type 0 where
  pub address : Ptr
  pub text : Text

-- `rmw_publisher_t` and `rmw_subscription_t`, which have the same fields; `info` is `data`, and
-- `payload` the one field of the options.
pub record Endpoint : Type 0 where
  pub address : Ptr
  pub implementation_identifier : Identifier
  pub info : PubSubData
  pub topic_name : CString
  pub payload : Ptr
  pub can_loan_messages : Bool

-- `rmw_guard_condition_t`; `impl` is `data`.
pub record GuardCondition : Type 0 where
  pub address : Ptr
  pub implementation_identifier : Identifier
  pub context : Ptr
  pub impl : Ptr

-- `rmw_node_t`; `info` is the address of its `node_info_t`, and `guard_condition` what that holds.
pub record Node : Type 0 where
  pub address : Ptr
  pub implementation_identifier : Identifier
  pub info : Ptr
  pub guard_condition : GuardCondition
  pub name : CString
  pub namespace_ : CString
  pub context : Ptr

-- `rmw_service_t` and `rmw_client_t`, which have the same fields.
pub record ServiceHandle : Type 0 where
  pub address : Ptr
  pub implementation_identifier : Identifier
  pub info : Ptr
  pub service_name : CString

-- `rmw_wait_set_t`, with the fields of the `waitset_t` that it points to. `max_conditions` is the
-- number of events that `evlist` has room for.
pub record WaitSet : Type 0 where
  pub address : Ptr
  pub implementation_identifier : Identifier
  pub info : Ptr
  pub epollfd : ℤ
  pub max_conditions : ℕ
  pub len : ℕ

-- `guard_condition_t` of hazcat: its address and `pfd[1]`.
pub record GuardImpl : Type 0 where
  pub address : Ptr
  pub pipe : ℕ

-- What epoll hands back with an event: a file descriptor or an address, in one union.
pub data EpollData : Type 0 where
  fd_data ptr_data : ℕ → EpollData

-- The outcome of `epoll_ctl`, told apart as far as the code looks at errno.
pub data ControlResult : Type 0 where
  control_ok control_exist control_noent control_failed : ControlResult

-- `struct epoll_event`
pub record EpollEvent : Type 0 where
  pub user : EpollData
  pub flags : ℕ

-- `msg_ref_t`: a message and the allocator that it lies in.
pub record MsgRef : Type 0 where
  pub alloc : Ptr
  pub msg : Ptr

-- `rcutils_allocator_t`, with what rcutils_allocator_is_valid says of it.
pub record Allocator : Type 0 where
  pub state : Ptr
  pub is_valid : Bool

-- `rmw_security_options_t`, which the code only passes on.
abbrev pub Security : Type 0
Security = ℕ

pub data LocalhostOnly : Type 0 where
  localhost_only_enabled : LocalhostOnly
  other_localhost_only : ℕ → LocalhostOnly

-- `rmw_init_options_t`; a missing `enclave` is NULL.
pub record InitOptions : Type 0 where
  pub instance_id : ℕ
  pub implementation_identifier : Identifier
  pub allocator : Allocator
  pub impl : Ptr
  pub security_options : Security
  pub domain_id : ℕ
  pub localhost_only : LocalhostOnly
  pub enclave : Option CString

-- `rmw_context_t`
pub record Context : Type 0 where
  pub instance_id : ℕ
  pub implementation_identifier : Identifier
  pub impl : Ptr
  pub options : InitOptions
