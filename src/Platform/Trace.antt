-- ===== src/Platform/Trace.antt =====
-- The calls that leave this repository, each with the answer that it got, and the environment: for
-- every such call the answer as a function of the calls before it.
use https_github_com_nightdu.Base.{ℕ, ℤ, Bool, String, Option, List, ◌∷◌}
use https_github_com_nightdu.Platform.Types.{
  Ptr, Text, Bytes, RmwRet, PubSubData, Endpoint, MsgRef, CString, Security, InitOptions, Context,
  EpollData, EpollEvent, ControlResult,
}

-- What an allocation is for, and so how large it is.
pub data Block : Type 0 where
  publisher_t subscription_t node_t guard_condition_t wait_set_t service_t client_t : Block
  pub_sub_data_t node_info_t guard_condition_impl_t srv_clt_data_t : Block
  chars : ℕ → Block
  waitset_t : ℕ → Block

-- The function that frees it.
pub data Release : Type 0 where
  by_free by_publisher_free by_service_free by_client_free : Release

pub data Call : Type 0 where
  error_set null_argument perror_printed : String → Call
  size_printed : ℕ → Call
  allocated : Block → Ptr → Call
  freed : Release → Ptr → Call
  ringbuf_created : ℕ → ℕ → Ptr → Call
  lock_initialised : Ptr → Call
  publisher_registered subscription_registered : PubSubData → Text → RmwRet → Call
  publisher_unregistered subscription_unregistered : PubSubData → RmwRet → Call
  slot_allocated : Ptr → ℕ → ℤ → Call
  slot_deallocated : Ptr → ℤ → Call
  slot_written : Ptr → Bytes → Call
  published : PubSubData → Ptr → ℕ → RmwRet → Call
  taken : PubSubData → MsgRef → Call
  alloc_matched : Endpoint → Ptr → Ptr → Call
  text_duplicated : Option CString → Option CString → Call
  text_deallocated : Option CString → Call
  security_copied : Security → RmwRet → Call
  security_finished : Security → RmwRet → Call
  hazcat_started hazcat_finished : RmwRet → Call
  guard_created guard_destroyed : Ptr → Call
  trigger_written : Ptr → ℤ → Call
  trigger_counted : Ptr → ℤ → Call
  epoll_created : ℕ → ℤ → Call
  epoll_added : ℤ → ℕ → EpollData → ControlResult → Call
  epoll_deleted : ℤ → ℕ → ControlResult → Call
  epoll_waited : ℤ → ℕ → ℤ → Option (List EpollEvent) → Call
  fd_read : ℕ → ℕ → Call
  fd_closed : ℤ → Call
  message_resized : ℕ → RmwRet → Call

abbrev pub History : Type 0
History = List Call

pub record Env : Type 0 where
  -- RMW_GID_STORAGE_SIZE
  pub gid_storage_size : ℕ
  pub allocate : History → Block → Ptr
  -- snprintf(dst, size, format), with no further argument
  pub format : ℕ → Text → Text
  pub validate_full_topic_name : Text → RmwRet × Bool
  pub validate_node_name : Text → RmwRet × Bool
  pub validate_namespace : Text → RmwRet × Bool
  pub create_ringbuf : History → ℕ → ℕ → Ptr
  pub register_publisher : History → PubSubData → Text → RmwRet
  pub register_subscription : History → PubSubData → Text → RmwRet
  pub unregister_publisher : History → PubSubData → RmwRet
  pub unregister_subscription : History → PubSubData → RmwRet
  pub allocate_slot : History → Ptr → ℕ → ℤ
  pub get_ptr : Ptr → ℤ → Ptr
  pub ptr_to_offset : Ptr → Ptr → ℤ
  pub load_slot : History → Ptr → ℕ → Bytes
  pub publish : History → PubSubData → Ptr → ℕ → RmwRet
  pub take_next : History → PubSubData → MsgRef
  pub matching_alloc : History → Endpoint → Ptr → Ptr
  -- rmw_get_default_security_options() and the zero-initialised values of rmw
  pub default_security : Security
  pub zero_security : Security
  pub zero_init_options : InitOptions
  pub zero_context : Context
  pub default_domain_id : ℕ
  pub strdup : History → Option CString → Option CString
  pub copy_security : History → Security → RmwRet × Security
  pub finish_security : History → Security → RmwRet
  pub start_hazcat : History → RmwRet
  pub finish_hazcat : History → RmwRet
  pub create_epoll : History → ℕ → ℤ
  pub add_epoll : History → ℤ → ℕ → EpollData → ControlResult
  pub delete_epoll : History → ℤ → ℕ → ControlResult
  -- none for -1, else the events
  pub wait_epoll : History → ℤ → ℕ → ℤ → Option (List EpollEvent)
  pub count_triggers : History → Ptr → ℤ
  pub write_trigger : History → Ptr → ℤ
  pub signalfd : PubSubData → ℕ
  pub next_index : History → PubSubData → ℕ
  pub queue_index : History → PubSubData → ℕ
  -- fields of mq->elem, the part of the queue in shared memory
  pub queue_len : History → PubSubData → ℕ
  pub queue_pub_count : History → PubSubData → ℕ
  pub queue_sub_count : History → PubSubData → ℕ

-- The calls made so far, newest first, and the static counter of `generate_gid`.
pub record World : Type 0 where
  pub calls : History
  pub dummy_guid : ℕ

abbrev pub log : Call → World → World
log c w = record w { calls = c ∷ w.calls }
