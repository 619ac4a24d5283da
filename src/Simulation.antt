-- ===== src/Simulation.antt =====
-- A small platform for the tests: an allocator that never runs out, and a hazcat whose one reader,
-- at a given address, sees every publication.
pub mod Tape
use https_github_com_nightdu.Base.{
  ℕ, suc, ◌+◌, ◌-◌, ◌≤◌, ◌<◌, ◌≡◌, refl, ap, Bool, true, false, ℤ, pos, negsuc, Option, subst, none,
  some, List, [], ◌∷◌, length, take, arith,
}
use https_github_com_nightdu.Platform.{
  Ptr, ok, rmw_get_implementation_identifier, null_identifier, InitOptions, other_localhost_only,
  control_ok, fd_data, PubSubData, Endpoint, MsgRef, Env, World, subscription_registered,
}
use https_github_com_nightdu.Wait.Loops.{AllSmall}
use https_github_com_nightdu.Wait.Result.{IsEpoll}
use https_github_com_nightdu.Channel.{ref, queued, content, Absent, Hazcat}

abbrev pub everyone : PubSubData → Bool
everyone d = true

abbrev pub front : List MsgRef → MsgRef
front [] = ref 0 0
front (r ∷ q) = r

-- Above every address in a queue.
abbrev pub above : List MsgRef → ℕ
above [] = 1
above (r ∷ q) = above q + r.msg

abbrev offset_ptr : ℤ → Ptr
offset_ptr (pos n) = n
offset_ptr (negsuc n) = 0

abbrev pub zero_options : InitOptions
zero_options = record {
  instance_id = 0;
  implementation_identifier = null_identifier;
  allocator = record { state = 0; is_valid = false };
  impl = 0;
  security_options = 0;
  domain_id = 0;
  localhost_only = other_localhost_only 0;
  enclave = none;
}

-- The platform for a reader at the given address.
abbrev pub sim_at : Ptr → Env
sim_at reader = record {
  gid_storage_size = 24;
  allocate = λ h block. suc (length h);
  format = λ n text. take (n - 1) text;
  validate_full_topic_name = λ text. (ok, true);
  validate_node_name = λ text. (ok, true);
  validate_namespace = λ text. (ok, true);
  create_ringbuf = λ h size depth. suc (length h);
  register_publisher = λ h d topic. ok;
  register_subscription = λ h d topic. ok;
  unregister_publisher = λ h d. ok;
  unregister_subscription = λ h d. ok;
  allocate_slot = λ h alloc size. pos (above (queued everyone reader h));
  get_ptr = λ alloc offset. offset_ptr offset;
  ptr_to_offset = λ alloc p. pos p;
  load_slot = λ h p size. take size (content h p);
  publish = λ h d msg size. ok;
  take_next = λ h d. front (queued everyone reader h);
  matching_alloc = λ h e msg. 9;
  default_security = 1;
  zero_security = 0;
  zero_init_options = zero_options;
  zero_context = record {
    instance_id = 0;
    implementation_identifier = null_identifier;
    impl = 0;
    options = zero_options;
  };
  default_domain_id = 0;
  strdup = λ h text. text;
  copy_security = λ h security. (ok, security);
  finish_security = λ h security. ok;
  start_hazcat = λ h. ok;
  finish_hazcat = λ h. ok;
  create_epoll = λ h size. pos 4;
  add_epoll = λ h epollfd fd user. control_ok;
  delete_epoll = λ h epollfd fd. control_ok;
  wait_epoll = λ h epollfd maxevents timeout. some (record { user = fd_data 7; flags = 1 } ∷ []);
  count_triggers = λ h gc. pos 1;
  write_trigger = λ h gc. pos 1;
  signalfd = λ d. d.address;
  next_index = λ h d. 0;
  queue_index = λ h d. length (queued everyone reader h);
  queue_len = λ h d. 10;
  queue_pub_count = λ h d. 1;
  queue_sub_count = λ h d. 1;
}

abbrev pub sim : Env
sim = sim_at 2

above_pos : (q : List MsgRef) → 0 < above q
above_pos [] = omega arith
above_pos (r ∷ q) = omega (arith, above_pos q)

Absent-above : (n : ℕ) (q : List MsgRef) → above q ≤ n → Absent n q
Absent-above n [] h = tt
Absent-above n (r ∷ q) h = (omega (arith, above_pos q), Absent-above n q (omega arith))

pub sim-Hazcat : (reader : Ptr) → Hazcat (sim_at reader) everyone reader
sim-Hazcat reader = record {
  take_empty = λ h d own room e. ap (λ q. (front q).msg) e;
  take_oldest = λ h d r q own e. ap front e;
  slot_fresh = λ h alloc size o e.
      let q = queued everyone reader h in
      let same : above q ≡ o = ap offset_ptr e in
      (omega (arith, above_pos q, same), Absent-above o q (omega (arith, same)));
  slot_keeps = λ h p size. refl;
}

abbrev list_or : {A : Type 0} → List A → Option (List A) → List A
list_or l (some x) = x
list_or l none = l

abbrev pub empty_world : World
empty_world = record { calls = []; dummy_guid = 0 }

-- An endpoint of this library at the given address, for messages of three bytes.
abbrev pub endpoint : Ptr → Endpoint
endpoint p = record {
  address = p + 100;
  implementation_identifier = rmw_get_implementation_identifier;
  info = record { address = p; alloc = 9; depth = 10; msg_size = 3; gid = none; context = 5 };
  topic_name = record { address = p + 200; text = b'/' ∷ b'a' ∷ [] };
  payload = 0;
  can_loan_messages = true;
}

-- The world once the endpoint at 2 was registered as a subscription.
abbrev pub joined_world : World
joined_world = record {
  calls = subscription_registered (endpoint 2).info [] ok ∷ [];
  dummy_guid = 0;
}

pub sim-IsEpoll : IsEpoll sim
sim-IsEpoll h epollfd n t es positive e =
    subst (λ x. (length x ≤ n) × AllSmall x) (ap (list_or []) e) (omega arith, (omega arith, tt))
