-- ===== src/Publisher/Create.antt =====
-- `rmw_create_publisher` and `rmw_destroy_publisher` of src/rmw_publisher.c.
use https_github_com_nightdu.Base.{
  ℕ, ◌+◌, true, not, Option, none, some, length, ltb, ◌==◌, if◌then◌else◌,
}
use https_github_com_nightdu.Platform.{
  Ptr, Text, RmwRet, ok, invalid_argument, incorrect_rmw_implementation, is_ok,
  rmw_get_implementation_identifier, is_foreign, is_history_unknown, QosProfile, PubSubData,
  Endpoint, Node, publisher_t, pub_sub_data_t, chars, by_free, by_publisher_free, lock_initialised,
  Env, World, Outcome, Body, ◌>>=◌, ◌>>◌, run, call, tell, check_argument_for_null, return_if,
  fail_if, pure, allocate, free, create_cpu_ringbuf_allocator, hazcat_register_publisher,
  hazcat_unregister_publisher,
}
use https_github_com_nightdu.Gid.{generate_gid}
use https_github_com_nightdu.Typesupport.{TypeSupport, rmw_get_serialized_message_size}

abbrev pub size_or_zero : Option ℕ → ℕ
size_or_zero none = 0
size_or_zero (some n) = n

-- Options without an allocator of the caller's own.
unfoldable pub rmw_get_default_publisher_options : Ptr
rmw_get_default_publisher_options = 0

module _ (env : Env) where
  -- The check of a topic or service name, which the four functions that create an endpoint share.
  unfoldable pub check_full_topic_name : {R : Type 0} → QosProfile → Text → R → Body R (Unit {0})
  check_full_topic_name qos topic r = if qos.avoid_ros_namespace_conventions then pure tt else do
    let answer = env.validate_full_topic_name topic
    return_if (not (is_ok answer.0)) r
    fail_if (not answer.1) "invalid topic name: %s" r

  -- The caller's allocator, or a new ring buffer if there is none.
  unfoldable pub choose_allocator : {R : Type 0} → Ptr → ℕ → ℕ → Body R Ptr
  choose_allocator payload size depth =
      if payload == 0 then create_cpu_ringbuf_allocator env size depth else pure payload

  unfoldable pub rmw_create_publisher :
      Option Node
      → Option TypeSupport
      → Option Text
      → Option QosProfile
      → Option Ptr
      → World
      → Outcome (Option Endpoint)
  unfolding check_full_topic_name choose_allocator generate_gid rmw_get_serialized_message_size
  rmw_create_publisher node type_supports topic_name qos_policies publisher_options = run do
    n ← check_argument_for_null "node" node none
    support ← check_argument_for_null "type_supports" type_supports none
    topic ← check_argument_for_null "topic_name" topic_name none
    qos ← check_argument_for_null "qos_policies" qos_policies none
    payload ← check_argument_for_null "publisher_options" publisher_options none
    return_if (is_foreign n.implementation_identifier) none
    check_full_topic_name qos topic none
    fail_if (is_history_unknown qos.history) "Invalid QoS policy" none
    sized ← call (rmw_get_serialized_message_size (some support) (some tt) (some 0))
    fail_if (not (is_ok sized.0)) "Unable to get serialized message size" none
    let msg_size = size_or_zero sized.1
    p ← allocate env publisher_t
    fail_if (p == 0) "Unable to allocate memory for publisher" none
    d ← allocate env pub_sub_data_t
    fail_if (d == 0) "Unable to allocate memory for publisher info" none
    alloc ← choose_allocator payload msg_size qos.depth
    fail_if (alloc == 0) "Unable to create allocator for publisher" none
    gid ← generate_gid env
    tell (lock_initialised d)
    t ← allocate env (chars (length topic + 1))
    fail_if (t == 0) "Unable to allocate string for publisher's topic name" none
    let info : PubSubData = record {
      address = d;
      alloc = alloc;
      depth = if ltb 1 qos.depth then qos.depth else 1;
      msg_size = msg_size;
      gid = some gid;
      context = n.context;
    }
    let copy = env.format (length topic + 1) topic
    ret ← hazcat_register_publisher env info copy
    return_if (not (is_ok ret)) none
    pure (
        some (record {
          address = p;
          implementation_identifier = rmw_get_implementation_identifier;
          info = info;
          topic_name = record { address = t; text = copy };
          payload = payload;
          can_loan_messages = true;
        }))

  unfoldable pub rmw_destroy_publisher : Option Node → Option Endpoint → World → Outcome RmwRet
  rmw_destroy_publisher node publisher = run do
    n ← check_argument_for_null "node" node invalid_argument
    p ← check_argument_for_null "publisher" publisher invalid_argument
    return_if (is_foreign n.implementation_identifier) incorrect_rmw_implementation
    return_if (is_foreign p.implementation_identifier) incorrect_rmw_implementation
    ret ← hazcat_unregister_publisher env p.info
    return_if (not (is_ok ret)) ret
    free by_free p.topic_name.address
    free by_free p.info.address
    free by_publisher_free p.address
    pure ok
