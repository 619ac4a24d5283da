-- ===== src/Subscription/Create.antt =====
-- `rmw_create_subscription` and `rmw_destroy_subscription` of src/rmw_subscription.c.
use https_github_com_nightdu.Base.{◌+◌, true, not, Option, none, some, length, ◌==◌}
use https_github_com_nightdu.Platform.{
  Ptr, Text, RmwRet, ok, invalid_argument, incorrect_rmw_implementation, is_ok,
  rmw_get_implementation_identifier, is_foreign, is_history_unknown, QosProfile, PubSubData,
  Endpoint, Node, subscription_t, pub_sub_data_t, chars, by_free, by_publisher_free,
  lock_initialised, Env, World, Outcome, ◌>>=◌, ◌>>◌, run, call, tell, check_argument_for_null,
  return_if, fail_if, pure, allocate, free, hazcat_register_subscription,
  hazcat_unregister_subscription,
}
use https_github_com_nightdu.Typesupport.{TypeSupport, rmw_get_serialized_message_size}
use https_github_com_nightdu.Publisher.Create.{
  size_or_zero, check_full_topic_name, choose_allocator,
}

module _ (env : Env) where
  unfoldable pub rmw_create_subscription :
      Option Node
      → Option TypeSupport
      → Option Text
      → Option QosProfile
      → Option Ptr
      → World
      → Outcome (Option Endpoint)
  unfolding check_full_topic_name choose_allocator rmw_get_serialized_message_size
  rmw_create_subscription node type_supports topic_name qos_policies subscription_options = run do
    n ← check_argument_for_null "node" node none
    support ← check_argument_for_null "type_supports" type_supports none
    topic ← check_argument_for_null "topic_name" topic_name none
    qos ← check_argument_for_null "qos_policies" qos_policies none
    payload ← check_argument_for_null "subscription_options" subscription_options none
    return_if (is_foreign n.implementation_identifier) none
    check_full_topic_name env qos topic none
    fail_if (is_history_unknown qos.history) "Invalid QoS policy" none
    sized ← call (rmw_get_serialized_message_size (some support) (some tt) (some 0))
    fail_if (not (is_ok sized.0)) "Unable to get serialized message size" none
    let msg_size = size_or_zero sized.1
    s ← allocate env subscription_t
    fail_if (s == 0) "Unable to allocate memory for subscription" none
    d ← allocate env pub_sub_data_t
    fail_if (d == 0) "Unable to allocate memory for subscription info" none
    alloc ← choose_allocator env payload msg_size qos.depth
    fail_if (alloc == 0) "Unable to create allocator for subscription" none
    tell (lock_initialised d)
    t ← allocate env (chars (length topic + 1))
    fail_if (t == 0) "Unable to allocate string for subscription's topic name" none
    let info : PubSubData = record {
      address = d;
      alloc = alloc;
      depth = qos.depth;
      msg_size = msg_size;
      gid = none;
      context = n.context;
    }
    ret ← hazcat_register_subscription env info topic
    return_if (not (is_ok ret)) none
    pure (
        some (record {
          address = s;
          implementation_identifier = rmw_get_implementation_identifier;
          info = info;
          topic_name = record { address = t; text = env.format (length topic + 1) topic };
          payload = payload;
          can_loan_messages = true;
        }))

  unfoldable pub rmw_destroy_subscription : Option Node → Option Endpoint → World → Outcome RmwRet
  rmw_destroy_subscription node subscription = run do
    n ← check_argument_for_null "node" node invalid_argument
    s ← check_argument_for_null "subscription" subscription invalid_argument
    return_if (is_foreign n.implementation_identifier) incorrect_rmw_implementation
    return_if (is_foreign s.implementation_identifier) incorrect_rmw_implementation
    ret ← hazcat_unregister_subscription env s.info
    return_if (not (is_ok ret)) ret
    free by_free s.topic_name.address
    free by_free s.info.address
    -- the code calls `rmw_publisher_free` here
    free by_publisher_free s.address
    pure ok
