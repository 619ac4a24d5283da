-- ===== src/Handles/Services.antt =====
-- Creating and destroying services and clients: src/rmw_service.c and src/rmw_client.c.
use https_github_com_nightdu.Base.{◌+◌, Option, none, some, length, ◌==◌}
use https_github_com_nightdu.Platform.{
  Text, RmwRet, ok, invalid_argument, incorrect_rmw_implementation,
  rmw_get_implementation_identifier, is_foreign, is_history_unknown, QosProfile, Node,
  ServiceHandle, service_t, client_t, srv_clt_data_t, chars, by_free, by_service_free,
  by_client_free, Env, World, Outcome, ◌>>=◌, ◌>>◌, run, check_argument_for_null, return_if,
  fail_if, pure, allocate, free,
}
use https_github_com_nightdu.Publisher.Create.{check_full_topic_name}

module _ (env : Env) where
  -- Of the type support only the address is looked at. The block of `srv_clt_data_t` is not checked.
  unfoldable pub rmw_create_service :
      Option Node
      → Option (Unit {0})
      → Option Text
      → Option QosProfile
      → World
      → Outcome (Option ServiceHandle)
  unfolding check_full_topic_name
  rmw_create_service node type_support service_name qos_policies = run do
    n ← check_argument_for_null "node" node none
    _ ← check_argument_for_null "type_support" type_support none
    name ← check_argument_for_null "service_name" service_name none
    qos ← check_argument_for_null "qos_policies" qos_policies none
    return_if (is_foreign n.implementation_identifier) none
    check_full_topic_name env qos name none
    fail_if (is_history_unknown qos.history) "Invalid QoS policy" none
    srv ← allocate env service_t
    fail_if (srv == 0) "Unable to allocate memory for service" none
    d ← allocate env srv_clt_data_t
    t ← allocate env (chars (length name + 1))
    fail_if (t == 0) "Unable to allocate string for subscription's topic name" none
    pure (
        some (record {
          address = srv;
          implementation_identifier = rmw_get_implementation_identifier;
          info = d;
          service_name = record { address = t; text = env.format (length name + 1) name };
        }))

  unfoldable pub rmw_destroy_service : Option Node → Option ServiceHandle → World → Outcome RmwRet
  rmw_destroy_service node service = run do
    n ← check_argument_for_null "node" node invalid_argument
    s ← check_argument_for_null "service" service invalid_argument
    return_if (is_foreign n.implementation_identifier) incorrect_rmw_implementation
    return_if (is_foreign s.implementation_identifier) incorrect_rmw_implementation
    free by_free s.info
    free by_free s.service_name.address
    free by_service_free s.address
    pure ok

  unfoldable pub rmw_create_client :
      Option Node
      → Option (Unit {0})
      → Option Text
      → Option QosProfile
      → World
      → Outcome (Option ServiceHandle)
  unfolding check_full_topic_name
  rmw_create_client node type_support service_name qos_policies = run do
    n ← check_argument_for_null "node" node none
    _ ← check_argument_for_null "type_support" type_support none
    name ← check_argument_for_null "service_name" service_name none
    qos ← check_argument_for_null "qos_policies" qos_policies none
    return_if (is_foreign n.implementation_identifier) none
    check_full_topic_name env qos name none
    fail_if (is_history_unknown qos.history) "Invalid QoS policy" none
    clt ← allocate env client_t
    fail_if (clt == 0) "Unable to allocate memory for service" none
    d ← allocate env srv_clt_data_t
    t ← allocate env (chars (length name + 1))
    fail_if (t == 0) "Unable to allocate string for subscription's topic name" none
    pure (
        some (record {
          address = clt;
          implementation_identifier = rmw_get_implementation_identifier;
          info = d;
          service_name = record { address = t; text = env.format (length name + 1) name };
        }))

  unfoldable pub rmw_destroy_client : Option Node → Option ServiceHandle → World → Outcome RmwRet
  rmw_destroy_client node client = run do
    n ← check_argument_for_null "node" node invalid_argument
    c ← check_argument_for_null "client" client invalid_argument
    return_if (is_foreign n.implementation_identifier) incorrect_rmw_implementation
    return_if (is_foreign c.implementation_identifier) incorrect_rmw_implementation
    free by_free c.info
    free by_free c.service_name.address
    free by_client_free c.address
    pure ok
