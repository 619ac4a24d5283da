-- ===== src/Queries/Info.antt =====
-- Queries for the endpoints on a topic and for the names of nodes, which are not implemented beyond
-- their checks: parts of src/rmw_publisher.c, src/rmw_subscription.c and src/rmw_node.c.
use https_github_com_nightdu.Base.{not, String, Option}
use https_github_com_nightdu.Platform.{
  Text, RmwRet, unsupported, invalid_argument, incorrect_rmw_implementation, is_ok, is_foreign,
  Allocator, Node, Env, World, Outcome, ◌>>=◌, ◌>>◌, run, set_error, check_argument_for_null,
  return_if, fail_if, pure,
}
use https_github_com_nightdu.Queries.Graph.{ResultArray, check_node_name}

module _ (env : Env) where
  -- The two queries for endpoints differ in the name of their result and in the message at the end.
  unfoldable pub info_by_topic :
      String
      → String
      → Option Node
      → Option Allocator
      → Option Text
      → Option ResultArray
      → World
      → Outcome RmwRet
  unfolding check_node_name
  info_by_topic result message node allocator topic_name info = run do
    n ← check_argument_for_null "node" node invalid_argument
    a ← check_argument_for_null "allocator" allocator invalid_argument
    topic ← check_argument_for_null "topic_name" topic_name invalid_argument
    array ← check_argument_for_null result info invalid_argument
    return_if (is_foreign n.implementation_identifier) incorrect_rmw_implementation
    check_node_name env topic
    fail_if (not a.is_valid) "allocator argument is invalid" invalid_argument
    return_if (not (is_ok array.check_zero)) invalid_argument
    set_error message
    pure unsupported

  unfoldable pub rmw_get_publishers_info_by_topic :
      Option Node → Option Allocator → Option Text → Option ResultArray → World → Outcome RmwRet
  unfolding info_by_topic
  rmw_get_publishers_info_by_topic =
      info_by_topic "publishers_info" "rmw_get_publishers_info_by_topic hasn't been implemented yet"

  unfoldable pub rmw_get_subscriptions_info_by_topic :
      Option Node → Option Allocator → Option Text → Option ResultArray → World → Outcome RmwRet
  unfolding info_by_topic
  rmw_get_subscriptions_info_by_topic =
      info_by_topic "subscriptions_info"
        "rmw_get_subscriptions_info_by_topic hasn't been implemented yet"

-- The messages of these two name another function, as in the source.
unfoldable pub rmw_get_node_names :
    Option Node → Option ResultArray → Option ResultArray → World → Outcome RmwRet
rmw_get_node_names node node_names node_namespaces = run do
  n ← check_argument_for_null "node" node invalid_argument
  names ← check_argument_for_null "node_names" node_names invalid_argument
  spaces ← check_argument_for_null "node_namespaces" node_namespaces invalid_argument
  return_if (is_foreign n.implementation_identifier) incorrect_rmw_implementation
  return_if (not (is_ok names.check_zero)) invalid_argument
  return_if (not (is_ok spaces.check_zero)) invalid_argument
  set_error "rmw_node_get_graph_guard_condition hasn't been implemented yet"
  pure unsupported

unfoldable pub rmw_get_node_names_with_enclaves :
    Option Node
    → Option ResultArray
    → Option ResultArray
    → Option ResultArray
    → World
    → Outcome RmwRet
rmw_get_node_names_with_enclaves node node_names node_namespaces enclaves = run do
  n ← check_argument_for_null "node" node invalid_argument
  names ← check_argument_for_null "node_names" node_names invalid_argument
  spaces ← check_argument_for_null "node_namespaces" node_namespaces invalid_argument
  places ← check_argument_for_null "enclaves" enclaves invalid_argument
  return_if (is_foreign n.implementation_identifier) incorrect_rmw_implementation
  return_if (not (is_ok names.check_zero)) invalid_argument
  return_if (not (is_ok spaces.check_zero)) invalid_argument
  return_if (not (is_ok places.check_zero)) invalid_argument
  set_error "rmw_node_get_graph_guard_condition hasn't been implemented yet"
  pure unsupported
