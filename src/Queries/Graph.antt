-- ===== src/Queries/Graph.antt =====
-- Queries of the graph, which check their arguments and are not implemented beyond that:
-- src/rmw_node_info_and_types.c, and parts of src/rmw_count.c, src/rmw_publisher.c,
-- src/rmw_subscription.c and src/rmw_node.c.
use https_github_com_nightdu.Base.{ℕ, not, String, Option}
use https_github_com_nightdu.Platform.{
  Text, RmwRet, unsupported, invalid_argument, incorrect_rmw_implementation, is_ok, is_foreign,
  Allocator, Node, Env, World, Outcome, Body, ◌>>=◌, ◌>>◌, run, set_error, check_argument_for_null,
  return_if, fail_if, pure,
}

-- A result array, as far as the code looks at it: what the check of rmw that it is
-- zero-initialised returns.
pub record ResultArray : Type 0 where
  pub check_zero : RmwRet

module _ (env : Env) where
  -- The checks of a node name, which the queries by topic also make of the topic's name.
  unfoldable pub check_node_name : Text → Body RmwRet (Unit {0})
  check_node_name name = do
    let answer = env.validate_node_name name
    return_if (not (is_ok answer.0)) answer.0
    fail_if (not answer.1) "node_name argument is invalid: %s" invalid_argument

  unfoldable pub check_node_namespace : Text → Body RmwRet (Unit {0})
  check_node_namespace name = do
    let answer = env.validate_namespace name
    return_if (not (is_ok answer.0)) answer.0
    fail_if (not answer.1) "node_namespace argument is invalid: %s" invalid_argument

  -- The four queries by node differ in the name of their result and in the message at the end.
  unfoldable pub names_and_types_by_node :
      String
      → String
      → Option Node
      → Option Allocator
      → Option Text
      → Option Text
      → Option ResultArray
      → World
      → Outcome RmwRet
  unfolding check_node_name check_node_namespace
  names_and_types_by_node result message node allocator node_name node_namespace names_and_types =
      run do
        n ← check_argument_for_null "node" node invalid_argument
        a ← check_argument_for_null "allocator" allocator invalid_argument
        name ← check_argument_for_null "node_name" node_name invalid_argument
        space ← check_argument_for_null "node_namespace" node_namespace invalid_argument
        array ← check_argument_for_null result names_and_types invalid_argument
        return_if (is_foreign n.implementation_identifier) incorrect_rmw_implementation
        fail_if (not a.is_valid) "allocator argument is invalid" invalid_argument
        check_node_name name
        check_node_namespace space
        return_if (not (is_ok array.check_zero)) array.check_zero
        set_error message
        pure unsupported

  unfoldable pub rmw_get_subscriber_names_and_types_by_node :
      Option Node
      → Option Allocator
      → Option Text
      → Option Text
      → Option ResultArray
      → World
      → Outcome RmwRet
  unfolding names_and_types_by_node
  rmw_get_subscriber_names_and_types_by_node =
      names_and_types_by_node "topic_names_and_types"
        "rmw_get_subscriber_names_and_types_by_node hasn't been implemented yet"

  unfoldable pub rmw_get_publisher_names_and_types_by_node :
      Option Node
      → Option Allocator
      → Option Text
      → Option Text
      → Option ResultArray
      → World
      → Outcome RmwRet
  unfolding names_and_types_by_node
  rmw_get_publisher_names_and_types_by_node =
      names_and_types_by_node "topic_names_and_types"
        "rmw_get_publisher_names_and_types_by_node hasn't been implemented yet"

  unfoldable pub rmw_get_service_names_and_types_by_node :
      Option Node
      → Option Allocator
      → Option Text
      → Option Text
      → Option ResultArray
      → World
      → Outcome RmwRet
  unfolding names_and_types_by_node
  rmw_get_service_names_and_types_by_node =
      names_and_types_by_node "service_names_and_types"
        "rmw_get_service_names_and_types_by_node hasn't been implemented yet"

  unfoldable pub rmw_get_client_names_and_types_by_node :
      Option Node
      → Option Allocator
      → Option Text
      → Option Text
      → Option ResultArray
      → World
      → Outcome RmwRet
  unfolding names_and_types_by_node
  rmw_get_client_names_and_types_by_node =
      names_and_types_by_node "service_names_and_types"
        "rmw_get_client_names_and_types_by_node hasn't been implemented yet"

  -- The two queries over all nodes.
  unfoldable pub names_and_types :
      String → String → Option Node → Option Allocator → Option ResultArray → World → Outcome RmwRet
  names_and_types result message node allocator found = run do
    n ← check_argument_for_null "node" node invalid_argument
    a ← check_argument_for_null "allocator" allocator invalid_argument
    array ← check_argument_for_null result found invalid_argument
    return_if (is_foreign n.implementation_identifier) incorrect_rmw_implementation
    fail_if (not a.is_valid) "allocator argument is invalid" invalid_argument
    return_if (not (is_ok array.check_zero)) array.check_zero
    set_error message
    pure unsupported

  unfoldable pub rmw_get_service_names_and_types :
      Option Node → Option Allocator → Option ResultArray → World → Outcome RmwRet
  unfolding names_and_types
  rmw_get_service_names_and_types =
      names_and_types "service_names_and_types"
        "rmw_get_service_names_and_types hasn't been implemented yet"

  unfoldable pub rmw_get_topic_names_and_types :
      Option Node → Option Allocator → Option ResultArray → World → Outcome RmwRet
  unfolding names_and_types
  rmw_get_topic_names_and_types =
      names_and_types "topic_names_and_types"
        "rmw_get_topic_names_and_types hasn't been implemented yet"

  -- The count is never written, so only its being NULL matters.
  unfoldable pub rmw_count_publishers :
      Option Node → Option Text → Option ℕ → World → Outcome RmwRet
  unfolding check_node_name
  rmw_count_publishers node topic_name count = run do
    n ← check_argument_for_null "node" node invalid_argument
    topic ← check_argument_for_null "topic_name" topic_name invalid_argument
    _ ← check_argument_for_null "count" count invalid_argument
    return_if (is_foreign n.implementation_identifier) incorrect_rmw_implementation
    check_node_name topic
    set_error "rmw_count_publishers hasn't been implemented yet"
    pure unsupported

  unfoldable pub rmw_count_subscribers :
      Option Node → Option Text → Option ℕ → World → Outcome RmwRet
  unfolding check_node_name
  rmw_count_subscribers node topic_name count = run do
    n ← check_argument_for_null "node" node invalid_argument
    topic ← check_argument_for_null "topic_name" topic_name invalid_argument
    _ ← check_argument_for_null "count" count invalid_argument
    return_if (is_foreign n.implementation_identifier) incorrect_rmw_implementation
    check_node_name topic
    set_error "rmw_count_subscribers hasn't been implemented yet"
    pure unsupported
