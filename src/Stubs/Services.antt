-- ===== src/Stubs/Services.antt =====
-- Stubs of src/rmw_service.c, src/rmw_client.c, src/rmw_node.c and src/rmw_logging.c. A pointer that
-- is only checked has nothing behind it here.
use https_github_com_nightdu.Base.{ℕ, Option, Bool}
use https_github_com_nightdu.Platform.{
  RmwRet, unsupported, invalid_argument, Node, ServiceHandle, World, Outcome, ◌>>=◌, ◌>>◌, run,
  set_error, check_argument_for_null, pure,
}

unfoldable pub rmw_take_request :
    Option ServiceHandle
    → Option (Unit {0})
    → Option (Unit {0})
    → Option Bool
    → World
    → Outcome RmwRet
rmw_take_request service request_header ros_request taken = run do
  _ ← check_argument_for_null "service" service invalid_argument
  _ ← check_argument_for_null "request_header" request_header invalid_argument
  _ ← check_argument_for_null "ros_request" ros_request invalid_argument
  _ ← check_argument_for_null "taken" taken invalid_argument
  set_error "rmw_take_request hasn't been implemented yet"
  pure unsupported

unfoldable pub rmw_send_response :
    Option ServiceHandle → Option (Unit {0}) → Option (Unit {0}) → World → Outcome RmwRet
rmw_send_response service request_header ros_response = run do
  _ ← check_argument_for_null "service" service invalid_argument
  _ ← check_argument_for_null "request_header" request_header invalid_argument
  _ ← check_argument_for_null "ros_response" ros_response invalid_argument
  set_error "rmw_send_response hasn't been implemented yet"
  pure unsupported

unfoldable pub rmw_service_server_is_available :
    Option Node → Option ServiceHandle → Option Bool → World → Outcome RmwRet
rmw_service_server_is_available node client is_available = run do
  _ ← check_argument_for_null "node" node invalid_argument
  _ ← check_argument_for_null "client" client invalid_argument
  _ ← check_argument_for_null "is_available" is_available invalid_argument
  set_error "rmw_service_server_is_available hasn't been implemented yet"
  pure unsupported

unfoldable pub rmw_send_request :
    Option ServiceHandle → Option (Unit {0}) → Option ℕ → World → Outcome RmwRet
rmw_send_request client ros_request sequence_id = run do
  _ ← check_argument_for_null "client" client invalid_argument
  _ ← check_argument_for_null "ros_request" ros_request invalid_argument
  _ ← check_argument_for_null "sequence_id" sequence_id invalid_argument
  set_error "rmw_send_request hasn't been implemented yet"
  pure unsupported

unfoldable pub rmw_take_response :
    Option ServiceHandle
    → Option (Unit {0})
    → Option (Unit {0})
    → Option Bool
    → World
    → Outcome RmwRet
rmw_take_response client request_header ros_response taken = run do
  _ ← check_argument_for_null "client" client invalid_argument
  _ ← check_argument_for_null "request_header" request_header invalid_argument
  _ ← check_argument_for_null "ros_response" ros_response invalid_argument
  _ ← check_argument_for_null "taken" taken invalid_argument
  set_error "rmw_take_response hasn't been implemented yet"
  pure unsupported

unfoldable pub rmw_node_assert_liveliness : Option Node → World → Outcome RmwRet
rmw_node_assert_liveliness node = run do
  _ ← check_argument_for_null "node" node invalid_argument
  set_error "rmw_node_assert_liveliness has been deprecated"
  pure unsupported

-- The severity is ignored.
unfoldable pub rmw_set_log_severity : ℕ → World → Outcome RmwRet
rmw_set_log_severity severity =
    run do set_error "rmw_set_log_severity hasn't been implemented yet"; pure unsupported
