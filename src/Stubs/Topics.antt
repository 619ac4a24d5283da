-- ===== src/Stubs/Topics.antt =====
-- Stubs of src/rmw_publisher.c and src/rmw_subscription.c. A pointer that is only checked has
-- nothing behind it here.
use https_github_com_nightdu.Base.{Option, Bool}
use https_github_com_nightdu.Platform.{
  RmwRet, unsupported, invalid_argument, incorrect_rmw_implementation, is_foreign, Time, Endpoint,
  World, Outcome, ◌>>=◌, ◌>>◌, run, set_error, check_argument_for_null, return_if, pure,
}
use https_github_com_nightdu.Typesupport.{TypeSupport}
use https_github_com_nightdu.Handles.Events.{Event}

unfoldable pub rmw_init_publisher_allocation :
    Option TypeSupport → Option (Unit {0}) → Option (Unit {0}) → World → Outcome RmwRet
rmw_init_publisher_allocation type_support message_bounds allocation = run do
  _ ← check_argument_for_null "type_support" type_support invalid_argument
  _ ← check_argument_for_null "message_bounds" message_bounds invalid_argument
  _ ← check_argument_for_null "allocation" allocation invalid_argument
  set_error "rmw_init_publisher_allocation hasn't been implemented yet"
  pure unsupported

unfoldable pub rmw_fini_publisher_allocation : Option (Unit {0}) → World → Outcome RmwRet
rmw_fini_publisher_allocation allocation = run do
  _ ← check_argument_for_null "allocation" allocation invalid_argument
  set_error "rmw_fini_publisher_allocation hasn't been implemented yet"
  pure unsupported

unfoldable pub rmw_publisher_assert_liveliness : Option Endpoint → World → Outcome RmwRet
rmw_publisher_assert_liveliness publisher = run do
  e ← check_argument_for_null "publisher" publisher invalid_argument
  return_if (is_foreign e.implementation_identifier) incorrect_rmw_implementation
  set_error "rmw_publisher_assert_liveliness hasn't been implemented yet"
  pure unsupported

unfoldable pub rmw_publisher_wait_for_all_acked : Option Endpoint → Time → World → Outcome RmwRet
rmw_publisher_wait_for_all_acked publisher wait_timeout = run do
  e ← check_argument_for_null "publisher" publisher invalid_argument
  return_if (is_foreign e.implementation_identifier) incorrect_rmw_implementation
  set_error "rmw_publisher_wait_for_all_acked hasn't been implemented yet"
  pure unsupported

unfoldable pub rmw_publish_serialized_message :
    Option Endpoint → Option (Unit {0}) → World → Outcome RmwRet
rmw_publish_serialized_message publisher serialized_message = run do
  e ← check_argument_for_null "publisher" publisher invalid_argument
  _ ← check_argument_for_null "serialized_message" serialized_message invalid_argument
  return_if (is_foreign e.implementation_identifier) incorrect_rmw_implementation
  set_error "rmw_publish_serialized_message hasn't been implemented yet"
  pure unsupported

unfoldable pub rmw_init_subscription_allocation :
    Option TypeSupport → Option (Unit {0}) → Option (Unit {0}) → World → Outcome RmwRet
rmw_init_subscription_allocation type_supports message_bounds allocation = run do
  _ ← check_argument_for_null "type_supports" type_supports invalid_argument
  _ ← check_argument_for_null "message_bounds" message_bounds invalid_argument
  _ ← check_argument_for_null "allocation" allocation invalid_argument
  set_error "rmw_init_subscription_allocation hasn't been implemented yet"
  pure unsupported

unfoldable pub rmw_fini_subscription_allocation : Option (Unit {0}) → World → Outcome RmwRet
rmw_fini_subscription_allocation allocation = run do
  _ ← check_argument_for_null "allocation" allocation invalid_argument
  set_error "rmw_fini_subscription_allocation hasn't been implemented yet"
  pure unsupported

unfoldable pub rmw_take_serialized_message :
    Option Endpoint → Option (Unit {0}) → Option Bool → World → Outcome RmwRet
rmw_take_serialized_message subscription serialized_message taken = run do
  e ← check_argument_for_null "subscription" subscription invalid_argument
  _ ← check_argument_for_null "serialized_message" serialized_message invalid_argument
  _ ← check_argument_for_null "taken" taken invalid_argument
  return_if (is_foreign e.implementation_identifier) incorrect_rmw_implementation
  set_error "rmw_take_serialized_message hasn't been implemented yet"
  pure unsupported

unfoldable pub rmw_take_serialized_message_with_info :
    Option Endpoint → Option (Unit {0}) → Option Bool → Option (Unit {0}) → World → Outcome RmwRet
rmw_take_serialized_message_with_info subscription serialized_message taken message_info = run do
  e ← check_argument_for_null "subscription" subscription invalid_argument
  _ ← check_argument_for_null "serialized_message" serialized_message invalid_argument
  _ ← check_argument_for_null "taken" taken invalid_argument
  _ ← check_argument_for_null "message_info" message_info invalid_argument
  return_if (is_foreign e.implementation_identifier) incorrect_rmw_implementation
  set_error "rmw_take_serialized_message_with_info hasn't been implemented yet"
  pure unsupported

unfoldable pub rmw_take_event :
    Option Event → Option (Unit {0}) → Option Bool → World → Outcome RmwRet
rmw_take_event event_handle event_info taken = run do
  _ ← check_argument_for_null "event_handle" event_handle invalid_argument
  _ ← check_argument_for_null "event_info" event_info invalid_argument
  _ ← check_argument_for_null "taken" taken invalid_argument
  set_error "rmw_take_event hasn't been implemented yet"
  pure unsupported
