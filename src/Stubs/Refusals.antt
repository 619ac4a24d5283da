-- ===== src/Stubs/Refusals.antt =====
-- No stub succeeds, and none does anything but complain.
use https_github_com_nightdu.Base.{ℕ, ◌≡◌, refl, none, some, String, Bool, true, false, Option, ◌∷◌}
use https_github_com_nightdu.Platform.{
  RmwRet, unsupported, invalid_argument, incorrect_rmw_implementation, Time, Endpoint, Node,
  ServiceHandle, Call, error_set, null_argument, World, Outcome, done, Body, finish, ◌>>=◌,
  check_argument_for_null, return_if, is_foreign,
}
use https_github_com_nightdu.Typesupport.{TypeSupport}
use https_github_com_nightdu.Handles.Events.{Event}
use https_github_com_nightdu.Stubs.Topics.{
  rmw_init_publisher_allocation, rmw_fini_publisher_allocation, rmw_publisher_assert_liveliness,
  rmw_publisher_wait_for_all_acked, rmw_publish_serialized_message,
  rmw_init_subscription_allocation, rmw_fini_subscription_allocation, rmw_take_serialized_message,
  rmw_take_serialized_message_with_info, rmw_take_event,
}
use https_github_com_nightdu.Stubs.Services.{
  rmw_take_request, rmw_send_response, rmw_service_server_is_available, rmw_send_request,
  rmw_take_response, rmw_node_assert_liveliness, rmw_set_log_severity,
}

-- RMW_RET_UNSUPPORTED, or the code of a check of the arguments.
abbrev is_refusal : RmwRet → Bool
is_refusal unsupported = true
is_refusal invalid_argument = true
is_refusal incorrect_rmw_implementation = true
is_refusal _ = false

abbrev is_complaint : Call → Bool
is_complaint (error_set message) = true
is_complaint (null_argument name) = true
is_complaint _ = false

-- A call refused its arguments or its service, and added to the history one complaint at most.
pub data Refused (w : World) : Outcome RmwRet → Type 0 where
  silently : (r : RmwRet) → is_refusal r ≡ true → Refused w (done r w)
  aloud :
      (r : RmwRet) (c : Call)
      → is_refusal r ≡ true
      → is_complaint c ≡ true
      → Refused w (done r (record w { calls = c ∷ w.calls }))

module _ (w : World) where
  check-Refused :
      {A : Type 0} (name : String) (x : Option A) (k : A → Body RmwRet RmwRet)
      → ((a : A) → Refused w (finish (k a w)))
      → Refused w (finish ((check_argument_for_null name x invalid_argument >>= k) w))
  check-Refused name none k h = aloud invalid_argument (null_argument name) refl refl
  check-Refused name (some a) k h = h a

  foreign-Refused :
      (b : Bool) (k : Unit {0} → Body RmwRet RmwRet)
      → Refused w (finish (k tt w))
      → Refused w (finish ((return_if b incorrect_rmw_implementation >>= k) w))
  foreign-Refused true k h = silently incorrect_rmw_implementation refl
  foreign-Refused false k h = h

-- The stubs, with the arguments that a caller may give them.
pub data Stub : Type 0 where
  init_publisher_allocation : Option TypeSupport → Option (Unit {0}) → Option (Unit {0}) → Stub
  fini_publisher_allocation : Option (Unit {0}) → Stub
  publisher_assert_liveliness : Option Endpoint → Stub
  publisher_wait_for_all_acked : Option Endpoint → Time → Stub
  publish_serialized_message : Option Endpoint → Option (Unit {0}) → Stub
  init_subscription_allocation : Option TypeSupport → Option (Unit {0}) → Option (Unit {0}) → Stub
  fini_subscription_allocation : Option (Unit {0}) → Stub
  take_serialized_message : Option Endpoint → Option (Unit {0}) → Option Bool → Stub
  take_serialized_message_with_info :
      Option Endpoint → Option (Unit {0}) → Option Bool → Option (Unit {0}) → Stub
  take_event : Option Event → Option (Unit {0}) → Option Bool → Stub
  take_request : Option ServiceHandle → Option (Unit {0}) → Option (Unit {0}) → Option Bool → Stub
  send_response : Option ServiceHandle → Option (Unit {0}) → Option (Unit {0}) → Stub
  service_server_is_available : Option Node → Option ServiceHandle → Option Bool → Stub
  send_request : Option ServiceHandle → Option (Unit {0}) → Option ℕ → Stub
  take_response : Option ServiceHandle → Option (Unit {0}) → Option (Unit {0}) → Option Bool → Stub
  node_assert_liveliness : Option Node → Stub
  set_log_severity : ℕ → Stub

abbrev pub call_stub : Stub → World → Outcome RmwRet
call_stub (init_publisher_allocation a b c) = rmw_init_publisher_allocation a b c
call_stub (fini_publisher_allocation a) = rmw_fini_publisher_allocation a
call_stub (publisher_assert_liveliness a) = rmw_publisher_assert_liveliness a
call_stub (publisher_wait_for_all_acked a b) = rmw_publisher_wait_for_all_acked a b
call_stub (publish_serialized_message a b) = rmw_publish_serialized_message a b
call_stub (init_subscription_allocation a b c) = rmw_init_subscription_allocation a b c
call_stub (fini_subscription_allocation a) = rmw_fini_subscription_allocation a
call_stub (take_serialized_message a b c) = rmw_take_serialized_message a b c
call_stub (take_serialized_message_with_info a b c d) =
    rmw_take_serialized_message_with_info a b c d
call_stub (take_event a b c) = rmw_take_event a b c
call_stub (take_request a b c d) = rmw_take_request a b c d
call_stub (send_response a b c) = rmw_send_response a b c
call_stub (service_server_is_available a b c) = rmw_service_server_is_available a b c
call_stub (send_request a b c) = rmw_send_request a b c
call_stub (take_response a b c d) = rmw_take_response a b c d
call_stub (node_assert_liveliness a) = rmw_node_assert_liveliness a
call_stub (set_log_severity a) = rmw_set_log_severity a

-- Each of the seventeen stubs returns, whatever its arguments are, with RMW_RET_UNSUPPORTED or the
-- code of a failed check, and does nothing but set one error message, or not even that.
pub call_stub-Refused : (s : Stub) (w : World) → Refused w (call_stub s w)
unfolding rmw_init_publisher_allocation rmw_fini_publisher_allocation
    rmw_publisher_assert_liveliness rmw_publisher_wait_for_all_acked rmw_publish_serialized_message
    rmw_init_subscription_allocation rmw_fini_subscription_allocation rmw_take_serialized_message
    rmw_take_serialized_message_with_info rmw_take_event rmw_take_request rmw_send_response
    rmw_service_server_is_available rmw_send_request rmw_take_response rmw_node_assert_liveliness
    rmw_set_log_severity
call_stub-Refused (init_publisher_allocation a b c) w = check-Refused w "type_support" a _ λ _.
    check-Refused w "message_bounds" b _ λ _. check-Refused w "allocation" c _ λ _.
      (aloud unsupported (error_set "rmw_init_publisher_allocation hasn't been implemented yet")
        refl refl)
call_stub-Refused (fini_publisher_allocation a) w = check-Refused w "allocation" a _ λ _.
    (aloud unsupported (error_set "rmw_fini_publisher_allocation hasn't been implemented yet") refl
      refl)
call_stub-Refused (publisher_assert_liveliness a) w = check-Refused w "publisher" a _ λ e.
    foreign-Refused w (is_foreign e.implementation_identifier) _ (
      aloud unsupported (error_set "rmw_publisher_assert_liveliness hasn't been implemented yet")
        refl refl)
call_stub-Refused (publisher_wait_for_all_acked a b) w = check-Refused w "publisher" a _ λ e.
    foreign-Refused w (is_foreign e.implementation_identifier) _ (
      aloud unsupported (error_set "rmw_publisher_wait_for_all_acked hasn't been implemented yet")
        refl refl)
call_stub-Refused (publish_serialized_message a b) w = check-Refused w "publisher" a _ λ e.
    check-Refused w "serialized_message" b _ λ _.
      foreign-Refused w (is_foreign e.implementation_identifier) _ (
        aloud unsupported (error_set "rmw_publish_serialized_message hasn't been implemented yet")
          refl refl)
call_stub-Refused (init_subscription_allocation a b c) w = check-Refused w "type_supports" a _ λ _.
    check-Refused w "message_bounds" b _ λ _. check-Refused w "allocation" c _ λ _.
      (aloud unsupported (error_set "rmw_init_subscription_allocation hasn't been implemented yet")
        refl refl)
call_stub-Refused (fini_subscription_allocation a) w = check-Refused w "allocation" a _ λ _.
    (aloud unsupported (error_set "rmw_fini_subscription_allocation hasn't been implemented yet")
      refl refl)
call_stub-Refused (take_serialized_message a b c) w = check-Refused w "subscription" a _ λ e.
    check-Refused w "serialized_message" b _ λ _. check-Refused w "taken" c _ λ _.
      foreign-Refused w (is_foreign e.implementation_identifier) _ (
        aloud unsupported (error_set "rmw_take_serialized_message hasn't been implemented yet") refl
          refl)
call_stub-Refused (take_serialized_message_with_info a b c d) w =
    check-Refused w "subscription" a _ λ e. check-Refused w "serialized_message" b _ λ _.
      check-Refused w "taken" c _ λ _. check-Refused w "message_info" d _ λ _.
        foreign-Refused w (is_foreign e.implementation_identifier) _ (
          aloud unsupported
            (error_set "rmw_take_serialized_message_with_info hasn't been implemented yet") refl
            refl)
call_stub-Refused (take_event a b c) w = check-Refused w "event_handle" a _ λ _.
    check-Refused w "event_info" b _ λ _.
      check-Refused w "taken" c _
        λ _. (aloud unsupported (error_set "rmw_take_event hasn't been implemented yet") refl refl)
call_stub-Refused (take_request a b c d) w = check-Refused w "service" a _ λ _.
    check-Refused w "request_header" b _ λ _. check-Refused w "ros_request" c _ λ _.
      check-Refused w "taken" d _ λ _.
        (aloud unsupported (error_set "rmw_take_request hasn't been implemented yet") refl refl)
call_stub-Refused (send_response a b c) w = check-Refused w "service" a _ λ _.
    check-Refused w "request_header" b _ λ _.
      check-Refused w "ros_response" c _ λ _.
        (aloud unsupported (error_set "rmw_send_response hasn't been implemented yet") refl refl)
call_stub-Refused (service_server_is_available a b c) w = check-Refused w "node" a _ λ _.
    check-Refused w "client" b _ λ _. check-Refused w "is_available" c _ λ _.
      (aloud unsupported (error_set "rmw_service_server_is_available hasn't been implemented yet")
        refl refl)
call_stub-Refused (send_request a b c) w = check-Refused w "client" a _ λ _.
    check-Refused w "ros_request" b _ λ _.
      check-Refused w "sequence_id" c _ λ _.
        (aloud unsupported (error_set "rmw_send_request hasn't been implemented yet") refl refl)
call_stub-Refused (take_response a b c d) w = check-Refused w "client" a _ λ _.
    check-Refused w "request_header" b _ λ _. check-Refused w "ros_response" c _ λ _.
      check-Refused w "taken" d _ λ _.
        (aloud unsupported (error_set "rmw_take_response hasn't been implemented yet") refl refl)
call_stub-Refused (node_assert_liveliness a) w =
    check-Refused w "node" a _ λ _.
      (aloud unsupported (error_set "rmw_node_assert_liveliness has been deprecated") refl refl)
call_stub-Refused (set_log_severity a) w =
    (aloud unsupported (error_set "rmw_set_log_severity hasn't been implemented yet") refl refl)
