-- ===== src/Subscription/Receive.antt =====
-- Receiving, by copy or by loan: `rmw_take`, `rmw_take_with_info`, `rmw_take_loaned_message`,
-- `rmw_take_loaned_message_with_info` and `rmw_return_loaned_message_from_subscription` of
-- src/rmw_subscription.c.
use https_github_com_nightdu.Base.{Bool, true, false, not, Option, some, ◌++◌, ◌==◌, drop}
use https_github_com_nightdu.Platform.{
  Ptr, Bytes, RmwRet, ok, error, invalid_argument, incorrect_rmw_implementation, is_foreign,
  Endpoint, Env, World, Outcome, ◌>>=◌, ◌>>◌, run, check_argument_for_null, check_pointer_for_null,
  return_if, fail_if, pure, hazcat_take, load_slot, deallocate_slot, get_matching_alloc, in_bounds,
}

-- What a take leaves behind its pointers: the message buffer and the flag.
pub record Received : Type 0 where
  pub ret : RmwRet
  pub message : Option Bytes
  pub taken : Option Bool

-- The same for a loan, whose buffer is a pointer.
pub record Loaned : Type 0 where
  pub ret : RmwRet
  pub message : Option Ptr
  pub taken : Option Bool

module _ (env : Env) where
  unfoldable pub rmw_take : Option Endpoint → Option Bytes → Option Bool → World → Outcome Received
  rmw_take subscription ros_message taken = run do
    let fail : RmwRet → Received = λ r. record { ret = r; message = ros_message; taken = taken }
    s ← check_argument_for_null "subscription" subscription (fail invalid_argument)
    buffer ← check_argument_for_null "ros_message" ros_message (fail invalid_argument)
    _ ← check_argument_for_null "taken" taken (fail invalid_argument)
    return_if (is_foreign s.implementation_identifier) (fail incorrect_rmw_implementation)
    let size = s.info.msg_size
    ref ← hazcat_take env s.info
    return_if (ref.msg == 0) (record { ret = ok; message = some buffer; taken = some false })
    in_bounds size buffer
    bytes ← load_slot env ref.msg size
    deallocate_slot env ref.alloc ref.msg
    pure (record { ret = ok; message = some (bytes ++ drop size buffer); taken = some true })

  unfoldable pub rmw_take_with_info :
      Option Endpoint → Option Bytes → Option Bool → Option (Unit {0}) → World → Outcome Received
  rmw_take_with_info subscription ros_message taken message_info = run do
    let fail : RmwRet → Received = λ r. record { ret = r; message = ros_message; taken = taken }
    s ← check_argument_for_null "subscription" subscription (fail invalid_argument)
    buffer ← check_argument_for_null "ros_message" ros_message (fail invalid_argument)
    _ ← check_argument_for_null "taken" taken (fail invalid_argument)
    _ ← check_argument_for_null "message_info" message_info (fail invalid_argument)
    return_if (is_foreign s.implementation_identifier) (fail incorrect_rmw_implementation)
    let size = s.info.msg_size
    ref ← hazcat_take env s.info
    return_if (ref.msg == 0) (record { ret = ok; message = some buffer; taken = some false })
    in_bounds size buffer
    bytes ← load_slot env ref.msg size
    deallocate_slot env ref.alloc ref.msg
    pure (record { ret = ok; message = some (bytes ++ drop size buffer); taken = some true })

  unfoldable pub rmw_take_loaned_message :
      Option Endpoint → Option Ptr → Option Bool → World → Outcome Loaned
  rmw_take_loaned_message subscription loaned_message taken = run do
    let fail : RmwRet → Loaned = λ r. record { ret = r; message = loaned_message; taken = taken }
    s ← check_argument_for_null "subscription" subscription (fail invalid_argument)
    _ ← check_argument_for_null "loaned_message" loaned_message (fail invalid_argument)
    _ ← check_argument_for_null "taken" taken (fail invalid_argument)
    return_if (is_foreign s.implementation_identifier) (fail incorrect_rmw_implementation)
    ref ← hazcat_take env s.info
    pure (record { ret = ok; message = some ref.msg; taken = some (not (ref.msg == 0)) })

  unfoldable pub rmw_take_loaned_message_with_info :
      Option Endpoint → Option Ptr → Option Bool → Option (Unit {0}) → World → Outcome Loaned
  rmw_take_loaned_message_with_info subscription loaned_message taken message_info = run do
    let fail : RmwRet → Loaned = λ r. record { ret = r; message = loaned_message; taken = taken }
    s ← check_argument_for_null "subscription" subscription (fail invalid_argument)
    _ ← check_argument_for_null "loaned_message" loaned_message (fail invalid_argument)
    _ ← check_argument_for_null "taken" taken (fail invalid_argument)
    _ ← check_argument_for_null "message_info" message_info (fail invalid_argument)
    return_if (is_foreign s.implementation_identifier) (fail incorrect_rmw_implementation)
    ref ← hazcat_take env s.info
    pure (record { ret = ok; message = some ref.msg; taken = some (not (ref.msg == 0)) })

  unfoldable pub rmw_return_loaned_message_from_subscription :
      Option Endpoint → Ptr → World → Outcome RmwRet
  rmw_return_loaned_message_from_subscription subscription loaned_message = run do
    s ← check_argument_for_null "subscription" subscription invalid_argument
    check_pointer_for_null "loaned_message" loaned_message invalid_argument
    return_if (is_foreign s.implementation_identifier) incorrect_rmw_implementation
    alloc ← get_matching_alloc env s loaned_message
    fail_if (alloc == 0) "Returning message that wasn't loaned" error
    deallocate_slot env alloc loaned_message
    pure ok
