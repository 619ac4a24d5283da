-- ===== src/Publisher/Send.antt =====
-- Sending, by copy or by loan: `rmw_publish`, `rmw_borrow_loaned_message`,
-- `rmw_return_loaned_message_from_publisher` and `rmw_publish_loaned_message` of
-- src/rmw_publisher.c.
use https_github_com_nightdu.Base.{
  ℕ, Bool, not, Option, some, take, is_negative, ◌==◌, if◌then◌else◌,
}
use https_github_com_nightdu.Platform.{
  Ptr, Bytes, RmwRet, ok, error, invalid_argument, incorrect_rmw_implementation, is_ok, is_foreign,
  Endpoint, slot_written, size_printed, error_set, Env, World, Outcome, Body, ◌>>=◌, ◌>>◌, run,
  call, tell, check_argument_for_null, check_pointer_for_null, return_if, return, fail_if, pure,
  allocate_slot, deallocate_slot, hazcat_publish, in_bounds,
}
use https_github_com_nightdu.Typesupport.{TypeSupport, rmw_get_serialized_message_size}
use https_github_com_nightdu.Publisher.Create.{size_or_zero}

module _ (env : Env) where
  -- The message is given as the bytes that its address leads to.
  unfoldable pub rmw_publish : Option Endpoint → Option Bytes → World → Outcome RmwRet
  rmw_publish publisher ros_message = run do
    p ← check_argument_for_null "publisher" publisher invalid_argument
    message ← check_argument_for_null "ros_message" ros_message invalid_argument
    return_if (is_foreign p.implementation_identifier) incorrect_rmw_implementation
    let size = p.info.msg_size
    let alloc = p.info.alloc
    offset ← allocate_slot env alloc size
    no_room (is_negative offset) size
    let zc_msg = env.get_ptr alloc offset
    in_bounds size message
    tell (slot_written zc_msg (take size message))
    hazcat_publish env p.info zc_msg size
    where
      no_room : Bool → ℕ → Body RmwRet (Unit {0})
      no_room full size =
          if full
          then (do
            tell (error_set "unable to allocate memory for message.")
            tell (size_printed size)
            return error)
          else pure tt

  unfoldable pub rmw_borrow_loaned_message :
      Option Endpoint → Option TypeSupport → Option Ptr → World → Outcome (RmwRet × Option Ptr)
  unfolding rmw_get_serialized_message_size
  rmw_borrow_loaned_message publisher type_support ros_message = run do
    p ← check_argument_for_null "publisher" publisher (invalid_argument, ros_message)
    support ← check_argument_for_null "type_support" type_support (invalid_argument, ros_message)
    old ← check_argument_for_null "ros_message" ros_message (invalid_argument, ros_message)
    return_if (is_foreign p.implementation_identifier) (incorrect_rmw_implementation, ros_message)
    fail_if (not (old == 0)) "Non-null message given to rmw_borrow_loaned_message"
        (invalid_argument, ros_message)
    sized ← call (rmw_get_serialized_message_size (some support) (some tt) (some 0))
    fail_if (not (is_ok sized.0)) "Unable to get length of message" (sized.0, ros_message)
    let alloc = p.info.alloc
    offset ← allocate_slot env alloc (size_or_zero sized.1)
    fail_if (is_negative offset) "unable to allocate memory for message" (error, ros_message)
    pure (ok, some (env.get_ptr alloc offset))

  unfoldable pub rmw_return_loaned_message_from_publisher :
      Option Endpoint → Ptr → World → Outcome RmwRet
  rmw_return_loaned_message_from_publisher publisher loaned_message = run do
    p ← check_argument_for_null "publisher" publisher invalid_argument
    check_pointer_for_null "loaned_message" loaned_message invalid_argument
    deallocate_slot env p.info.alloc loaned_message
    pure ok

  unfoldable pub rmw_publish_loaned_message : Option Endpoint → Ptr → World → Outcome RmwRet
  rmw_publish_loaned_message publisher ros_message = run do
    p ← check_argument_for_null "publisher" publisher invalid_argument
    check_pointer_for_null "ros_message" ros_message invalid_argument
    hazcat_publish env p.info ros_message p.info.msg_size
