-- ===== src/Handles/Foreign.antt =====
-- Handles of other rmw implementations: what the functions do with a publisher, a subscription, a
-- node, a service, a client or a wait set whose identifier is not that of this library.
use https_github_com_nightdu.Base.{◌≡◌, refl, Bool, true, false}
use https_github_com_nightdu.Platform.{is_foreign, Env, World, done, Body, finish, return_if, ◌>>=◌}
use https_github_com_nightdu.Publisher.Create.{rmw_create_publisher, rmw_destroy_publisher}
use https_github_com_nightdu.Publisher.Send.{rmw_publish, rmw_borrow_loaned_message}
use https_github_com_nightdu.Subscription.Create.{rmw_create_subscription, rmw_destroy_subscription}
use https_github_com_nightdu.Subscription.Receive.{
  rmw_take, rmw_take_with_info, rmw_take_loaned_message, rmw_take_loaned_message_with_info,
  rmw_return_loaned_message_from_subscription,
}
use https_github_com_nightdu.Subscription.Sequence.{rmw_take_sequence}
use https_github_com_nightdu.Queries.{
  rmw_get_gid_for_publisher, rmw_publisher_get_actual_qos, rmw_subscription_get_actual_qos,
  rmw_subscription_count_matched_publishers, rmw_publisher_count_matched_subscriptions,
}
use https_github_com_nightdu.Handles.Nodes.{rmw_destroy_node}
use https_github_com_nightdu.Handles.Services.{
  rmw_create_service, rmw_destroy_service, rmw_create_client, rmw_destroy_client,
}
use https_github_com_nightdu.Handles.WaitSets.{rmw_destroy_wait_set}
use https_github_com_nightdu.Wait.{rmw_wait}
use https_github_com_nightdu.Handles.Attempts.{
  Attempt, publishes, borrows, takes, takes_with_info, takes_loan, takes_loan_with_info,
  takes_sequence, returns_taken, asks_gid, asks_publisher_qos, asks_subscription_qos,
  counts_publishers, counts_subscriptions, destroys_publisher, destroys_subscription,
  creates_publisher, creates_subscription, creates_service, creates_client, destroys_node,
  destroys_service, destroys_client, waits, destroys_wait_set, owner, Refuses,
}

refuse_twice :
    {R : Type 0} (b c : Bool) (r : R) (k : Unit {0} → Body R R) (w : World)
    → c ≡ true
    → finish ((return_if b r >>= λ _. return_if c r >>= k) w) ≡ done r w
refuse_twice true c r k w bad = refl
refuse_twice false c r k w bad = rw bad refl

-- A call whose handle belongs to another implementation is refused with
-- RMW_RET_INCORRECT_RMW_IMPLEMENTATION, or with NULL where it would create a handle in the foreign
-- node: no slot, block, queue or descriptor is touched and no counter advanced, and what the
-- arguments point to stays as it was. That is so for the calls of an `Attempt`, if no argument is
-- NULL.
pub call-Refuses :
    (env : Env) (w : World) (a : Attempt) → is_foreign (owner a) ≡ true → Refuses env w a
unfolding rmw_publish rmw_borrow_loaned_message rmw_take rmw_take_with_info rmw_take_loaned_message
    rmw_take_loaned_message_with_info rmw_take_sequence rmw_return_loaned_message_from_subscription
    rmw_get_gid_for_publisher rmw_publisher_get_actual_qos rmw_subscription_get_actual_qos
    rmw_subscription_count_matched_publishers rmw_publisher_count_matched_subscriptions
    rmw_destroy_publisher rmw_destroy_subscription rmw_create_publisher rmw_create_subscription
    rmw_create_service rmw_create_client rmw_destroy_node rmw_destroy_service rmw_destroy_client
    rmw_wait rmw_destroy_wait_set
call-Refuses env w (publishes e m) bad = rw bad refl
call-Refuses env w (borrows e ts p) bad = rw bad refl
call-Refuses env w (takes e m b) bad = rw bad refl
call-Refuses env w (takes_with_info e m b) bad = rw bad refl
call-Refuses env w (takes_loan e p b) bad = rw bad refl
call-Refuses env w (takes_loan_with_info e p b) bad = rw bad refl
call-Refuses env w (takes_sequence e n ms is k) bad = rw bad refl
call-Refuses env w (returns_taken e p) bad = rw bad refl
call-Refuses env w (asks_gid e g) bad = rw bad refl
call-Refuses env w (asks_publisher_qos e q) bad = rw bad refl
call-Refuses env w (asks_subscription_qos e q) bad = rw bad refl
call-Refuses env w (counts_publishers e n) bad = rw bad refl
call-Refuses env w (counts_subscriptions e n) bad = rw bad refl
call-Refuses env w (destroys_publisher n e) bad =
    refuse_twice (is_foreign n.implementation_identifier) _ _ _ w bad
call-Refuses env w (destroys_subscription n e) bad =
    refuse_twice (is_foreign n.implementation_identifier) _ _ _ w bad
call-Refuses env w (creates_publisher n ts t q p) bad = rw bad refl
call-Refuses env w (creates_subscription n ts t q p) bad = rw bad refl
call-Refuses env w (creates_service n t q) bad = rw bad refl
call-Refuses env w (creates_client n t q) bad = rw bad refl
call-Refuses env w (destroys_node n) bad = rw bad refl
call-Refuses env w (destroys_service n s) bad =
    refuse_twice (is_foreign n.implementation_identifier) _ _ _ w bad
call-Refuses env w (destroys_client n s) bad =
    refuse_twice (is_foreign n.implementation_identifier) _ _ _ w bad
call-Refuses env w (waits s ws t) bad = rw bad refl
call-Refuses env w (destroys_wait_set ws) bad = rw bad refl
