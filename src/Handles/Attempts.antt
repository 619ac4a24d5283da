-- ===== src/Handles/Attempts.antt =====
-- Calls with a handle, and what it is for one to refuse the handle.
use https_github_com_nightdu.Base.{ℕ, Bool, suc, ◌≡◌, Option, none, some}
use https_github_com_nightdu.Platform.{
  Ptr, Text, Bytes, incorrect_rmw_implementation, Identifier, Gid, QosProfile, Time, Endpoint, Node,
  ServiceHandle, WaitSet, Env, World, done,
}
use https_github_com_nightdu.Typesupport.{TypeSupport}
use https_github_com_nightdu.Publisher.Create.{rmw_create_publisher, rmw_destroy_publisher}
use https_github_com_nightdu.Publisher.Send.{rmw_publish, rmw_borrow_loaned_message}
use https_github_com_nightdu.Subscription.Create.{rmw_create_subscription, rmw_destroy_subscription}
use https_github_com_nightdu.Subscription.Receive.{
  rmw_take, rmw_take_with_info, rmw_take_loaned_message, rmw_take_loaned_message_with_info,
  rmw_return_loaned_message_from_subscription,
}
use https_github_com_nightdu.Subscription.Sequence.{
  MessageSequence, InfoSequence, rmw_take_sequence,
}
use https_github_com_nightdu.Queries.{
  rmw_get_gid_for_publisher, rmw_publisher_get_actual_qos, rmw_subscription_get_actual_qos,
  rmw_subscription_count_matched_publishers, rmw_publisher_count_matched_subscriptions,
}
use https_github_com_nightdu.Handles.Nodes.{rmw_destroy_node}
use https_github_com_nightdu.Handles.Services.{
  rmw_create_service, rmw_destroy_service, rmw_create_client, rmw_destroy_client,
}
use https_github_com_nightdu.Handles.WaitSets.{rmw_destroy_wait_set}
use https_github_com_nightdu.Wait.Sets.{Waitables}
use https_github_com_nightdu.Wait.{rmw_wait}

-- A call with a handle, and with no argument NULL.
pub data Attempt : Type 0 where
  publishes : Endpoint → Bytes → Attempt
  borrows : Endpoint → TypeSupport → Ptr → Attempt
  takes takes_with_info : Endpoint → Bytes → Bool → Attempt
  takes_loan takes_loan_with_info : Endpoint → Ptr → Bool → Attempt
  takes_sequence : Endpoint → ℕ → MessageSequence → InfoSequence → ℕ → Attempt
  returns_taken : Endpoint → Ptr → Attempt
  asks_gid : Endpoint → Option Gid → Attempt
  asks_publisher_qos asks_subscription_qos : Endpoint → QosProfile → Attempt
  counts_publishers counts_subscriptions : Endpoint → ℕ → Attempt
  destroys_publisher destroys_subscription : Node → Endpoint → Attempt
  creates_publisher creates_subscription : Node → TypeSupport → Text → QosProfile → Ptr → Attempt
  creates_service creates_client : Node → Text → QosProfile → Attempt
  destroys_node : Node → Attempt
  destroys_service destroys_client : Node → ServiceHandle → Attempt
  waits : Waitables → WaitSet → Option Time → Attempt
  destroys_wait_set : WaitSet → Attempt

-- The identifier of the handle that the call is made with.
abbrev pub owner : Attempt → Identifier
owner (publishes e m) = e.implementation_identifier
owner (borrows e ts p) = e.implementation_identifier
owner (takes e m b) = e.implementation_identifier
owner (takes_with_info e m b) = e.implementation_identifier
owner (takes_loan e p b) = e.implementation_identifier
owner (takes_loan_with_info e p b) = e.implementation_identifier
owner (takes_sequence e n ms is k) = e.implementation_identifier
owner (returns_taken e p) = e.implementation_identifier
owner (asks_gid e g) = e.implementation_identifier
owner (asks_publisher_qos e q) = e.implementation_identifier
owner (asks_subscription_qos e q) = e.implementation_identifier
owner (counts_publishers e n) = e.implementation_identifier
owner (counts_subscriptions e n) = e.implementation_identifier
owner (destroys_publisher n e) = e.implementation_identifier
owner (destroys_subscription n e) = e.implementation_identifier
owner (creates_publisher n ts t q p) = n.implementation_identifier
owner (creates_subscription n ts t q p) = n.implementation_identifier
owner (creates_service n t q) = n.implementation_identifier
owner (creates_client n t q) = n.implementation_identifier
owner (destroys_node n) = n.implementation_identifier
owner (destroys_service n s) = s.implementation_identifier
owner (destroys_client n s) = s.implementation_identifier
owner (waits s ws t) = ws.implementation_identifier
owner (destroys_wait_set ws) = ws.implementation_identifier

-- The call refuses the handle: no call leaves the library, and what the arguments point to stays.
abbrev pub Refuses : Env → World → Attempt → Type 0
Refuses env w (publishes e m) =
    rmw_publish env (some e) (some m) w ≡ done incorrect_rmw_implementation w
Refuses env w (borrows e ts p) =
    rmw_borrow_loaned_message env (some e) (some ts) (some p) w
    ≡ done (incorrect_rmw_implementation, some p) w
Refuses env w (takes e m b) =
    rmw_take env (some e) (some m) (some b) w
    ≡ done (record { ret = incorrect_rmw_implementation; message = some m; taken = some b }) w
Refuses env w (takes_with_info e m b) =
    rmw_take_with_info env (some e) (some m) (some b) (some tt) w
    ≡ done (record { ret = incorrect_rmw_implementation; message = some m; taken = some b }) w
Refuses env w (takes_loan e p b) =
    rmw_take_loaned_message env (some e) (some p) (some b) w
    ≡ done (record { ret = incorrect_rmw_implementation; message = some p; taken = some b }) w
Refuses env w (takes_loan_with_info e p b) =
    rmw_take_loaned_message_with_info env (some e) (some p) (some b) (some tt) w
    ≡ done (record { ret = incorrect_rmw_implementation; message = some p; taken = some b }) w
Refuses env w (takes_sequence e n ms is k) =
    rmw_take_sequence env (some e) n (some ms) (some is) (some k) w
    ≡ done
        (record {
          ret = incorrect_rmw_implementation;
          messages = some ms;
          infos = some is;
          taken = some k;
        })
        w
Refuses env w (returns_taken e p) =
    rmw_return_loaned_message_from_subscription env (some e) (suc p) w
    ≡ done incorrect_rmw_implementation w
Refuses env w (asks_gid e g) =
    rmw_get_gid_for_publisher env (some e) (some g) w
    ≡ done (incorrect_rmw_implementation, some g) w
Refuses env w (asks_publisher_qos e q) =
    rmw_publisher_get_actual_qos env (some e) (some q) w
    ≡ done (incorrect_rmw_implementation, some q) w
Refuses env w (asks_subscription_qos e q) =
    rmw_subscription_get_actual_qos env (some e) (some q) w
    ≡ done (incorrect_rmw_implementation, some q) w
Refuses env w (counts_publishers e n) =
    rmw_subscription_count_matched_publishers env (some e) (some n) w
    ≡ done (incorrect_rmw_implementation, some n) w
Refuses env w (counts_subscriptions e n) =
    rmw_publisher_count_matched_subscriptions env (some e) (some n) w
    ≡ done (incorrect_rmw_implementation, some n) w
Refuses env w (destroys_publisher n e) =
    rmw_destroy_publisher env (some n) (some e) w ≡ done incorrect_rmw_implementation w
Refuses env w (destroys_subscription n e) =
    rmw_destroy_subscription env (some n) (some e) w ≡ done incorrect_rmw_implementation w
Refuses env w (creates_publisher n ts t q p) =
    rmw_create_publisher env (some n) (some ts) (some t) (some q) (some p) w ≡ done none w
Refuses env w (creates_subscription n ts t q p) =
    rmw_create_subscription env (some n) (some ts) (some t) (some q) (some p) w ≡ done none w
Refuses env w (creates_service n t q) =
    rmw_create_service env (some n) (some tt) (some t) (some q) w ≡ done none w
Refuses env w (creates_client n t q) =
    rmw_create_client env (some n) (some tt) (some t) (some q) w ≡ done none w
Refuses env w (destroys_node n) =
    rmw_destroy_node env (some n) w ≡ done incorrect_rmw_implementation w
Refuses env w (destroys_service n s) =
    rmw_destroy_service env (some n) (some s) w ≡ done incorrect_rmw_implementation w
Refuses env w (destroys_client n s) =
    rmw_destroy_client env (some n) (some s) w ≡ done incorrect_rmw_implementation w
Refuses env w (waits s ws t) =
    rmw_wait env s (some ws) t w
    ≡ done (record { ret = incorrect_rmw_implementation; sets = s; wait_set = some ws }) w
Refuses env w (destroys_wait_set ws) =
    rmw_destroy_wait_set env (some ws) w ≡ done incorrect_rmw_implementation w
