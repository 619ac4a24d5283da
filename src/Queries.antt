-- ===== src/Queries.antt =====
-- What the handles tell about themselves: gids, qos profiles and matched endpoints, of
-- src/rmw_publisher.c, src/rmw_subscription.c and src/rmw_count.c.
pub mod Graph
pub mod Info
pub mod Created
pub mod Unsupported
use https_github_com_nightdu.Base.{ℕ, ◌≡◌, refl, false, Option, none, some, arith}
use https_github_com_nightdu.Platform.{
  RmwRet, ok, invalid_argument, incorrect_rmw_implementation, is_foreign, Gid, Time, QosProfile,
  keep_last, reliable, volatile, automatic, Endpoint, Env, World, Outcome, done, ◌>>=◌, ◌>>◌, run,
  check_argument_for_null, return_if, pure,
}

abbrev zero_time : Time
zero_time = record { sec = 0; nsec = 0 }

-- The profile that both functions report, but for the depth.
abbrev pub actual_qos : ℕ → QosProfile
actual_qos depth = record {
  history = keep_last;
  depth = depth;
  reliability = reliable;
  durability = volatile;
  deadline = zero_time;
  lifespan = zero_time;
  liveliness = automatic;
  liveliness_lease_duration = zero_time;
  avoid_ros_namespace_conventions = false;
}

module _ (env : Env) where
  unfoldable pub rmw_get_gid_for_publisher :
      Option Endpoint → Option (Option Gid) → World → Outcome (RmwRet × Option (Option Gid))
  rmw_get_gid_for_publisher publisher gid = run do
    p ← check_argument_for_null "publisher" publisher (invalid_argument, gid)
    _ ← check_argument_for_null "gid" gid (invalid_argument, gid)
    return_if (is_foreign p.implementation_identifier) (incorrect_rmw_implementation, gid)
    pure (ok, some p.info.gid)

  unfoldable pub rmw_publisher_get_actual_qos :
      Option Endpoint → Option QosProfile → World → Outcome (RmwRet × Option QosProfile)
  rmw_publisher_get_actual_qos publisher qos w =
      run
        (do
          p ← check_argument_for_null "publisher" publisher (invalid_argument, qos)
          _ ← check_argument_for_null "qos" qos (invalid_argument, qos)
          return_if (is_foreign p.implementation_identifier) (incorrect_rmw_implementation, qos)
          pure (ok, some (actual_qos (env.queue_len w.calls p.info))))
        w

  unfoldable pub rmw_subscription_get_actual_qos :
      Option Endpoint → Option QosProfile → World → Outcome (RmwRet × Option QosProfile)
  rmw_subscription_get_actual_qos subscription qos = run do
    s ← check_argument_for_null "subscription" subscription (invalid_argument, qos)
    _ ← check_argument_for_null "qos" qos (invalid_argument, qos)
    return_if (is_foreign s.implementation_identifier) (incorrect_rmw_implementation, qos)
    pure (ok, some (actual_qos s.info.depth))

  unfoldable pub rmw_subscription_count_matched_publishers :
      Option Endpoint → Option ℕ → World → Outcome (RmwRet × Option ℕ)
  rmw_subscription_count_matched_publishers subscription publisher_count w =
      run
        (do
          s ←
              check_argument_for_null "subscription" subscription
                (invalid_argument, publisher_count)
          _ ←
              check_argument_for_null "publisher_count" publisher_count
                (invalid_argument, publisher_count)
          return_if (is_foreign s.implementation_identifier)
              (incorrect_rmw_implementation, publisher_count)
          pure (ok, some (env.queue_pub_count w.calls s.info)))
        w

  unfoldable pub rmw_publisher_count_matched_subscriptions :
      Option Endpoint → Option ℕ → World → Outcome (RmwRet × Option ℕ)
  rmw_publisher_count_matched_subscriptions publisher subscription_count w =
      run
        (do
          p ← check_argument_for_null "publisher" publisher (invalid_argument, subscription_count)
          _ ←
              check_argument_for_null "subscription_count" subscription_count
                (invalid_argument, subscription_count)
          return_if (is_foreign p.implementation_identifier)
              (incorrect_rmw_implementation, subscription_count)
          pure (ok, some (env.queue_sub_count w.calls p.info)))
        w
