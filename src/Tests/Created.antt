-- ===== src/Tests/Created.antt =====
-- Publishers and subscriptions from their creation on.
use https_github_com_nightdu.Base.{◌≡◌, refl, true, false, [], ◌∷◌, some, none, map, arith, Option}
use https_github_com_nightdu.Platform.{
  keep_last, reliable, volatile, automatic, Env, error, Gid, World, ok, done, Endpoint, Outcome,
}
use https_github_com_nightdu.Gid.{generate_gid, rmw_compare_gids_equal}
use https_github_com_nightdu.Publisher.Create.{rmw_create_publisher}
use https_github_com_nightdu.Publisher.Send.{rmw_publish}
use https_github_com_nightdu.Subscription.Create.{rmw_create_subscription}
use https_github_com_nightdu.Channel.{room, queued, contents, channel}
use https_github_com_nightdu.Channel.Delivery.{publish_all, take_all}
use https_github_com_nightdu.Channel.Created.{take_all-publish_all_created}
use https_github_com_nightdu.Memory.Created.{FreesNothing}
use https_github_com_nightdu.Memory.Endpoints.{of_publisher, create-FreesNothing}
use https_github_com_nightdu.Queries.{rmw_get_gid_for_publisher, rmw_subscription_get_actual_qos}
use https_github_com_nightdu.Queries.Created.{
  Request, rmw_compare_gids_equal-rmw_create_publisher,
  rmw_subscription_get_actual_qos-rmw_create_subscription,
}
use https_github_com_nightdu.Simulation.{sim, sim_at, everyone, sim-Hazcat, empty_world, endpoint}
use https_github_com_nightdu.Tests.Topics.{hello, again, published}
use https_github_com_nightdu.Tests.Handles.{
  support, end, slash_a, qos, no_node, publisher_run, publisher, subscription_run, subscription,
  result,
}

abbrev request : Request
request = record {
  node = no_node;
  type_support = support;
  topic_name = slash_a;
  qos = qos;
  payload = 0;
}

abbrev next_run : Outcome (Option Endpoint)
unfolding rmw_create_publisher
next_run =
    rmw_create_publisher sim (some no_node) (some support) (some slash_a) (some qos) (some 0)
      (end publisher_run)

abbrev next_publisher : Endpoint
next_publisher = result (endpoint 1) next_run

rmw_compare_gids_equal-rmw_create_publisher_example :
    (g h : Gid) × (rmw_get_gid_for_publisher sim (some publisher) (some none) empty_world
      ≡ done (ok, some (some g)) empty_world)
    × (rmw_get_gid_for_publisher sim (some next_publisher) (some none) empty_world
        ≡ done (ok, some (some h)) empty_world)
    × (rmw_compare_gids_equal sim (some g) (some h) (some true) empty_world
        ≡ done (ok, some false) empty_world)
unfolding rmw_create_publisher generate_gid
rmw_compare_gids_equal-rmw_create_publisher_example =
    rmw_compare_gids_equal-rmw_create_publisher sim request request empty_world (end publisher_run)
      (end publisher_run) (end next_run) empty_world publisher next_publisher 0 (omega arith) refl
      refl (omega arith) refl

rmw_subscription_get_actual_qos-rmw_create_subscription_example :
    rmw_subscription_get_actual_qos sim (some subscription) (some qos) empty_world
    ≡ done
        (
          ok,
          some (record {
            history = keep_last;
            depth = 10;
            reliability = reliable;
            durability = volatile;
            deadline = record { sec = 0; nsec = 0 };
            lifespan = record { sec = 0; nsec = 0 };
            liveliness = automatic;
            liveliness_lease_duration = record { sec = 0; nsec = 0 };
            avoid_ros_namespace_conventions = false;
          }),
        )
        empty_world
unfolding rmw_create_subscription
rmw_subscription_get_actual_qos-rmw_create_subscription_example =
    rmw_subscription_get_actual_qos-rmw_create_subscription sim request empty_world
      (end subscription_run) empty_world subscription qos refl

abbrev publish_run : World
unfolding rmw_publish
publish_run = end (rmw_publish sim (some (endpoint 1)) (some again) published)

-- A publisher, then a subscription, then two publications.
abbrev writer_run : Outcome (Option Endpoint)
unfolding rmw_create_publisher
writer_run =
    rmw_create_publisher (sim_at 8) (some no_node) (some support) (some slash_a) (some qos) (some 0)
      empty_world

abbrev writer : Endpoint
writer = result (endpoint 1) writer_run

abbrev reader_run : Outcome (Option Endpoint)
unfolding rmw_create_subscription
reader_run =
    rmw_create_subscription (sim_at 8) (some no_node) (some support) (some slash_a) (some qos)
      (some 0) (end writer_run)

abbrev reader : Endpoint
reader = result (endpoint 1) reader_run

abbrev burst_run : World
unfolding publish_all rmw_publish
burst_run = end (publish_all (sim_at 8) writer (hello ∷ again ∷ []) (end reader_run))

take_all-publish_all_created_example :
    (w'' : World) × (take_all (sim_at 8) reader hello 2 burst_run
      ≡ done
          (map (λ m. record { ret = ok; message = some m; taken = some true }) (hello ∷ again ∷ []))
          w'')
    × (channel everyone 8 w''.calls ≡ [])
unfolding publish_all rmw_publish queued room contents channel rmw_create_publisher
    rmw_create_subscription
take_all-publish_all_created_example =
    take_all-publish_all_created (sim_at 8) everyone request request empty_world (end writer_run)
      (end reader_run) writer reader (sim-Hazcat 8) hello (hello ∷ again ∷ []) burst_run refl refl
      refl refl refl (refl, (refl, tt)) (omega arith) (omega arith) refl

-- A platform on which no publisher can be registered.
abbrev no_room : Env
no_room = record sim { register_publisher = λ h d topic. error }

abbrev failed_run : Outcome (Option Endpoint)
unfolding rmw_create_publisher
failed_run =
    rmw_create_publisher no_room (some no_node) (some support) (some slash_a) (some qos) (some 0)
      empty_world

create-FreesNothing_example : FreesNothing empty_world (end failed_run)
unfolding rmw_create_publisher
create-FreesNothing_example =
    create-FreesNothing of_publisher no_room (some no_node) (some support) (some slash_a) (some qos)
      (some 0) empty_world (end failed_run) refl
