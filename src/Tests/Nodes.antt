-- ===== src/Tests/Nodes.antt =====
-- Creating and destroying nodes, services, clients and wait sets, and events.
use https_github_com_nightdu.Base.{◌≡◌, refl, Option, none, some, [], ◌∷◌, true, pos}
use https_github_com_nightdu.Platform.{
  ok, Endpoint, Node, ServiceHandle, WaitSet, GuardCondition, rmw_get_implementation_identifier,
  identifier_function, null_identifier, is_foreign, Outcome,
}
use https_github_com_nightdu.Handles.GuardConditions.{
  rmw_create_guard_condition, rmw_destroy_guard_condition,
}
use https_github_com_nightdu.Handles.Nodes.{rmw_create_node, rmw_destroy_node}
use https_github_com_nightdu.Handles.WaitSets.{rmw_create_wait_set, rmw_destroy_wait_set}
use https_github_com_nightdu.Handles.Services.{
  rmw_create_service, rmw_destroy_service, rmw_create_client, rmw_destroy_client,
}
use https_github_com_nightdu.Handles.Events.{
  Event, rmw_publisher_event_init, rmw_subscription_event_init, rmw_event_init-is_foreign,
}
use https_github_com_nightdu.Handles.Blocks.{
  Moves, rmw_destroy_node-rmw_create_node, rmw_destroy_service-rmw_create_service,
  rmw_destroy_client-rmw_create_client, rmw_destroy_wait_set-rmw_create_wait_set,
}
use https_github_com_nightdu.Simulation.{sim, empty_world, endpoint}
use https_github_com_nightdu.Tests.Handles.{slash_a, qos, context, end, result, no_guard, no_node}

abbrev no_service : ServiceHandle
no_service = record {
  address = 0;
  implementation_identifier = rmw_get_implementation_identifier;
  info = 0;
  service_name = record { address = 0; text = [] };
}

abbrev no_wait_set : WaitSet
no_wait_set = record {
  address = 0;
  implementation_identifier = rmw_get_implementation_identifier;
  info = 0;
  epollfd = pos 0;
  max_conditions = 5;
  len = 0;
}

abbrev node_run : Outcome (Option Node)
unfolding rmw_create_node
node_run = rmw_create_node sim (some (5, context)) (some slash_a) (some slash_a) empty_world

abbrev node : Node
node = result no_node node_run

rmw_destroy_node-rmw_create_node_example :
    Moves
      (node.namespace_.address ∷ node.name.address ∷ node.guard_condition.impl
        ∷ node.guard_condition.address ∷ node.info ∷ node.address ∷ [])
      []
      empty_world
      (end node_run)
    × Moves []
        (node.address ∷ node.info ∷ node.name.address ∷ node.namespace_.address ∷ [])
        (end node_run)
        (end (rmw_destroy_node sim (some node) (end node_run)))
unfolding rmw_create_node rmw_destroy_node
rmw_destroy_node-rmw_create_node_example =
    rmw_destroy_node-rmw_create_node sim empty_world (end node_run) (end node_run)
      (end (rmw_destroy_node sim (some node) (end node_run))) node (some (5, context))
      (some slash_a) (some slash_a) refl refl

abbrev service_run : Outcome (Option ServiceHandle)
unfolding rmw_create_service
service_run = rmw_create_service sim (some no_node) (some tt) (some slash_a) (some qos) empty_world

abbrev service : ServiceHandle
service = result no_service service_run

rmw_destroy_service-rmw_create_service_example :
    Moves
      (service.service_name.address ∷ service.info ∷ service.address ∷ [])
      []
      empty_world
      (end service_run)
    × Moves []
        (service.address ∷ service.service_name.address ∷ service.info ∷ [])
        (end service_run)
        (end (rmw_destroy_service sim (some no_node) (some service) (end service_run)))
unfolding rmw_create_service rmw_destroy_service
rmw_destroy_service-rmw_create_service_example =
    rmw_destroy_service-rmw_create_service sim empty_world (end service_run) (end service_run)
      (end (rmw_destroy_service sim (some no_node) (some service) (end service_run))) service
      (some no_node) (some no_node) (some tt) (some slash_a) (some qos) refl refl

abbrev client_run : Outcome (Option ServiceHandle)
unfolding rmw_create_client
client_run = rmw_create_client sim (some no_node) (some tt) (some slash_a) (some qos) empty_world

abbrev client : ServiceHandle
client = result no_service client_run

rmw_destroy_client-rmw_create_client_example :
    Moves
      (client.service_name.address ∷ client.info ∷ client.address ∷ [])
      []
      empty_world
      (end client_run)
    × Moves []
        (client.address ∷ client.service_name.address ∷ client.info ∷ [])
        (end client_run)
        (end (rmw_destroy_client sim (some no_node) (some client) (end client_run)))
unfolding rmw_create_client rmw_destroy_client
rmw_destroy_client-rmw_create_client_example =
    rmw_destroy_client-rmw_create_client sim empty_world (end client_run) (end client_run)
      (end (rmw_destroy_client sim (some no_node) (some client) (end client_run))) client
      (some no_node) (some no_node) (some tt) (some slash_a) (some qos) refl refl

abbrev wait_set_run : Outcome (Option WaitSet)
unfolding rmw_create_wait_set
wait_set_run = rmw_create_wait_set sim (some 5) 4 empty_world

abbrev wait_set : WaitSet
wait_set = result no_wait_set wait_set_run

abbrev guard_run : Outcome (Option GuardCondition)
unfolding rmw_create_guard_condition
guard_run = rmw_create_guard_condition sim (some 5) empty_world

abbrev guard : GuardCondition
guard = result no_guard guard_run

rmw_destroy_wait_set-rmw_create_wait_set_example :
    (Moves (wait_set.address ∷ wait_set.info ∷ []) [] empty_world (end wait_set_run)
      × Moves []
          (wait_set.address ∷ wait_set.info ∷ [])
          (end wait_set_run)
          (end (rmw_destroy_wait_set sim (some wait_set) (end wait_set_run))))
    × (Moves (guard.impl ∷ guard.address ∷ []) [] empty_world (end guard_run)
        × Moves []
            (guard.address ∷ guard.impl ∷ [])
            (end guard_run)
            (end (rmw_destroy_guard_condition sim (some guard) (end guard_run))))
unfolding rmw_create_wait_set rmw_destroy_wait_set rmw_create_guard_condition
    rmw_destroy_guard_condition
rmw_destroy_wait_set-rmw_create_wait_set_example =
    rmw_destroy_wait_set-rmw_create_wait_set sim empty_world (end wait_set_run) (end wait_set_run)
      (end (rmw_destroy_wait_set sim (some wait_set) (end wait_set_run))) wait_set guard (some 5) 4
      empty_world (end guard_run) (end guard_run)
      (end (rmw_destroy_guard_condition sim (some guard) (end guard_run))) refl refl refl refl

-- What the two functions make of an event that held nothing.
abbrev event : Endpoint → Event
event e = record {
  event_type = 2;
  implementation_identifier = identifier_function;
  source = some e;
}

abbrev no_event : Event
no_event = record { event_type = 0; implementation_identifier = null_identifier; source = none }

rmw_event_init-is_foreign_example :
    (is_foreign (event (endpoint 1)).implementation_identifier ≡ true)
    × (is_foreign (event (endpoint 2)).implementation_identifier ≡ true)
unfolding rmw_publisher_event_init rmw_subscription_event_init
rmw_event_init-is_foreign_example =
    rmw_event_init-is_foreign no_event (event (endpoint 1)) no_event (event (endpoint 2))
      (endpoint 1) (endpoint 2) 2 2 ok ok empty_world empty_world empty_world empty_world refl refl
