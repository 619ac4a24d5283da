-- ===== src/Tests/Handles.antt =====
-- Creating and destroying handles.
use https_github_com_nightdu.Base.{◌≡◌, ℕ, refl, Option, none, some, [], ◌∷◌, false, pos}
use https_github_com_nightdu.Platform.{
  Text, Time, keep_last, reliable, volatile, automatic, QosProfile, Endpoint, Context, Node,
  GuardCondition, rmw_get_implementation_identifier, World, Outcome, done, fault,
}
use https_github_com_nightdu.Typesupport.{TypeSupport, members, nil}
use https_github_com_nightdu.Publisher.Create.{rmw_create_publisher, rmw_destroy_publisher}
use https_github_com_nightdu.Subscription.Create.{rmw_create_subscription, rmw_destroy_subscription}
use https_github_com_nightdu.Memory.Steps.{Allocates}
use https_github_com_nightdu.Memory.Endpoints.{
  Releases, rmw_destroy_publisher-rmw_create_publisher,
  rmw_destroy_subscription-rmw_create_subscription,
}
use https_github_com_nightdu.Publisher.Send.{
  rmw_borrow_loaned_message, rmw_return_loaned_message_from_publisher,
}
use https_github_com_nightdu.Channel.{queued}
use https_github_com_nightdu.Memory.Slots.{
  Lent, slots_out, slots_back, rmw_return_loaned_message_from_publisher-rmw_borrow_loaned_message,
}
use https_github_com_nightdu.Simulation.{sim, empty_world, endpoint, zero_options}

abbrev pub slash_a : Text
slash_a = b'/' ∷ b'a' ∷ []

abbrev moment : Time
moment = record { sec = 0; nsec = 0 }

abbrev pub qos : QosProfile
qos = record {
  history = keep_last;
  depth = 10;
  reliability = reliable;
  durability = volatile;
  deadline = moment;
  lifespan = moment;
  liveliness = automatic;
  liveliness_lease_duration = moment;
  avoid_ros_namespace_conventions = false;
}

abbrev pub support : TypeSupport
support = record {
  introspection_c = some (record { table = some (members 3 nil) });
  introspection_cpp = none;
}

abbrev pub context : Context
context = record {
  instance_id = 1;
  implementation_identifier = rmw_get_implementation_identifier;
  impl = 1;
  options = zero_options;
}

abbrev pub end : {R : Type 0} → Outcome R → World
end (done r w) = w
end fault = empty_world

abbrev pub result : {A : Type 0} → A → Outcome (Option A) → A
result a (done none w) = a
result a (done (some b) w) = b
result a fault = a

abbrev pub no_guard : GuardCondition
no_guard = record {
  address = 0;
  implementation_identifier = rmw_get_implementation_identifier;
  context = 0;
  impl = 0;
}

abbrev pub no_node : Node
no_node = record {
  address = 0;
  implementation_identifier = rmw_get_implementation_identifier;
  info = 0;
  guard_condition = no_guard;
  name = record { address = 0; text = [] };
  namespace_ = record { address = 0; text = [] };
  context = 5;
}

abbrev pub publisher_run : Outcome (Option Endpoint)
unfolding rmw_create_publisher
publisher_run =
    rmw_create_publisher sim (some no_node) (some support) (some slash_a) (some qos) (some 0)
      empty_world

abbrev pub publisher : Endpoint
publisher = result (endpoint 1) publisher_run

rmw_destroy_publisher-rmw_create_publisher_example :
    Allocates publisher empty_world (end publisher_run)
    × Releases publisher
        (end publisher_run)
        (end (rmw_destroy_publisher sim (some no_node) (some publisher) (end publisher_run)))
unfolding rmw_create_publisher rmw_destroy_publisher
rmw_destroy_publisher-rmw_create_publisher_example =
    rmw_destroy_publisher-rmw_create_publisher sim (some no_node) (some no_node) (some support)
      (some slash_a) (some qos) (some 0) empty_world (end publisher_run) (end publisher_run)
      (end (rmw_destroy_publisher sim (some no_node) (some publisher) (end publisher_run)))
      publisher refl refl

abbrev pub subscription_run : Outcome (Option Endpoint)
unfolding rmw_create_subscription
subscription_run =
    rmw_create_subscription sim (some no_node) (some support) (some slash_a) (some qos) (some 0)
      empty_world

abbrev pub subscription : Endpoint
subscription = result (endpoint 1) subscription_run

rmw_destroy_subscription-rmw_create_subscription_example :
    Allocates subscription empty_world (end subscription_run)
    × Releases subscription (end subscription_run) (
        end
          (rmw_destroy_subscription sim (some no_node) (some subscription) (end subscription_run)))
unfolding rmw_create_subscription rmw_destroy_subscription
rmw_destroy_subscription-rmw_create_subscription_example =
    rmw_destroy_subscription-rmw_create_subscription sim (some no_node) (some no_node)
      (some support) (some slash_a) (some qos) (some 0) empty_world (end subscription_run)
      (end subscription_run)
      (end (rmw_destroy_subscription sim (some no_node) (some subscription) (end subscription_run)))
      subscription refl refl

abbrev loan_run : World
unfolding rmw_borrow_loaned_message
loan_run =
    end (rmw_borrow_loaned_message sim (some (endpoint 1)) (some support) (some 0) empty_world)

abbrev return_run : World
unfolding rmw_return_loaned_message_from_publisher
return_run = end (rmw_return_loaned_message_from_publisher sim (some (endpoint 1)) 1 loan_run)

rmw_return_loaned_message_from_publisher-rmw_borrow_loaned_message_example :
    (o : ℕ) × Lent sim 9 1 o empty_world loan_run
    × (slots_out return_run.calls ≡ slots_out loan_run.calls)
    × (slots_back return_run.calls ≡ (9, pos o) ∷ slots_back loan_run.calls)
unfolding queued rmw_borrow_loaned_message rmw_return_loaned_message_from_publisher
rmw_return_loaned_message_from_publisher-rmw_borrow_loaned_message_example =
    rmw_return_loaned_message_from_publisher-rmw_borrow_loaned_message sim (endpoint 1) support 1
      empty_world loan_run loan_run return_run (λ o. refl) refl refl
