-- ===== src/Handles/Events.antt =====
-- Events: src/rmw_event.c.
use https_github_com_nightdu.Base.{ℕ, ◌≡◌, true, Option, some, arith}
use https_github_com_nightdu.Platform.{
  RmwRet, ok, invalid_argument, Identifier, identifier_function, is_foreign, Endpoint, World,
  Outcome, done, ◌>>=◌, run, check_argument_for_null, pure,
}

-- `rmw_event_t`; the type of event is a number, and `source` is `data`.
pub record Event : Type 0 where
  pub event_type : ℕ
  pub implementation_identifier : Identifier
  pub source : Option Endpoint

-- The code stores the function itself, not what it returns.
unfoldable pub rmw_publisher_event_init :
    Option Event → Option Endpoint → ℕ → World → Outcome (RmwRet × Option Event)
rmw_publisher_event_init rmw_event publisher event_type = run do
  _ ← check_argument_for_null "rmw_event" rmw_event (invalid_argument, rmw_event)
  p ← check_argument_for_null "publisher" publisher (invalid_argument, rmw_event)
  pure (
    ok,
    some (record {
      event_type = event_type;
      implementation_identifier = identifier_function;
      source = some p;
    }),
  )

unfoldable pub rmw_subscription_event_init :
    Option Event → Option Endpoint → ℕ → World → Outcome (RmwRet × Option Event)
rmw_subscription_event_init rmw_event subscription event_type = run do
  _ ← check_argument_for_null "rmw_event" rmw_event (invalid_argument, rmw_event)
  s ← check_argument_for_null "subscription" subscription (invalid_argument, rmw_event)
  pure (
    ok,
    some (record {
      event_type = event_type;
      implementation_identifier = identifier_function;
      source = some s;
    }),
  )

-- Events that the two functions initialised, one for a publisher and one for a subscription, carry
-- an identifier that differs from what `rmw_get_implementation_identifier` returns.
pub rmw_event_init-is_foreign :
    (old e old' e' : Event) (p s : Endpoint) (t t' : ℕ) (r r' : RmwRet) (w w' v v' : World)
    → rmw_publisher_event_init (some old) (some p) t w ≡ done (r, some e) w'
    → rmw_subscription_event_init (some old') (some s) t' v ≡ done (r', some e') v'
    → (is_foreign e.implementation_identifier ≡ true)
      × (is_foreign e'.implementation_identifier ≡ true)
unfolding rmw_publisher_event_init rmw_subscription_event_init
rmw_event_init-is_foreign old e old' e' p s t t' r r' w w' v v' h k = ground arith
