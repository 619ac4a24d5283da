-- ===== src/Wait/Sets.antt =====
-- The arrays that a wait is given, and `set_all_null` of src/rmw_wait.c.
use https_github_com_nightdu.Base.{Option, none, some, List, [], ◌∷◌}
use https_github_com_nightdu.Platform.{Ptr, PubSubData, GuardImpl}

-- The five arrays, each of which may be NULL, of entries that may be NULL.
pub record Waitables : Type 0 where
  pub subscriptions : Option (List (Option PubSubData))
  pub guard_conditions : Option (List (Option GuardImpl))
  pub services : Option (List (Option Ptr))
  pub clients : Option (List (Option Ptr))
  pub events : Option (List (Option Ptr))

unfoldable pub null_entries : {A : Type 0} → List (Option A) → List (Option A)
null_entries [] = []
null_entries (x ∷ xs) = none ∷ null_entries xs

abbrev pub null_array : {A : Type 0} → Option (List (Option A)) → Option (List (Option A))
null_array none = none
null_array (some xs) = some (null_entries xs)

unfoldable pub set_all_null : Waitables → Waitables
set_all_null s = record {
  subscriptions = null_array s.subscriptions;
  guard_conditions = null_array s.guard_conditions;
  services = null_array s.services;
  clients = null_array s.clients;
  events = null_array s.events;
}
