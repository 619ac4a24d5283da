-- ===== src/Handles/Nodes.antt =====
-- Nodes: `rmw_create_node`, `rmw_destroy_node` and `rmw_node_get_graph_guard_condition` of
-- src/rmw_node.c.
use https_github_com_nightdu.Base.{
  ◌+◌, not, Option, none, some, length, ◌==◌, Bool, true, false, String,
}
use https_github_com_nightdu.Platform.{
  Ptr, Text, RmwRet, ok, invalid_argument, incorrect_rmw_implementation, is_ok,
  rmw_get_implementation_identifier, is_foreign, Context, GuardCondition, Node, node_t, node_info_t,
  chars, by_free, Env, World, Outcome, Body, ◌>>=◌, ◌>>◌, run, call, return, set_error,
  check_argument_for_null, return_if, fail_if, pure, allocate, free,
}
use https_github_com_nightdu.Handles.GuardConditions.{rmw_create_guard_condition}

abbrev orelse : {R A : Type 0} → Option A → R → Body R A
orelse none r = return r
orelse (some a) r = pure a

module _ (env : Env) where
  -- The context comes with its address.
  unfoldable pub rmw_create_node :
      Option (Ptr × Context) → Option Text → Option Text → World → Outcome (Option Node)
  unfolding rmw_create_guard_condition
  rmw_create_node context name namespace_ = run do
    c ← check_argument_for_null "context" context none
    text ← check_argument_for_null "name" name none
    space ← check_argument_for_null "namespace_" namespace_ none
    return_if (is_foreign c.1.implementation_identifier) none
    fail_if (c.1.impl == 0) "context has been shutdown" none
    let named = env.validate_node_name text
    return_if (not (is_ok named.0)) none
    fail_if (not named.1) "invalid node name: %s" none
    let spaced = env.validate_namespace space
    return_if (not (is_ok spaced.0)) none
    fail_if (not spaced.1) "invalid node namespace: %s" none
    n ← allocate env node_t
    fail_if (n == 0) "failed to allocate memory for node handle" none
    d ← allocate env node_info_t
    fail_if (d == 0) "failed to allocate memory for node handle" none
    created ← call (rmw_create_guard_condition env (some c.0))
    guard ← orelse created none
    t ← allocate env (chars (length text + 1))
    give_up (t == 0) "failed to allocate memory for node name string" (free by_free n)
    s ← allocate env (chars (length space + 1))
    give_up (s == 0) "failed to allocate memory for node namespace string"
        (free by_free t >> free by_free n)
    pure (
        some (record {
          address = n;
          implementation_identifier = rmw_get_implementation_identifier;
          info = d;
          guard_condition = guard;
          name = record { address = t; text = env.format (length text + 1) text };
          namespace_ = record { address = s; text = env.format (length space + 1) space };
          context = c.0;
        }))
    where
      give_up : Bool → String → Body (Option Node) (Unit {0}) → Body (Option Node) (Unit {0})
      give_up failed message undo = elim failed [
        | true ↦ set_error message >> undo >> return none
        | false ↦ pure tt
      ]

  unfoldable pub rmw_destroy_node : Option Node → World → Outcome RmwRet
  rmw_destroy_node node = run do
    n ← check_argument_for_null "node" node invalid_argument
    return_if (is_foreign n.implementation_identifier) incorrect_rmw_implementation
    free by_free n.namespace_.address
    free by_free n.name.address
    free by_free n.info
    free by_free n.address
    pure ok

  unfoldable pub rmw_node_get_graph_guard_condition :
      Option Node → World → Outcome (Option GuardCondition)
  rmw_node_get_graph_guard_condition node =
      run do n ← check_argument_for_null "node" node none; pure (some n.guard_condition)
