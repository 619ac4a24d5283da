-- ===== src/Handles/GuardConditions.antt =====
-- src/rmw_guard_condition.c.
use https_github_com_nightdu.Base.{not, Option, none, some, ◌==◌}
use https_github_com_nightdu.Platform.{
  Ptr, RmwRet, ok, error, invalid_argument, rmw_get_implementation_identifier, GuardCondition,
  guard_condition_t, guard_condition_impl_t, by_free, guard_created, guard_destroyed, Env, World,
  Outcome, ◌>>=◌, ◌>>◌, run, tell, check_argument_for_null, fail_if, pure, allocate, free,
  write_trigger,
}
use https_github_com_nightdu.Wait.Epoll.{is_triggered}

module _ (env : Env) where
  -- The context is given by its address.
  unfoldable pub rmw_create_guard_condition : Option Ptr → World → Outcome (Option GuardCondition)
  rmw_create_guard_condition context = run do
    c ← check_argument_for_null "context" context none
    g ← allocate env guard_condition_t
    fail_if (g == 0) "failed to allocate memory for guard condition" none
    impl ← allocate env guard_condition_impl_t
    tell (guard_created impl)
    pure (
        some (record {
          address = g;
          implementation_identifier = rmw_get_implementation_identifier;
          context = c;
          impl = impl;
        }))

  unfoldable pub rmw_destroy_guard_condition : Option GuardCondition → World → Outcome RmwRet
  rmw_destroy_guard_condition guard_condition = run do
    g ← check_argument_for_null "guard_condition" guard_condition invalid_argument
    tell (guard_destroyed g.impl)
    free by_free g.impl
    free by_free g.address
    pure ok

  -- `write(...) < 1` is that the count written is not positive.
  unfoldable pub rmw_trigger_guard_condition : Option GuardCondition → World → Outcome RmwRet
  rmw_trigger_guard_condition guard_condition = run do
    g ← check_argument_for_null "guard_condition" guard_condition invalid_argument
    n ← write_trigger env g.impl
    fail_if (not (is_triggered n)) "Error triggering guard condition" error
    pure ok
