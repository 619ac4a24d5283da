-- ===== src/Handles/WaitSets.antt =====
-- `rmw_create_wait_set` and `rmw_destroy_wait_set` of src/rmw_wait.c.
use https_github_com_nightdu.Base.{ℕ, Option, none, some, ◌==◌}
use https_github_com_nightdu.Platform.{
  Ptr, RmwRet, ok, error, incorrect_rmw_implementation, rmw_get_implementation_identifier,
  is_foreign, WaitSet, wait_set_t, waitset_t, by_free, fd_closed, Env, World, Outcome, ◌>>=◌, ◌>>◌,
  run, tell, check_argument_for_null, return_if, fail_if, pure, allocate, free, epoll_create,
}

module _ (env : Env) where
  -- `len` is not set here; `rmw_wait` sets it before it reads it.
  unfoldable pub rmw_create_wait_set : Option Ptr → ℕ → World → Outcome (Option WaitSet)
  rmw_create_wait_set context max_conditions = run do
    _ ← check_argument_for_null "context" context none
    ws ← allocate env (waitset_t max_conditions)
    fail_if (ws == 0) "Unable to allocate memory for waitset implementation" none
    epollfd ← epoll_create env max_conditions
    rmw_ws ← allocate env wait_set_t
    fail_if (rmw_ws == 0) "Unable to allocate memory for waitset implementation" none
    pure (
        some (record {
          address = rmw_ws;
          implementation_identifier = rmw_get_implementation_identifier;
          info = ws;
          epollfd = epollfd;
          max_conditions = max_conditions;
          len = 0;
        }))

  unfoldable pub rmw_destroy_wait_set : Option WaitSet → World → Outcome RmwRet
  rmw_destroy_wait_set wait_set = run do
    ws ← check_argument_for_null "wait_set" wait_set error
    return_if (is_foreign ws.implementation_identifier) incorrect_rmw_implementation
    tell (fd_closed ws.epollfd)
    free by_free ws.info
    free by_free ws.address
    pure ok
