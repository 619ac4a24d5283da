-- ===== src/Wait.antt =====
-- Waiting: src/rmw_wait.c, as it is built on Linux.
pub mod Epoll
pub mod Sets
pub mod Timeout
pub mod Loops
pub mod Result
pub mod Cleanup
use https_github_com_nightdu.Base.{
  ℕ, zero, suc, ◌+◌, ℤ, Bool, true, false, not, Option, none, some, List, [], ◌∷◌, ◌==◌, length,
  if◌then◌else◌,
}
use https_github_com_nightdu.Platform.{
  room_for, Ptr, RmwRet, ok, error, timeout, invalid_argument, incorrect_rmw_implementation,
  is_foreign, Time, PubSubData, GuardImpl, WaitSet, EpollEvent, Env, World, Outcome, Body, ◌>>=◌,
  ◌>>◌, run, call, return, tell, set_error, perror_printed, check_argument_for_null, return_if,
  pure, epoll_wait,
}
use Epoll.{
  add_subscriptions, add_guard_conditions, clear_epoll, read_events, keep_subscriptions,
  keep_guard_conditions,
}
use Sets.{Waitables, set_all_null}
use Timeout.{timeout_of}

-- The arrays and the wait set after the call, and what it returned.
pub record Waited : Type 0 where
  pub ret : RmwRet
  pub sets : Waitables
  pub wait_set : Option WaitSet

module _ (env : Env) where
  -- What follows `epoll_wait`: an error, a timeout, or a look at every entity.
  unfoldable pub after_wait : Waitables → WaitSet → Option (List EpollEvent) → Body Waited Waited
  unfolding clear_epoll read_events keep_subscriptions keep_guard_conditions set_all_null
  after_wait s ws none = do
    set_error "rmw_wait error in epoll_wait"
    tell (perror_printed "epoll_wait: ")
    return (record { ret = error; sets = s; wait_set = some ws })
  after_wait s ws (some []) = do
    call (clear_epoll env s.subscriptions s.guard_conditions ws.epollfd)
    return (record { ret = timeout; sets = set_all_null s; wait_set = some ws })
  after_wait s ws (some (e ∷ es)) = do
    room_for (length (e ∷ es)) ws.max_conditions
    read_events (e ∷ es)
    subscriptions ← keep_subscriptions env s.subscriptions
    guard_conditions ← keep_guard_conditions env s.guard_conditions
    let nulled = set_all_null s
    pure (record {
      ret = ok;
      sets = record nulled { subscriptions = subscriptions; guard_conditions = guard_conditions };
      wait_set = some ws;
    })

  unfoldable pub rmw_wait : Waitables → Option WaitSet → Option Time → World → Outcome Waited
  unfolding add_subscriptions add_guard_conditions timeout_of after_wait
  rmw_wait s wait_set wait_timeout = run do
    ws ←
        check_argument_for_null "wait_set" wait_set
          (record { ret = invalid_argument; sets = s; wait_set = wait_set })
    return_if (is_foreign ws.implementation_identifier)
        (record { ret = incorrect_rmw_implementation; sets = s; wait_set = wait_set })
    let fail : ℕ → RmwRet → Waited =
        λ len r. record { ret = r; sets = s; wait_set = some (record ws { len = len }) }
    n ← add_subscriptions env fail ws.epollfd s.subscriptions 0
    len ← add_guard_conditions env fail ws.epollfd s.guard_conditions n
    return_if (len == 0) (fail len timeout)
    let ws' : WaitSet = record ws { len = len }
    events ← epoll_wait env ws'.epollfd len (timeout_of wait_timeout)
    after_wait s ws' events
