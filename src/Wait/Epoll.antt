-- ===== src/Wait/Epoll.antt =====
-- The loops of src/rmw_wait.c over subscriptions and guard conditions.
use https_github_com_nightdu.Base.{
  ℕ, zero, suc, ◌+◌, ◌%◌, ◌^◌, ℤ, pos, negsuc, Bool, true, false, String, Option, none, some, List,
  [], ◌∷◌, ◌==◌, if◌then◌else◌,
}
use https_github_com_nightdu.Platform.{
  room_for, RmwRet, error, PubSubData, GuardImpl, EpollData, fd_data, ptr_data, EpollEvent,
  ControlResult, control_ok, control_exist, control_noent, Env, World, Outcome, faulted, next, Body,
  ◌>>=◌, ◌>>◌, run, return, tell, set_error, perror_printed, fd_read, check_argument_for_null, pure,
  epoll_ctl_add, epoll_ctl_del, guard_condition_trigger_count,
}

-- -1 == epoll_ctl(...) && EEXIST != errno
abbrev pub not_added : ControlResult → Bool
not_added control_ok = false
not_added control_exist = false
not_added _ = true

-- epoll_ctl(...) == -1 && errno != ENOENT
abbrev pub not_deleted : ControlResult → Bool
not_deleted control_ok = false
not_deleted control_noent = false
not_deleted _ = true

-- The member `fd` of the union.
abbrev pub fd_of : EpollData → ℕ
fd_of (fd_data n) = n
fd_of (ptr_data p) = p % 2 ^ 32

abbrev pub is_triggered : ℤ → Bool
is_triggered (pos zero) = false
is_triggered (pos (suc n)) = true
is_triggered (negsuc n) = false

module _ {R : Type 0} where
  -- for (i < ready) read(evlist[i].data.fd, buffer, evlist[i].events), into a buffer of 4096 bytes
  unfoldable pub read_events : List EpollEvent → Body R (Unit {0})
  read_events [] = pure tt
  read_events (e ∷ es) = do
    room_for e.flags 4096
    tell (fd_read (fd_of e.user) e.flags)
    read_events es

  abbrev give_up : Bool → String → R → Body R (Unit {0})
  give_up failed message r =
      if failed
      then (do tell (perror_printed "epoll_ctl: "); set_error message; return r)
      else pure tt

  module _ (env : Env) (fail : ℕ → RmwRet → R) (epollfd : ℤ) where
    unfoldable pub add_each_subscription : List (Option PubSubData) → ℕ → Body R ℕ
    add_each_subscription [] len = pure len
    add_each_subscription (x ∷ xs) len = do
      sub ← check_argument_for_null "subscriptions->subscribers[i]" x (fail len error)
      c ← epoll_ctl_add env epollfd (env.signalfd sub) (fd_data (env.signalfd sub))
      give_up (not_added c) "Unable to wait on subscription" (fail len error)
      add_each_subscription xs (len + 1)

    unfoldable pub add_subscriptions : Option (List (Option PubSubData)) → ℕ → Body R ℕ
    unfolding add_each_subscription
    add_subscriptions none len = pure len
    add_subscriptions (some xs) len = add_each_subscription xs len

    unfoldable pub add_each_guard_condition : List (Option GuardImpl) → ℕ → Body R ℕ
    add_each_guard_condition [] len = pure len
    add_each_guard_condition (x ∷ xs) len = do
      gc ← check_argument_for_null "guard_conditions->guard_conditions[i]" x (fail len error)
      c ← epoll_ctl_add env epollfd gc.pipe (ptr_data gc.address)
      give_up (not_added c) "Unable to wait on guard condition" (fail len error)
      add_each_guard_condition xs (len + 1)

    unfoldable pub add_guard_conditions : Option (List (Option GuardImpl)) → ℕ → Body R ℕ
    unfolding add_each_guard_condition
    add_guard_conditions none len = pure len
    add_guard_conditions (some xs) len = add_each_guard_condition xs len

  module _ (env : Env) where
    -- A subscription stays if its next index is not that of its queue.
    unfoldable pub keep_each_subscription :
        List (Option PubSubData) → Body R (List (Option PubSubData))
    keep_each_subscription [] = pure []
    keep_each_subscription (none ∷ xs) = λ w. faulted
    keep_each_subscription (some sub ∷ xs) = do
      x ← λ w.
          next
            (if env.next_index w.calls sub == env.queue_index w.calls sub then none else some sub) w
      rest ← keep_each_subscription xs
      pure (x ∷ rest)

    unfoldable pub keep_subscriptions :
        Option (List (Option PubSubData)) → Body R (Option (List (Option PubSubData)))
    unfolding keep_each_subscription
    keep_subscriptions none = pure none
    keep_subscriptions (some xs) = do xs' ← keep_each_subscription xs; pure (some xs')

    -- A guard condition stays if it was triggered.
    unfoldable pub keep_each_guard_condition :
        List (Option GuardImpl) → Body R (List (Option GuardImpl))
    keep_each_guard_condition [] = pure []
    keep_each_guard_condition (none ∷ xs) = λ w. faulted
    keep_each_guard_condition (some gc ∷ xs) = do
      n ← guard_condition_trigger_count env gc.address
      rest ← keep_each_guard_condition xs
      pure ((if is_triggered n then some gc else none) ∷ rest)

    unfoldable pub keep_guard_conditions :
        Option (List (Option GuardImpl)) → Body R (Option (List (Option GuardImpl)))
    unfolding keep_each_guard_condition
    keep_guard_conditions none = pure none
    keep_guard_conditions (some xs) = do xs' ← keep_each_guard_condition xs; pure (some xs')

-- What `clear_epoll` returns, which its caller ignores: an error, or the end of the function.
abbrev pub Cleared : Type 0
Cleared = Unit {0}

module _ (env : Env) (epollfd : ℤ) where
  -- One round for each subscription, each of which looks at the first one.
  unfoldable pub delete_first :
      Option PubSubData → List (Option PubSubData) → Body Cleared (Unit {0})
  delete_first first [] = pure tt
  delete_first first (x ∷ xs) = do
    sub ← check_argument_for_null "subscriptions->subscribers[0]" first tt
    c ← epoll_ctl_del env epollfd (env.signalfd sub)
    (if not_deleted c
        then (do
          set_error "Unable to remove subscription from epoll"
          tell (perror_printed "epoll_ctl: ")
          return tt)
        else pure tt)
    delete_first first xs

  unfoldable pub delete_subscriptions : Option (List (Option PubSubData)) → Body Cleared (Unit {0})
  unfolding delete_first
  delete_subscriptions none = pure tt
  delete_subscriptions (some []) = pure tt
  delete_subscriptions (some (x ∷ xs)) = delete_first x (x ∷ xs)

  -- One round for each guard condition, each of which checks the first one for NULL.
  unfoldable pub delete_each : Option GuardImpl → List (Option GuardImpl) → Body Cleared (Unit {0})
  delete_each first [] = pure tt
  delete_each first (x ∷ xs) = do
    _ ← check_argument_for_null "guard_conditions->guard_conditions[0]" first tt
    gc ← pointee x
    c ← epoll_ctl_del env epollfd gc.pipe
    (if not_deleted c
        then (do
          set_error "Unable to remove guard condition from epoll"
          tell (perror_printed "epoll_ctl: ")
          return tt)
        else pure tt)
    delete_each first xs
    where
      pointee : Option GuardImpl → Body Cleared GuardImpl
      pointee none w = faulted
      pointee (some gc) w = next gc w

  unfoldable pub delete_guard_conditions :
      Option (List (Option GuardImpl)) → Body Cleared (Unit {0})
  unfolding delete_each
  delete_guard_conditions none = pure tt
  delete_guard_conditions (some []) = pure tt
  delete_guard_conditions (some (x ∷ xs)) = delete_each x (x ∷ xs)

unfoldable pub clear_epoll :
    Env
    → Option (List (Option PubSubData))
    → Option (List (Option GuardImpl))
    → ℤ
    → World
    → Outcome (Unit {0})
unfolding delete_subscriptions delete_guard_conditions
clear_epoll env subscriptions guard_conditions epollfd = run do
  delete_subscriptions env epollfd subscriptions
  delete_guard_conditions env epollfd guard_conditions
