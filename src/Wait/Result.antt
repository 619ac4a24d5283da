-- ===== src/Wait/Result.antt =====
-- What `rmw_wait` returns and what it leaves in the arrays.
use https_github_com_nightdu.Base.{
  ℕ, ◌≤◌, ◌+◌, ◌<◌, ◌≡◌, ℤ, Option, none, some, List, [], ◌∷◌, length,
}
use https_github_com_nightdu.Platform.{
  ok, error, timeout, Time, WaitSet, EpollEvent, History, Env, World, Outcome, done,
}
use https_github_com_nightdu.Wait.Sets.{Waitables, set_all_null, null_array}
use https_github_com_nightdu.Wait.Loops.{
  AllSmall, Stuck, of_subscription, of_guard_condition, array, Listens, kept, triggered,
}
use https_github_com_nightdu.Wait.Timeout.{timeout_of}
use https_github_com_nightdu.Wait.{Waited}

-- How many entities there are to wait on.
abbrev pub entries : Waitables → ℕ
entries s = length (array s.subscriptions) + length (array s.guard_conditions)

abbrev pub map_array :
    {A : Type 0}
    → (List (Option A) → List (Option A))
    → Option (List (Option A))
    → Option (List (Option A))
map_array f none = none
map_array f (some xs) = some (f xs)

-- What epoll answers to the one wait on all entries, after the given calls.
abbrev pub polled : Env → Waitables → WaitSet → Option Time → History → Option (List EpollEvent)
polled env s ws t h = env.wait_epoll h ws.epollfd (entries s) (timeout_of t)

-- The ways in which a wait ends, with what it leaves in the arrays.
pub data Verdict (env : Env) (s : Waitables) (ws : WaitSet) (t : Option Time) (w : World)
    (r : Waited) : Type 0 where
  subscription_fails :
      Stuck env ws.epollfd (of_subscription env) w.calls (array s.subscriptions)
      → r.ret ≡ error
      → r.sets ≡ s
      → Verdict env s ws t w r
  guard_condition_fails :
      (h : History)
      → Listens w.calls h
      → Stuck env ws.epollfd of_guard_condition h (array s.guard_conditions)
      → r.ret ≡ error
      → r.sets ≡ s
      → Verdict env s ws t w r
  nothing_to_wait_on : entries s ≡ 0 → r.ret ≡ timeout → r.sets ≡ s → Verdict env s ws t w r
  wait_fails :
      (h : History)
      → Listens w.calls h
      → 0 < entries s
      → polled env s ws t h ≡ none
      → r.ret ≡ error
      → r.sets ≡ s
      → Verdict env s ws t w r
  timed_out :
      (h : History)
      → Listens w.calls h
      → 0 < entries s
      → polled env s ws t h ≡ some []
      → r.ret ≡ timeout
      → r.sets ≡ set_all_null s
      → Verdict env s ws t w r
  ready :
      (h h' : History) (e : EpollEvent) (es : List EpollEvent)
      → Listens w.calls h
      → Listens h h'
      → 0 < entries s
      → polled env s ws t h ≡ some (e ∷ es)
      → r.ret ≡ ok
      → r.sets.subscriptions ≡ map_array (kept env h') s.subscriptions
      → r.sets.guard_conditions ≡ map_array (triggered env h') s.guard_conditions
      → r.sets.services ≡ null_array s.services
      → r.sets.clients ≡ null_array s.clients
      → r.sets.events ≡ null_array s.events
      → Verdict env s ws t w r

-- A call returned, and its result has a verdict.
abbrev pub Judged : Env → Waitables → WaitSet → Option Time → World → Outcome Waited → Type 0
Judged env s ws t w out = (r : Waited) × (w' : World) × (out ≡ done r w') × Verdict env s ws t w r

-- `epoll_wait`, as documented: it answers no more events than asked for, with flags that can be set
-- where only EPOLLIN is waited for.
abbrev pub IsEpoll : Env → Type 0
IsEpoll env =
    (h : History) (epollfd : ℤ) (n : ℕ) (t : ℤ) (es : List EpollEvent)
    → 0 < n
    → env.wait_epoll h epollfd n t ≡ some es
    → (length es ≤ n) × AllSmall es
