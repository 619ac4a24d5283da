-- ===== src/Wait/Loops.antt =====
-- What the loops of a wait do: they add every entry or give up, and never read through NULL once
-- every entry was added.
use https_github_com_nightdu.Base.{
  ℕ, true, false, leb, leb-true, ◌<◌, ◌+◌, ◌≡◌, refl, ap, ◌∙◌, ℤ, Option, none, some, List, [], ◌∷◌,
  ◌==◌, ◌⊎◌, inl, inr, length, if◌then◌else◌, arith, Bool-cases,
}
use https_github_com_nightdu.Platform.{
  RmwRet, error, PubSubData, GuardImpl, fd_data, ptr_data, EpollEvent, EpollData, ControlResult,
  epoll_waited, fd_read, epoll_added, trigger_counted, History, Env, World, Run, returned, next,
  error_set, perror_printed, log,
}
use https_github_com_nightdu.Wait.Epoll.{
  fd_of, not_added, is_triggered, read_events, add_each_subscription, add_each_guard_condition,
  keep_each_subscription, keep_each_guard_condition,
}

-- No entry is NULL.
abbrev pub AllSome : {A : Type 0} → List (Option A) → Type 0
AllSome [] = Unit {0}
AllSome (none ∷ xs) = ⊥
AllSome (some x ∷ xs) = AllSome xs

-- The entries of an array that may be NULL.
abbrev pub array : {A : Type 0} → Option (List (Option A)) → List (Option A)
array none = []
array (some xs) = xs

-- The calls by which a history grows while a wait sets up and sleeps.
pub data Listens (h : History) : History → Type 0 where
  same : Listens h h
  added :
      {h' : History} (epollfd : ℤ) (fd : ℕ) (user : EpollData) (r : ControlResult)
      → Listens h h'
      → Listens h (epoll_added epollfd fd user r ∷ h')
  waited :
      {h' : History} (epollfd : ℤ) (n : ℕ) (t : ℤ) (events : Option (List EpollEvent))
      → Listens h h'
      → Listens h (epoll_waited epollfd n t events ∷ h')
  read : {h' : History} (fd n : ℕ) → Listens h h' → Listens h (fd_read fd n ∷ h')

pub Listens-trans : {h h' h'' : History} → Listens h h' → Listens h' h'' → Listens h h''
Listens-trans l same = l
Listens-trans l (added epollfd fd user r m) = added epollfd fd user r (Listens-trans l m)
Listens-trans l (waited epollfd n t events m) = waited epollfd n t events (Listens-trans l m)
Listens-trans l (read fd n m) = read fd n (Listens-trans l m)

-- What the loop over the subscriptions adds for one of them, and the loop over guard conditions.
abbrev pub of_subscription : Env → PubSubData → ℕ × EpollData
of_subscription env d = (env.signalfd d, fd_data (env.signalfd d))

abbrev pub of_guard_condition : GuardImpl → ℕ × EpollData
of_guard_condition gc = (gc.pipe, ptr_data gc.address)

-- A loop that adds entries in order meets one that is NULL, or that epoll refuses.
pub data Stuck (env : Env) (epollfd : ℤ) {A : Type 0} (key : A → ℕ × EpollData)
    : History → List (Option A) → Type 0 where
  missing : {h : History} {xs : List (Option A)} → Stuck env epollfd key h (none ∷ xs)
  refused :
      {h : History} {xs : List (Option A)} (x : A)
      → not_added (env.add_epoll h epollfd (key x).0 (key x).1) ≡ true
      → Stuck env epollfd key h (some x ∷ xs)
  farther :
      {h : History} {xs : List (Option A)} (x : A)
      → not_added (env.add_epoll h epollfd (key x).0 (key x).1) ≡ false
      → Stuck env epollfd key
          (epoll_added epollfd (key x).0 (key x).1 (env.add_epoll h epollfd (key x).0 (key x).1)
            ∷ h)
          xs
      → Stuck env epollfd key h (some x ∷ xs)

-- A loop that adds entries got stuck and returned the failure of its caller, or added them all, and
-- none was NULL.
abbrev pub Added :
    {R A : Type 0}
    → Env
    → (ℕ → RmwRet → R)
    → ℤ
    → (A → ℕ × EpollData)
    → List (Option A)
    → ℕ
    → World
    → Run R ℕ
    → Type 0
Added env fail epollfd key xs len w out =
    (Stuck env epollfd key w.calls xs × (k : ℕ) × (w' : World) × (out ≡ returned (fail k error) w'))
    ⊎ ((w' : World) × (out ≡ next (len + length xs) w') × AllSome xs × Listens w.calls w'.calls)

module _ {R : Type 0} (env : Env) (fail : ℕ → RmwRet → R) (epollfd : ℤ) where
  Added-cons :
      {A : Type 0} (key : A → ℕ × EpollData) (x : A) (xs : List (Option A)) (len : ℕ) (w w₁ : World)
      (out out' : Run R ℕ)
      → Listens w.calls w₁.calls
      → (Stuck env epollfd key w₁.calls xs → Stuck env epollfd key w.calls (some x ∷ xs))
      → out ≡ out'
      → Added env fail epollfd key xs (len + 1) w₁ out'
      → Added env fail epollfd key (some x ∷ xs) len w out
  Added-cons key x xs len w w₁ out out' l on alike (inl (stuck, k, w', e)) =
      inl (on stuck, k, w', alike ∙ e)
  Added-cons key x xs len w w₁ out out' l on alike (inr (w', e, whole, m)) =
      inr (w', alike ∙ e ∙ ap (λ n. next n w') (omega arith), whole, Listens-trans l m)

  pub add_each_subscription-Added :
      (xs : List (Option PubSubData)) (len : ℕ) (w : World)
      → Added env fail epollfd
          (of_subscription env)
          xs
          len
          w
          (add_each_subscription env fail epollfd xs len w)
  unfolding add_each_subscription
  add_each_subscription-Added [] len w = inr (w, ap (λ n. next n w) (omega arith), tt, same)
  add_each_subscription-Added (none ∷ xs) len w = inl (missing, len, _, refl)
  add_each_subscription-Added (some x ∷ xs) len w =
      let c = env.add_epoll w.calls epollfd (env.signalfd x) (fd_data (env.signalfd x)) in
      let w₁ = log (epoll_added epollfd (env.signalfd x) (fd_data (env.signalfd x)) c) w in
      elim (Bool-cases (not_added c)) [
        | inl bad ↦ inl (
          refused x bad,
          len,
          log (error_set "Unable to wait on subscription") (log (perror_printed "epoll_ctl: ") w₁),
          rw bad,
        )
        | inr fine ↦
            Added-cons (of_subscription env) x xs len w w₁ _
              (add_each_subscription env fail epollfd xs (len + 1) w₁) (added _ _ _ _ same)
              (farther x fine) (rw fine) (add_each_subscription-Added xs (len + 1) w₁)
      ]

  pub add_each_guard_condition-Added :
      (xs : List (Option GuardImpl)) (len : ℕ) (w : World)
      → Added env fail epollfd of_guard_condition xs len w
          (add_each_guard_condition env fail epollfd xs len w)
  unfolding add_each_guard_condition
  add_each_guard_condition-Added [] len w = inr (w, ap (λ n. next n w) (omega arith), tt, same)
  add_each_guard_condition-Added (none ∷ xs) len w = inl (missing, len, _, refl)
  add_each_guard_condition-Added (some x ∷ xs) len w =
      let c = env.add_epoll w.calls epollfd x.pipe (ptr_data x.address) in
      let w₁ = log (epoll_added epollfd x.pipe (ptr_data x.address) c) w in
      elim (Bool-cases (not_added c)) [
        | inl bad ↦ inl (
          refused x bad,
          len,
          log (error_set "Unable to wait on guard condition")
              (log (perror_printed "epoll_ctl: ") w₁),
          rw bad,
        )
        | inr fine ↦
            Added-cons of_guard_condition x xs len w w₁ _
              (add_each_guard_condition env fail epollfd xs (len + 1) w₁) (added _ _ _ _ same)
              (farther x fine) (rw fine) (add_each_guard_condition-Added xs (len + 1) w₁)
      ]

-- Of the flags of each event only those below EPOLLNVAL are set, which are EPOLLIN, EPOLLPRI,
-- EPOLLOUT, EPOLLERR and EPOLLHUP.
abbrev pub AllSmall : List EpollEvent → Type 0
AllSmall [] = Unit {0}
AllSmall (e ∷ es) = (e.flags < 32) × AllSmall es

-- The subscriptions with a message to take: their next index is not that of their queue.
abbrev pub kept : Env → History → List (Option PubSubData) → List (Option PubSubData)
kept env h [] = []
kept env h (none ∷ xs) = none ∷ kept env h xs
kept env h (some d ∷ xs) =
    (if env.next_index h d == env.queue_index h d then none else some d) ∷ kept env h xs

-- The guard conditions that were triggered, each asked once, in order.
abbrev pub triggered : Env → History → List (Option GuardImpl) → List (Option GuardImpl)
triggered env h [] = []
triggered env h (none ∷ xs) = none ∷ triggered env h xs
triggered env h (some gc ∷ xs) =
    (if is_triggered (env.count_triggers h gc.address) then some gc else none)
    ∷ triggered env (trigger_counted gc.address (env.count_triggers h gc.address) ∷ h) xs

module _ {R : Type 0} (env : Env) where
  pub keep_each_subscription-kept :
      (xs : List (Option PubSubData)) (w : World)
      → AllSome xs
      → keep_each_subscription {R = R} env xs w ≡ next (kept env w.calls xs) w
  unfolding keep_each_subscription
  keep_each_subscription-kept [] w whole = refl
  keep_each_subscription-kept (none ∷ xs) w whole = absurd whole
  keep_each_subscription-kept (some d ∷ xs) w whole = rw (keep_each_subscription-kept xs w whole)

  pub keep_each_guard_condition-triggered :
      (xs : List (Option GuardImpl)) (w : World)
      → AllSome xs
      → (w' : World) × (keep_each_guard_condition {R = R} env xs w
          ≡ next (triggered env w.calls xs) w')
  unfolding keep_each_guard_condition
  keep_each_guard_condition-triggered [] w whole = (w, refl)
  keep_each_guard_condition-triggered (none ∷ xs) w whole = absurd whole
  keep_each_guard_condition-triggered (some gc ∷ xs) w whole =
      let n = env.count_triggers w.calls gc.address in
      let (w', e) =
        keep_each_guard_condition-triggered xs (log (trigger_counted gc.address n) w) whole in
      (w', rw e)

  pub read_events-next :
      (es : List EpollEvent) (w : World)
      → AllSmall es
      → (w' : World) × (read_events {R = R} es w ≡ next tt w') × Listens w.calls w'.calls
  unfolding read_events
  read_events-next [] w small = (w, refl, same)
  read_events-next (e ∷ es) w small =
      let (w', out, l) = read_events-next es (log (fd_read (fd_of e.user) e.flags) w) small.1 in
      let fits : leb e.flags 4096 ≡ true = leb-true e.flags 4096 (omega (arith, small.0)) in
      (w', rw fits out, Listens-trans (read _ _ same) l)
