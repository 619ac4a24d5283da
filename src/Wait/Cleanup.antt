-- ===== src/Wait/Cleanup.antt =====
-- `clear_epoll` of src/rmw_wait.c: what it takes out of the epoll instance.
use https_github_com_nightdu.Base.{
  ℕ, suc, ◌≡◌, refl, ap, ◌∙◌, ℤ, Option, none, some, List, [], ◌∷◌, ◌++◌, ◌⊎◌, inl, inr, Bool-cases,
  replicate, replicate-append,
}
use https_github_com_nightdu.Platform.{
  PubSubData, GuardImpl, Call, epoll_deleted, error_set, perror_printed, History, Env, World, done,
  Run, returned, next, log, finish, and_then, pure,
}
use https_github_com_nightdu.Wait.Loops.{AllSome, array}
use https_github_com_nightdu.Wait.Epoll.{
  not_deleted, Cleared, delete_first, delete_each, delete_subscriptions, delete_guard_conditions,
  clear_epoll,
}

abbrev add_deletion : Call → List ℕ → List ℕ
add_deletion (epoll_deleted epollfd fd c) fds = fd ∷ fds
add_deletion (error_set message) fds = fds
add_deletion _ fds = fds

-- The file descriptors whose removal from epoll was asked for, newest first.
abbrev deletions : History → List ℕ
deletions [] = []
deletions (c ∷ h) = add_deletion c (deletions h)

-- A step of the clean-up ends, early or not, in a world of which a fact holds.
abbrev pub Ends : (World → Type 0) → Run Cleared (Unit {0}) → Type 0
Ends P out =
    ((w' : World) × (out ≡ returned tt w') × P w') ⊎ ((w' : World) × (out ≡ next tt w') × P w')

-- Only the descriptor `fd` was removed, some number of times.
abbrev pub Only : ℕ → World → World → Type 0
Only fd w w' = (k : ℕ) × (deletions w'.calls ≡ replicate k fd ++ deletions w.calls)

Only-trans :
    (fd : ℕ) (w w₁ w' : World)
    → deletions w₁.calls ≡ fd ∷ deletions w.calls
    → Only fd w₁ w'
    → Only fd w w'
Only-trans fd w w₁ w' one (k, more) =
    (suc k, more ∙ ap (λ l. replicate k fd ++ l) one ∙ replicate-append k fd (deletions w.calls))

Ends-step :
    (fd : ℕ) (w w₁ : World) (out out' : Run Cleared (Unit {0}))
    → out ≡ out'
    → deletions w₁.calls ≡ fd ∷ deletions w.calls
    → Ends (Only fd w₁) out'
    → Ends (Only fd w) out
Ends-step fd w w₁ out out' same one (inl (w', e, o)) =
    inl (w', same ∙ e, Only-trans fd w w₁ w' one o)
Ends-step fd w w₁ out out' same one (inr (w', e, o)) =
    inr (w', same ∙ e, Only-trans fd w w₁ w' one o)

module _ (env : Env) (epollfd : ℤ) where
  delete_first-Ends :
      (d : PubSubData) (xs : List (Option PubSubData)) (w : World)
      → Ends (Only (env.signalfd d) w) (delete_first env epollfd (some d) xs w)
  unfolding delete_first
  delete_first-Ends d [] w = inr (w, refl, (0, refl))
  delete_first-Ends d (x ∷ xs) w =
      let fd = env.signalfd d in
      let c = env.delete_epoll w.calls epollfd fd in
      let w₁ = log (epoll_deleted epollfd fd c) w in
      elim (Bool-cases (not_deleted c)) [
        | inl bad ↦ inl (
          log (perror_printed "epoll_ctl: ")
              (log (error_set "Unable to remove subscription from epoll") w₁),
          rw bad,
          (1, refl),
        )
        | inr fine ↦
            Ends-step fd w w₁ _ (delete_first env epollfd (some d) xs w₁) (rw fine) refl
              (delete_first-Ends d xs w₁)
      ]

  delete_each-Ends :
      (g : GuardImpl) (xs : List (Option GuardImpl)) (w : World)
      → AllSome xs
      → Ends (λ w'. Unit {0}) (delete_each env epollfd (some g) xs w)
  unfolding delete_each
  delete_each-Ends g [] w whole = inr (w, refl, tt)
  delete_each-Ends g (none ∷ xs) w whole = absurd whole
  delete_each-Ends g (some x ∷ xs) w whole =
      let c = env.delete_epoll w.calls epollfd x.pipe in
      let w₁ = log (epoll_deleted epollfd x.pipe c) w in
      elim (Bool-cases (not_deleted c)) [
        | inl bad ↦ inl (
          log (perror_printed "epoll_ctl: ")
              (log (error_set "Unable to remove guard condition from epoll") w₁),
          rw bad,
          tt,
        )
        | inr fine ↦ rw fine (delete_each-Ends g xs w₁ whole)
      ]

  -- `clear_epoll` on an array of subscriptions that begins with `d`, without guard conditions,
  -- returns, and asks epoll to remove no descriptor but that of `d`: no other subscription's
  -- descriptor, unless it is the same, leaves the epoll instance.
  pub clear_epoll-Only :
      (d : PubSubData) (xs : List (Option PubSubData)) (w : World)
      → (w' : World) × (clear_epoll env (some (some d ∷ xs)) none epollfd w ≡ done tt w')
        × Only (env.signalfd d) w w'
  unfolding clear_epoll
  clear_epoll-Only d xs w =
      ended (delete_first env epollfd (some d) (some d ∷ xs) w)
        (delete_first-Ends d (some d ∷ xs) w)
    where
      ended :
          (out : Run Cleared (Unit {0}))
          → Ends (Only (env.signalfd d) w) out
          → (w' : World) × (finish (and_then out (λ _. pure tt)) ≡ done tt w')
            × Only (env.signalfd d) w w'
      ended out (inl (w', e, o)) = (w', rw e, o)
      ended out (inr (w', e, o)) = (w', rw e, o)

  delete_subscriptions-Ends :
      (subs : Option (List (Option PubSubData))) (w : World)
      → AllSome (array subs)
      → Ends (λ w'. Unit {0}) (delete_subscriptions env epollfd subs w)
  unfolding delete_subscriptions
  delete_subscriptions-Ends none w s = inr (w, refl, tt)
  delete_subscriptions-Ends (some []) w s = inr (w, refl, tt)
  delete_subscriptions-Ends (some (none ∷ xs)) w s = absurd s
  delete_subscriptions-Ends (some (some d ∷ xs)) w s = forget (delete_first-Ends d (some d ∷ xs) w)
    where
      forget :
          {out : Run Cleared (Unit {0})}
          → Ends (Only (env.signalfd d) w) out
          → Ends (λ w'. Unit {0}) out
      forget (inl (w', e, o)) = inl (w', e, tt)
      forget (inr (w', e, o)) = inr (w', e, tt)

  delete_guard_conditions-Ends :
      (gcs : Option (List (Option GuardImpl))) (w : World)
      → AllSome (array gcs)
      → Ends (λ w'. Unit {0}) (delete_guard_conditions env epollfd gcs w)
  unfolding delete_guard_conditions
  delete_guard_conditions-Ends none w s = inr (w, refl, tt)
  delete_guard_conditions-Ends (some []) w s = inr (w, refl, tt)
  delete_guard_conditions-Ends (some (none ∷ xs)) w s = absurd s
  delete_guard_conditions-Ends (some (some g ∷ xs)) w s = delete_each-Ends g (some g ∷ xs) w s

  -- Where no entry is NULL it reads through no NULL either.
  pub clear_epoll-done :
      (subs : Option (List (Option PubSubData))) (gcs : Option (List (Option GuardImpl)))
      (w : World)
      → AllSome (array subs)
      → AllSome (array gcs)
      → (w' : World) × (clear_epoll env subs gcs epollfd w ≡ done tt w')
  unfolding clear_epoll
  clear_epoll-done subs gcs w s g = elim (delete_subscriptions-Ends subs w s) [
    | inl (w', e, _) ↦ (w', rw e)
    | inr (w₁, e, _) ↦ elim (delete_guard_conditions-Ends gcs w₁ g) [
      | inl (w', f, _) ↦ (w', rw (e, f))
      | inr (w', f, _) ↦ (w', rw (e, f))
    ]
  ]
