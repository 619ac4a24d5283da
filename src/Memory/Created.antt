-- ===== src/Memory/Created.antt =====
-- What `rmw_create_publisher` and `rmw_create_subscription` return when they succeed, and what they
-- leave behind when they fail.
use https_github_com_nightdu.Base.{
  Bool, true, refl, false, ◌≡◌, ap, ◌∙◌, some, ◌∷◌, ◌==◌, ◌%◌, ◌^◌, ltb, if◌then◌else◌, none, ◌+◌,
  length, not,
}
use https_github_com_nightdu.Platform.{
  RmwRet, History, Ptr, Text, QosProfile, Node, Endpoint, Env, World, log, allocated,
  lock_initialised, publisher_registered, subscription_registered, PubSubData, chars, publisher_t,
  subscription_t, pub_sub_data_t, is_ok, is_foreign, is_history_unknown,
}
use https_github_com_nightdu.Gid.{gid_of}
use https_github_com_nightdu.Typesupport.{TypeSupport}
use https_github_com_nightdu.Publisher.Create.{rmw_create_publisher, size_or_zero}
use https_github_com_nightdu.Subscription.Create.{rmw_create_subscription}
use https_github_com_nightdu.Memory.{releases}
use https_github_com_nightdu.Memory.Steps.{
  Quiet, wire_size, Allocates, Made, return_if-Makes, fail_if-Makes, pure-Makes,
  check_full_topic_name-Makes, choose_allocator-Makes, sized-Makes,
}

-- No block was given back.
abbrev pub FreesNothing : World → World → Type 0
FreesNothing w w' = releases w'.calls ≡ releases w.calls

-- A new publisher: its blocks, its gid, its depth and the size of its messages.
abbrev pub IsPublisher : Env → TypeSupport → QosProfile → World → Endpoint → World → Type 0
IsPublisher env ts q w e w' =
    Allocates e w w'
    × (is_foreign e.implementation_identifier ≡ false)
    × (e.info.gid ≡ some (gid_of env ((w.dummy_guid + 1) % 2 ^ 64)))
    × (w'.dummy_guid ≡ (w.dummy_guid + 1) % 2 ^ 64)
    × (e.info.msg_size ≡ wire_size ts.introspection_c ts.introspection_cpp)
    × (e.info.depth ≡ (if ltb 1 q.depth then q.depth else 1))

not-false : (b : Bool) → not b ≡ false → b ≡ true
not-false true e = refl
not-false false e = cc

-- The last call registered the subscription, with success.
abbrev pub Registers : PubSubData → World → Type 0
Registers d w =
    (topic : Text) × (r : RmwRet) × (h : History) × (w.calls
      ≡ subscription_registered d topic r ∷ h)
    × (is_ok r ≡ true)

-- A new subscription: its blocks, its depth and the size of its messages; it was registered last.
abbrev pub IsSubscription : TypeSupport → QosProfile → World → Endpoint → World → Type 0
IsSubscription ts q w e w' =
    Allocates e w w'
    × (is_foreign e.implementation_identifier ≡ false)
    × (w'.dummy_guid ≡ w.dummy_guid)
    × (e.info.msg_size ≡ wire_size ts.introspection_c ts.introspection_cpp)
    × (e.info.depth ≡ q.depth)
    × Registers e.info w'

module _ (env : Env) (n : Node) (ts : TypeSupport) (text : Text) (q : QosProfile) (given : Ptr)
    (w : World) where
  abbrev F : World → Type 0
  F = FreesNothing w

  stays : (u v : World) → Quiet u v → F u → F v
  stays u v quiet f = quiet.1 ∙ f

  abbrev P : Endpoint → World → Type 0
  P e w' = IsPublisher env ts q w e w'

  pub rmw_create_publisher-IsPublisher :
      Made
        (IsPublisher env ts q w)
        (FreesNothing w)
        (rmw_create_publisher env (some n) (some ts) (some text) (some q) (some given) w)
  unfolding rmw_create_publisher
  rmw_create_publisher-IsPublisher =
      return_if-Makes P F stays (is_foreign n.implementation_identifier) _ w refl (
        check_full_topic_name-Makes P F stays env q text _ w refl (
          fail_if-Makes P F stays (is_history_unknown q.history) _ _ w refl (
            sized-Makes P F stays ts _ w λ size w₁ s₁ calm z.
              fail_if-Makes P F stays (not (is_ok size.0)) _ _ w₁ s₁.1 (
                let p = env.allocate w₁.calls publisher_t in
                let v₁ = log (allocated publisher_t p) w₁ in
                fail_if-Makes P F stays (p == 0) _ _ v₁ s₁.1 (
                  let d = env.allocate v₁.calls pub_sub_data_t in
                  let u₁ = log (allocated pub_sub_data_t d) v₁ in
                  fail_if-Makes P F stays (d == 0) _ _ u₁ s₁.1 (
                    choose_allocator-Makes P F stays env given (size_or_zero size.1) q.depth _ u₁
                      λ alloc w₂ s₂ ring.
                        fail_if-Makes P F stays (alloc == 0) _ _ w₂ (s₂.1 ∙ s₁.1) (
                          let guid = (w₂.dummy_guid + 1) % 2 ^ 64 in
                          let w₃ = record w₂ { dummy_guid = guid } in
                          let v = log (lock_initialised d) w₃ in
                          let t = env.allocate v.calls (chars (length text + 1)) in
                          let u = log (allocated (chars (length text + 1)) t) v in
                          fail_if-Makes P F stays (t == 0) _ _ u (s₂.1 ∙ s₁.1) (
                            let info : PubSubData = record {
                              address = d;
                              alloc = alloc;
                              depth = if ltb 1 q.depth then q.depth else 1;
                              msg_size = size_or_zero size.1;
                              gid = some (gid_of env guid);
                              context = n.context;
                            } in
                            let ret =
                              env.register_publisher u.calls info
                                (env.format (length text + 1) text) in
                            pure-Makes P F stays (not (is_ok ret)) _
                              (log
                                (publisher_registered info (env.format (length text + 1) text) ret)
                                u)
                              (s₂.1 ∙ s₁.1)
                              (λ fine. (
                                (
                                  ap (λ l. t ∷ l) (s₂.0 ∙ ap (λ l. d ∷ p ∷ l) s₁.0),
                                  s₂.1 ∙ s₁.1,
                                  ring ∙ ap (λ l. if given == 0 then alloc ∷ l else l) calm,
                                ),
                                refl,
                                ap (λ k. some (gid_of env ((k + 1) % 2 ^ 64))) (s₂.2 ∙ s₁.2),
                                ap (λ k. (k + 1) % 2 ^ 64) (s₂.2 ∙ s₁.2),
                                z,
                                refl,
                              ))))))))))

  abbrev S : Endpoint → World → Type 0
  S e w' = IsSubscription ts q w e w'

  pub rmw_create_subscription-IsSubscription :
      Made
        (IsSubscription ts q w)
        (FreesNothing w)
        (rmw_create_subscription env (some n) (some ts) (some text) (some q) (some given) w)
  unfolding rmw_create_subscription
  rmw_create_subscription-IsSubscription =
      return_if-Makes S F stays (is_foreign n.implementation_identifier) _ w refl (
        check_full_topic_name-Makes S F stays env q text _ w refl (
          fail_if-Makes S F stays (is_history_unknown q.history) _ _ w refl (
            sized-Makes S F stays ts _ w λ size w₁ s₁ calm z.
              fail_if-Makes S F stays (not (is_ok size.0)) _ _ w₁ s₁.1 (
                let p = env.allocate w₁.calls subscription_t in
                let v₁ = log (allocated subscription_t p) w₁ in
                fail_if-Makes S F stays (p == 0) _ _ v₁ s₁.1 (
                  let d = env.allocate v₁.calls pub_sub_data_t in
                  let u₁ = log (allocated pub_sub_data_t d) v₁ in
                  fail_if-Makes S F stays (d == 0) _ _ u₁ s₁.1 (
                    choose_allocator-Makes S F stays env given (size_or_zero size.1) q.depth _ u₁
                      λ alloc w₂ s₂ ring.
                        fail_if-Makes S F stays (alloc == 0) _ _ w₂ (s₂.1 ∙ s₁.1) (
                          let v = log (lock_initialised d) w₂ in
                          let t = env.allocate v.calls (chars (length text + 1)) in
                          let u = log (allocated (chars (length text + 1)) t) v in
                          fail_if-Makes S F stays (t == 0) _ _ u (s₂.1 ∙ s₁.1) (
                            let info : PubSubData = record {
                              address = d;
                              alloc = alloc;
                              depth = q.depth;
                              msg_size = size_or_zero size.1;
                              gid = none;
                              context = n.context;
                            } in
                            let ret = env.register_subscription u.calls info (text) in
                            pure-Makes S F stays (not (is_ok ret)) _
                              (log (subscription_registered info (text) ret) u) (s₂.1 ∙ s₁.1)
                              (λ fine. (
                                (
                                  ap (λ l. t ∷ l) (s₂.0 ∙ ap (λ l. d ∷ p ∷ l) s₁.0),
                                  s₂.1 ∙ s₁.1,
                                  ring ∙ ap (λ l. if given == 0 then alloc ∷ l else l) calm,
                                ),
                                refl,
                                s₂.2 ∙ s₁.2,
                                z,
                                refl,
                                (text, ret, u.calls, refl, not-false (is_ok ret) fine),
                              ))))))))))
