-- ===== src/Queries/Created.antt =====
-- What a publisher or subscription that this library created tells about itself.
use https_github_com_nightdu.Base.{
  ℕ, suc, ◌+◌, ◌%◌, ◌^◌, ◌≤◌, ◌<◌, ◌≡◌, refl, ap, subst, sym, ◌∙◌, true, false, none, some, ◌==◌,
  arith,
}
use https_github_com_nightdu.Platform.{
  keep_last, reliable, volatile, automatic, Ptr, Text, ok, is_foreign, Gid, QosProfile, Endpoint,
  Node, Env, World, done,
}
use https_github_com_nightdu.Typesupport.{TypeSupport}
use https_github_com_nightdu.Gid.{size_of_size_t, gid_of, rmw_compare_gids_equal}
use https_github_com_nightdu.Gid.Unique.{
  nth_gid, nth_gid-zero, nth_gid-counter, rmw_compare_gids_equal-generate_gid,
}
use https_github_com_nightdu.Publisher.Create.{rmw_create_publisher}
use https_github_com_nightdu.Subscription.Create.{rmw_create_subscription}
use https_github_com_nightdu.Memory.Steps.{Made}
use https_github_com_nightdu.Memory.Created.{
  FreesNothing, IsPublisher, IsSubscription, rmw_create_publisher-IsPublisher,
  rmw_create_subscription-IsSubscription,
}
use https_github_com_nightdu.Queries.{rmw_get_gid_for_publisher, rmw_subscription_get_actual_qos}

-- The arguments of a function that creates an endpoint.
pub record Request : Type 0 where
  pub node : Node
  pub type_support : TypeSupport
  pub topic_name : Text
  pub qos : QosProfile
  pub payload : Ptr

module _ (env : Env) where
  -- A call of `rmw_create_publisher` that returned a publisher.
  abbrev pub CreatesPublisher : Request → World → Endpoint → World → Type 0
  CreatesPublisher a w e w' =
      rmw_create_publisher env (some a.node) (some a.type_support) (some a.topic_name) (some a.qos)
        (some a.payload) w
      ≡ done (some e) w'

  abbrev pub CreatesSubscription : Request → World → Endpoint → World → Type 0
  CreatesSubscription a w e w' =
      rmw_create_subscription env (some a.node) (some a.type_support) (some a.topic_name)
        (some a.qos) (some a.payload) w
      ≡ done (some e) w'

  pub CreatesPublisher-IsPublisher :
      (a : Request) (w w' : World) (e : Endpoint)
      → CreatesPublisher a w e w'
      → IsPublisher env a.type_support a.qos w e w'
  CreatesPublisher-IsPublisher a w w' e c =
      subst (Made (IsPublisher env a.type_support a.qos w) (FreesNothing w)) c
        (rmw_create_publisher-IsPublisher env a.node a.type_support a.topic_name a.qos a.payload w)

  pub CreatesSubscription-IsSubscription :
      (a : Request) (w w' : World) (e : Endpoint)
      → CreatesSubscription a w e w'
      → IsSubscription a.type_support a.qos w e w'
  CreatesSubscription-IsSubscription a w w' e c =
      subst (Made (IsSubscription a.type_support a.qos w) (FreesNothing w)) c (
        rmw_create_subscription-IsSubscription env a.node a.type_support a.topic_name a.qos
          a.payload w)

  told_gid :
      (e : Endpoint) (g : Gid) (w : World)
      → is_foreign e.implementation_identifier ≡ false
      → e.info.gid ≡ some g
      → rmw_get_gid_for_publisher env (some e) (some none) w ≡ done (ok, some (some g)) w
  unfolding rmw_get_gid_for_publisher
  told_gid e g w own has = rw (own, has) refl

zero_differs : (k : ℕ) → (0 == suc k) ≡ false
zero_differs k = ground arith

-- The gids that `rmw_get_gid_for_publisher` gives for two publishers that one process created one
-- after the other are different to `rmw_compare_gids_equal`, if fewer than 2^64 - 1 gids were
-- generated in between and a gid has room for a size_t.
pub rmw_compare_gids_equal-rmw_create_publisher :
    (env : Env) (a b : Request) (w w₁ w₂ w₃ v : World) (p q : Endpoint) (k : ℕ)
    → size_of_size_t ≤ env.gid_storage_size
    → CreatesPublisher env a w p w₁
    → w₂.dummy_guid ≡ (w₁.dummy_guid + k) % 2 ^ 64
    → suc k < 2 ^ 64
    → CreatesPublisher env b w₂ q w₃
    → (g h : Gid) × (rmw_get_gid_for_publisher env (some p) (some none) v
        ≡ done (ok, some (some g)) v)
      × (rmw_get_gid_for_publisher env (some q) (some none) v ≡ done (ok, some (some h)) v)
      × (rmw_compare_gids_equal env (some g) (some h) (some true) v ≡ done (ok, some false) v)
rmw_compare_gids_equal-rmw_create_publisher env a b w w₁ w₂ w₃ v p q k room c between few d =
    let first = CreatesPublisher-IsPublisher env a w w₁ p c in
    let second = CreatesPublisher-IsPublisher env b w₂ w₃ q d in
    let later : (w₂.dummy_guid + 1) % 2 ^ 64 ≡ (w.dummy_guid + suc k + 1) % 2 ^ 64 =
      omega (arith, between, first.3) in
    let gid_q : q.info.gid ≡ some (nth_gid env (suc k) w) =
      second.2
      ∙ ap (λ m. some (gid_of env m)) later
      ∙ ap some (sym (nth_gid-counter env (suc k) w)) in
    (
      nth_gid env 0 w,
      nth_gid env (suc k) w,
      told_gid env p (nth_gid env 0 w) v first.1 (first.2 ∙ ap some (sym (nth_gid-zero env w))),
      told_gid env q (nth_gid env (suc k) w) v second.1 gid_q,
      rmw_compare_gids_equal-generate_gid env w v 0 (suc k) true room (omega arith) few
          ∙ ap (λ b. done (ok, some b) v) (zero_differs k),
    )

-- A subscription that `rmw_create_subscription` created reports, at any later time, the profile with
-- the depth that was asked for, and keep-last history, reliable, volatile and automatic, all times
-- zero and ROS namespace conventions kept, whatever was asked for.
pub rmw_subscription_get_actual_qos-rmw_create_subscription :
    (env : Env) (a : Request) (w w₁ v : World) (s : Endpoint) (old : QosProfile)
    → CreatesSubscription env a w s w₁
    → rmw_subscription_get_actual_qos env (some s) (some old) v
      ≡ done
          (
            ok,
            some (record {
              history = keep_last;
              depth = a.qos.depth;
              reliability = reliable;
              durability = volatile;
              deadline = record { sec = 0; nsec = 0 };
              lifespan = record { sec = 0; nsec = 0 };
              liveliness = automatic;
              liveliness_lease_duration = record { sec = 0; nsec = 0 };
              avoid_ros_namespace_conventions = false;
            }),
          )
          v
unfolding rmw_subscription_get_actual_qos
rmw_subscription_get_actual_qos-rmw_create_subscription env a w w₁ v s old c =
    let made = CreatesSubscription-IsSubscription env a w w₁ s c in rw (made.1, made.4) refl
