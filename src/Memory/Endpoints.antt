-- ===== src/Memory/Endpoints.antt =====
-- Creating and destroying publishers and subscriptions.
use https_github_com_nightdu.Base.{none, refl, ◌∙◌, ◌≡◌, subst, Option, some, ◌∷◌, arith}
use https_github_com_nightdu.Platform.{
  Outcome, Ptr, Text, QosProfile, Node, Endpoint, Env, World, done, ok,
}
use https_github_com_nightdu.Typesupport.{TypeSupport}
use https_github_com_nightdu.Publisher.Create.{rmw_create_publisher, rmw_destroy_publisher}
use https_github_com_nightdu.Subscription.Create.{rmw_create_subscription, rmw_destroy_subscription}
use https_github_com_nightdu.Memory.{allocations, releases, rings}
use https_github_com_nightdu.Memory.Created.{
  FreesNothing, IsPublisher, IsSubscription, rmw_create_publisher-IsPublisher,
  rmw_create_subscription-IsSubscription,
}
use https_github_com_nightdu.Memory.Steps.{Quiet, Made-map, Allocates, Made, check_argument-Makes}

-- A function gave back the blocks of an endpoint, each once, and handed out none; nor did it create
-- a ring buffer allocator.
abbrev pub Releases : Endpoint → World → World → Type 0
Releases e w w' =
    (allocations w'.calls ≡ allocations w.calls)
    × (releases w'.calls ≡ e.address ∷ e.info.address ∷ e.topic_name.address ∷ releases w.calls)
    × (rings w'.calls ≡ rings w.calls)

module _ (env : Env) (owner : Option Node) (w : World) (support : Option TypeSupport)
    (topic : Option Text) (qos : Option QosProfile) (payload : Option Ptr) where
  abbrev P : Endpoint → World → Type 0
  P e w' = Allocates e w w'

  abbrev F : World → Type 0
  F = FreesNothing w

  stays : (u v : World) → Quiet u v → F u → F v
  stays u v quiet f = quiet.1 ∙ f

  rmw_create_publisher-Made : Made P F (rmw_create_publisher env owner support topic qos payload w)
  unfolding rmw_create_publisher
  rmw_create_publisher-Made = check_argument-Makes P F stays "node" owner _ w refl λ n.
      check_argument-Makes P F stays "type_supports" support _ w refl λ ts.
        check_argument-Makes P F stays "topic_name" topic _ w refl λ text.
          check_argument-Makes P F stays "qos_policies" qos _ w refl λ q.
            check_argument-Makes P F stays "publisher_options" payload _ w refl λ given.
              Made-map {P = IsPublisher env ts q w} F _ (λ e v made. made.0)
                (rmw_create_publisher-IsPublisher env n ts text q given w)

  rmw_create_subscription-Made :
      Made P F (rmw_create_subscription env owner support topic qos payload w)
  unfolding rmw_create_subscription
  rmw_create_subscription-Made = check_argument-Makes P F stays "node" owner _ w refl λ n.
      check_argument-Makes P F stays "type_supports" support _ w refl λ ts.
        check_argument-Makes P F stays "topic_name" topic _ w refl λ text.
          check_argument-Makes P F stays "qos_policies" qos _ w refl λ q.
            check_argument-Makes P F stays "subscription_options" payload _ w refl λ given.
              Made-map {P = IsSubscription ts q w} F _ (λ e v made. made.0)
                (rmw_create_subscription-IsSubscription env n ts text q given w)

module _ (env : Env) (owner : Option Node) (w w' : World) (e : Endpoint) where
  rmw_destroy_publisher-Releases :
      rmw_destroy_publisher env owner (some e) w ≡ done ok w' → Releases e w w'
  unfolding rmw_destroy_publisher
  rmw_destroy_publisher-Releases h = ground arith

  rmw_destroy_subscription-Releases :
      rmw_destroy_subscription env owner (some e) w ≡ done ok w' → Releases e w w'
  unfolding rmw_destroy_subscription
  rmw_destroy_subscription-Releases h = ground arith

-- The heap blocks of a publisher: if `rmw_create_publisher` succeeded, and `rmw_destroy_publisher`
-- succeeded later on what the one returned, then the first handed out just the three blocks of the
-- publisher and freed nothing, and the second freed just these, each once, and allocated nothing.
-- A ring buffer allocator is created exactly if no allocator was given, and it is the one that the
-- publisher uses.
pub rmw_destroy_publisher-rmw_create_publisher :
    (env : Env) (node node' : Option Node) (support : Option TypeSupport) (topic : Option Text)
    (qos : Option QosProfile) (payload : Option Ptr) (w w₁ w₂ w₃ : World) (e : Endpoint)
    → rmw_create_publisher env node support topic qos payload w ≡ done (some e) w₁
    → rmw_destroy_publisher env node' (some e) w₂ ≡ done ok w₃
    → Allocates e w w₁ × Releases e w₂ w₃
rmw_destroy_publisher-rmw_create_publisher env node node' support topic qos payload w w₁ w₂ w₃ e c
      d =
    (
      subst (Made (λ x v. Allocates x w v) (FreesNothing w)) c
          (rmw_create_publisher-Made env node w support topic qos payload),
      rmw_destroy_publisher-Releases env node' w₂ w₃ e d,
    )

-- The heap blocks of a subscription: if `rmw_create_subscription` succeeded, and `rmw_destroy_subscription`
-- succeeded later on what the one returned, then the first handed out just the three blocks of the
-- subscription and freed nothing, and the second freed just these, each once, and allocated nothing.
-- A ring buffer allocator is created exactly if no allocator was given, and it is the one that the
-- subscription uses.
pub rmw_destroy_subscription-rmw_create_subscription :
    (env : Env) (node node' : Option Node) (support : Option TypeSupport) (topic : Option Text)
    (qos : Option QosProfile) (payload : Option Ptr) (w w₁ w₂ w₃ : World) (e : Endpoint)
    → rmw_create_subscription env node support topic qos payload w ≡ done (some e) w₁
    → rmw_destroy_subscription env node' (some e) w₂ ≡ done ok w₃
    → Allocates e w w₁ × Releases e w₂ w₃
rmw_destroy_subscription-rmw_create_subscription env node node' support topic qos payload w w₁ w₂ w₃
      e c d =
    (
      subst (Made (λ x v. Allocates x w v) (FreesNothing w)) c
          (rmw_create_subscription-Made env node w support topic qos payload),
      rmw_destroy_subscription-Releases env node' w₂ w₃ e d,
    )

-- Which of the two functions creates.
pub data Creation : Type 0 where
  of_publisher of_subscription : Creation

abbrev pub create :
    Creation
    → Env
    → Option Node
    → Option TypeSupport
    → Option Text
    → Option QosProfile
    → Option Ptr
    → World
    → Outcome (Option Endpoint)
create of_publisher = rmw_create_publisher
create of_subscription = rmw_create_subscription

-- A creation that fails frees nothing, at whatever step and for whatever arguments: if
-- `rmw_create_publisher` or `rmw_create_subscription` returns NULL, then the blocks that it had
-- allocated up to there stay allocated.
pub create-FreesNothing :
    (kind : Creation) (env : Env) (node : Option Node) (support : Option TypeSupport)
    (topic : Option Text) (qos : Option QosProfile) (payload : Option Ptr) (w w' : World)
    → create kind env node support topic qos payload w ≡ done none w'
    → FreesNothing w w'
create-FreesNothing of_publisher env node support topic qos payload w w' e =
    subst (Made (λ x v. Allocates x w v) (FreesNothing w)) e
      (rmw_create_publisher-Made env node w support topic qos payload)
create-FreesNothing of_subscription env node support topic qos payload w w' e =
    subst (Made (λ x v. Allocates x w v) (FreesNothing w)) e
      (rmw_create_subscription-Made env node w support topic qos payload)
