-- ===== src/Handles/Blocks.antt =====
-- What creating and destroying these handles allocates and frees.
use https_github_com_nightdu.Base.{ℕ, ◌≡◌, Option, some, List, [], ◌∷◌, ◌++◌, arith}
use https_github_com_nightdu.Platform.{
  Ptr, Text, QosProfile, Context, Node, ServiceHandle, WaitSet, GuardCondition, Env, World, done,
  ok,
}
use https_github_com_nightdu.Memory.{allocations, releases}
use https_github_com_nightdu.Handles.GuardConditions.{
  rmw_create_guard_condition, rmw_destroy_guard_condition,
}
use https_github_com_nightdu.Handles.Nodes.{rmw_create_node, rmw_destroy_node}
use https_github_com_nightdu.Handles.WaitSets.{rmw_create_wait_set, rmw_destroy_wait_set}
use https_github_com_nightdu.Handles.Services.{
  rmw_create_service, rmw_destroy_service, rmw_create_client, rmw_destroy_client,
}

-- Between two worlds the blocks of one list were handed out, newest first, and those of the other
-- given back.
abbrev pub Moves : List Ptr → List Ptr → World → World → Type 0
Moves got given w w' =
    (allocations w'.calls ≡ got ++ allocations w.calls)
    × (releases w'.calls ≡ given ++ releases w.calls)

module _ (env : Env) (w w' : World) where
  rmw_create_node-Moves :
      (n : Node) (context : Option (Ptr × Context)) (name namespace_ : Option Text)
      → rmw_create_node env context name namespace_ w ≡ done (some n) w'
      → Moves
          (n.namespace_.address ∷ n.name.address ∷ n.guard_condition.impl
            ∷ n.guard_condition.address ∷ n.info ∷ n.address ∷ [])
          []
          w
          w'
  unfolding rmw_create_node
  rmw_create_node-Moves n context name namespace_ h = ground arith

  rmw_destroy_node-Moves :
      (n : Node)
      → rmw_destroy_node env (some n) w ≡ done ok w'
      → Moves [] (n.address ∷ n.info ∷ n.name.address ∷ n.namespace_.address ∷ []) w w'
  unfolding rmw_destroy_node
  rmw_destroy_node-Moves n h = ground arith

  rmw_create_service-Moves :
      (s : ServiceHandle) (node : Option Node) (support : Option (Unit {0})) (name : Option Text)
      (qos : Option QosProfile)
      → rmw_create_service env node support name qos w ≡ done (some s) w'
      → Moves (s.service_name.address ∷ s.info ∷ s.address ∷ []) [] w w'
  unfolding rmw_create_service
  rmw_create_service-Moves s owner support name qos h = ground arith

  rmw_destroy_service-Moves :
      (s : ServiceHandle) (node : Option Node)
      → rmw_destroy_service env node (some s) w ≡ done ok w'
      → Moves [] (s.address ∷ s.service_name.address ∷ s.info ∷ []) w w'
  unfolding rmw_destroy_service
  rmw_destroy_service-Moves s owner h = ground arith

  rmw_create_client-Moves :
      (c : ServiceHandle) (node : Option Node) (support : Option (Unit {0})) (name : Option Text)
      (qos : Option QosProfile)
      → rmw_create_client env node support name qos w ≡ done (some c) w'
      → Moves (c.service_name.address ∷ c.info ∷ c.address ∷ []) [] w w'
  unfolding rmw_create_client
  rmw_create_client-Moves c owner support name qos h = ground arith

  rmw_destroy_client-Moves :
      (c : ServiceHandle) (node : Option Node)
      → rmw_destroy_client env node (some c) w ≡ done ok w'
      → Moves [] (c.address ∷ c.service_name.address ∷ c.info ∷ []) w w'
  unfolding rmw_destroy_client
  rmw_destroy_client-Moves c owner h = ground arith

  rmw_create_wait_set-Moves :
      (s : WaitSet) (context : Option Ptr) (max_conditions : ℕ)
      → rmw_create_wait_set env context max_conditions w ≡ done (some s) w'
      → Moves (s.address ∷ s.info ∷ []) [] w w'
  unfolding rmw_create_wait_set
  rmw_create_wait_set-Moves s context max_conditions h = ground arith

  rmw_destroy_wait_set-Moves :
      (s : WaitSet)
      → rmw_destroy_wait_set env (some s) w ≡ done ok w'
      → Moves [] (s.address ∷ s.info ∷ []) w w'
  unfolding rmw_destroy_wait_set
  rmw_destroy_wait_set-Moves s h = ground arith

  rmw_create_guard_condition-Moves :
      (g : GuardCondition) (context : Option Ptr)
      → rmw_create_guard_condition env context w ≡ done (some g) w'
      → Moves (g.impl ∷ g.address ∷ []) [] w w'
  unfolding rmw_create_guard_condition
  rmw_create_guard_condition-Moves g context h = ground arith

  rmw_destroy_guard_condition-Moves :
      (g : GuardCondition)
      → rmw_destroy_guard_condition env (some g) w ≡ done ok w'
      → Moves [] (g.address ∷ g.impl ∷ []) w w'
  unfolding rmw_destroy_guard_condition
  rmw_destroy_guard_condition-Moves g h = ground arith

module _ (env : Env) (w w₁ w₂ w₃ : World) where
  -- A node that was created and then destroyed, both with success, leaves two of its six blocks
  -- behind: those of its graph guard condition. The other four are freed, each once.
  pub rmw_destroy_node-rmw_create_node :
      (n : Node) (context : Option (Ptr × Context)) (name namespace_ : Option Text)
      → rmw_create_node env context name namespace_ w ≡ done (some n) w₁
      → rmw_destroy_node env (some n) w₂ ≡ done ok w₃
      → Moves
          (n.namespace_.address ∷ n.name.address ∷ n.guard_condition.impl
            ∷ n.guard_condition.address ∷ n.info ∷ n.address ∷ [])
          []
          w
          w₁
        × Moves [] (n.address ∷ n.info ∷ n.name.address ∷ n.namespace_.address ∷ []) w₂ w₃
  rmw_destroy_node-rmw_create_node n context name namespace_ c d = (
    rmw_create_node-Moves env w w₁ n context name namespace_ c,
    rmw_destroy_node-Moves env w₂ w₃ n d,
  )

  -- A service that was created and then destroyed, both with success, gets three blocks and gives
  -- back just these, each once.
  pub rmw_destroy_service-rmw_create_service :
      (s : ServiceHandle) (node node' : Option Node) (support : Option (Unit {0}))
      (name : Option Text) (qos : Option QosProfile)
      → rmw_create_service env node support name qos w ≡ done (some s) w₁
      → rmw_destroy_service env node' (some s) w₂ ≡ done ok w₃
      → Moves (s.service_name.address ∷ s.info ∷ s.address ∷ []) [] w w₁
        × Moves [] (s.address ∷ s.service_name.address ∷ s.info ∷ []) w₂ w₃
  rmw_destroy_service-rmw_create_service s node node' support name qos c d = (
    rmw_create_service-Moves env w w₁ s node support name qos c,
    rmw_destroy_service-Moves env w₂ w₃ s node' d,
  )

  -- A client that was created and then destroyed, both with success, gets three blocks and gives
  -- back just these, each once.
  pub rmw_destroy_client-rmw_create_client :
      (s : ServiceHandle) (node node' : Option Node) (support : Option (Unit {0}))
      (name : Option Text) (qos : Option QosProfile)
      → rmw_create_client env node support name qos w ≡ done (some s) w₁
      → rmw_destroy_client env node' (some s) w₂ ≡ done ok w₃
      → Moves (s.service_name.address ∷ s.info ∷ s.address ∷ []) [] w w₁
        × Moves [] (s.address ∷ s.service_name.address ∷ s.info ∷ []) w₂ w₃
  rmw_destroy_client-rmw_create_client s node node' support name qos c d = (
    rmw_create_client-Moves env w w₁ s node support name qos c,
    rmw_destroy_client-Moves env w₂ w₃ s node' d,
  )

  -- A wait set that was created and then destroyed, both with success, gets two blocks and gives
  -- back just these, each once; so does a guard condition.
  pub rmw_destroy_wait_set-rmw_create_wait_set :
      (s : WaitSet) (g : GuardCondition) (context : Option Ptr) (max_conditions : ℕ)
      (v v₁ v₂ v₃ : World)
      → rmw_create_wait_set env context max_conditions w ≡ done (some s) w₁
      → rmw_destroy_wait_set env (some s) w₂ ≡ done ok w₃
      → rmw_create_guard_condition env context v ≡ done (some g) v₁
      → rmw_destroy_guard_condition env (some g) v₂ ≡ done ok v₃
      → (Moves (s.address ∷ s.info ∷ []) [] w w₁ × Moves [] (s.address ∷ s.info ∷ []) w₂ w₃)
        × (Moves (g.impl ∷ g.address ∷ []) [] v v₁ × Moves [] (g.address ∷ g.impl ∷ []) v₂ v₃)
  rmw_destroy_wait_set-rmw_create_wait_set s g context max_conditions v v₁ v₂ v₃ a b c d = (
    (
      rmw_create_wait_set-Moves env w w₁ s context max_conditions a,
      rmw_destroy_wait_set-Moves env w₂ w₃ s b,
    ),
    (
      rmw_create_guard_condition-Moves env v v₁ g context c,
      rmw_destroy_guard_condition-Moves env v₂ v₃ g d,
    ),
  )
