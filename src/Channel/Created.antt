-- ===== src/Channel/Created.antt =====
-- A topic between a publisher and a subscription that the library created itself.
use https_github_com_nightdu.Base.{
  ℕ, ◌==◌, refl, ◌<◌, arith, ◌≤◌, ◌≡◌, ap, subst, sym, ◌∙◌, Bool, true, some, List, [], map, length,
}
use https_github_com_nightdu.Platform.{Ptr, Bytes, ok, PubSubData, Endpoint, Env, World, done}
use https_github_com_nightdu.Typesupport.{TypeSupport}
use https_github_com_nightdu.Channel.{Hazcat, room, queued, contents, channel}
use https_github_com_nightdu.Channel.Delivery.{
  publish_all, take_all, All, wait, take_all-publish_all,
}
use https_github_com_nightdu.Memory.Created.{Registers}
use https_github_com_nightdu.Memory.Steps.{wire_size}
use https_github_com_nightdu.Queries.Created.{
  Request, CreatesPublisher, CreatesSubscription, CreatesPublisher-IsPublisher,
  CreatesSubscription-IsSubscription,
}

-- The size of the struct of a message type.
abbrev struct_size : TypeSupport → ℕ
struct_size ts = wire_size ts.introspection_c ts.introspection_cpp

eq-true : (a b : ℕ) → a ≡ b → (a == b) ≡ true
eq-true a b e = ground arith

module _ (writes : PubSubData → Bool) (reader : Ptr) where
  -- The queue of a reader that was registered last.
  registered-channel :
      (d : PubSubData) (w : World)
      → d.address ≡ reader
      → Registers d w
      → (queued writes reader w.calls ≡ []) × (room writes reader w.calls ≡ d.depth)
  unfolding queued room
  registered-channel d w own (topic, r, h, last, fine) = (
    rw (last, fine, eq-true d.address reader own) refl,
    rw (last, fine, eq-true d.address reader own) refl,
  )

-- A publisher and a subscription that the library created for one message type fit together: what
-- the publisher, created first, publishes once the subscription has been created, in messages of the
-- size of the type's struct, all of them accepted and no more than the depth that was asked for, as
-- many takes by the subscription hand out whole and in order, each with RMW_RET_OK, and leave the
-- channel empty. The publisher writes to the topic, and the depth is not 0.
-- The hazcat library behaves as `Hazcat` says.
pub take_all-publish_all_created :
    (env : Env) (writes : PubSubData → Bool) (a b : Request) (w₀ w₁ w : World) (p s : Endpoint)
    (hazcat : Hazcat env writes s.info.address) (buffer : Bytes) (ms : List Bytes) (w' : World)
    → b.type_support ≡ a.type_support
    → CreatesPublisher env a w₀ p w₁
    → CreatesSubscription env b w₁ s w
    → writes p.info ≡ true
    → length buffer ≡ struct_size a.type_support
    → All (λ m. length m ≡ struct_size a.type_support) ms
    → 0 < b.qos.depth
    → length ms ≤ b.qos.depth
    → publish_all env p ms w ≡ done true w'
    → (w'' : World) × (take_all env s buffer (length ms) w'
        ≡ done (map (λ m. record { ret = ok; message = some m; taken = some true }) ms) w'')
      × (wait env writes s.info.address hazcat w'' ≡ [])
unfolding channel contents
take_all-publish_all_created env writes a b w₀ w₁ w p s hazcat buffer ms w' fit c d writer large
      sizes some_depth few sent =
    let made = CreatesPublisher-IsPublisher env a w₀ w₁ p c in
    let given = CreatesSubscription-IsSubscription env b w₁ w s d in
    let size : p.info.msg_size ≡ struct_size a.type_support = made.4 in
    let (nothing, depth) = registered-channel writes s.info.address s.info w refl given.5 in
    let empty : channel writes s.info.address w.calls ≡ [] = ap (contents w.calls) nothing in
    take_all-publish_all env writes s.info.address hazcat p s buffer ms w w' made.1 given.1 writer
      refl (given.3 ∙ ap struct_size fit ∙ sym size) (large ∙ sym size)
      (subst (λ n. All (λ m. length m ≡ n) ms) (sym size) sizes) (omega (arith, depth, given.4))
      empty (rw nothing tt, omega (arith, depth, given.4)) sent
