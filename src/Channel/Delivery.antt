-- ===== src/Channel/Delivery.antt =====
-- From a publisher to a subscription: a burst of `rmw_publish`, then as many `rmw_take`.
use https_github_com_nightdu.Base.{
  ℕ, zero, suc, ◌≤◌, ◌<◌, ◌+◌, length-append, ◌≡◌, refl, ap, ap₂, subst, sym, ◌∙◌, Bool, true,
  false, some, List, [], ◌∷◌, ◌++◌, map, take, length, arith, if◌then◌else◌, take_whole, drop_whole,
}
use mathlib.Core.List.{append_assoc, append-nil}
use https_github_com_nightdu.Platform.{
  Bytes, RmwRet, error, timeout, unsupported, bad_alloc, invalid_argument,
  incorrect_rmw_implementation, other_ret, Ends, ok, is_ok, is_foreign, PubSubData, Ptr, Env, World,
  Outcome, done, fault, Endpoint,
}
use https_github_com_nightdu.Channel.{rest, push, room, queued, Hazcat, channel, IsReady}
use https_github_com_nightdu.Channel.Send.{length-contents, push_space, rmw_publish-channel}
use https_github_com_nightdu.Channel.Receive.{answer, rmw_take-channel}
use https_github_com_nightdu.Publisher.Send.{rmw_publish}
use https_github_com_nightdu.Subscription.Receive.{Received, rmw_take}

-- Goes on after a call.
abbrev then_do : {A B : Type 0} → Outcome A → (A → World → Outcome B) → Outcome B
then_do (done a w) k = k a w
then_do fault k = fault

-- Publishes the messages in order, up to the first that is refused; true if none is.
unfoldable pub publish_all : Env → Endpoint → List Bytes → World → Outcome Bool
publish_all env p [] w = done true w
publish_all env p (m ∷ ms) w =
    then_do (rmw_publish env (some p) (some m) w)
      λ r w'. elim (is_ok r) [ true ↦ publish_all env p ms w' | false ↦ done false w' ]

-- Takes the given number of times into the same buffer, and lists what came out.
unfoldable pub take_all : Env → Endpoint → Bytes → ℕ → World → Outcome (List Received)
take_all env s buffer zero w = done [] w
take_all env s buffer (suc n) w =
    then_do (rmw_take env (some s) (some buffer) (some false) w)
      λ r w'. then_do (take_all env s buffer n w') λ rs w''. done (r ∷ rs) w''

publish_all-cons :
    (env : Env) (p : Endpoint) (m : Bytes) (ms : List Bytes) (w w₁ w' : World) (r : RmwRet)
    → rmw_publish env (some p) (some m) w ≡ done r w₁
    → publish_all env p (m ∷ ms) w ≡ done true w'
    → (is_ok r ≡ true) × (publish_all env p ms w₁ ≡ done true w')
unfolding publish_all
publish_all-cons env p m ms w w₁ w' r out e = ground arith

take_all-suc :
    (env : Env) (s : Endpoint) (buffer : Bytes) (n : ℕ) (w w₁ w₂ : World) (r : Received)
    (rs : List Received)
    → rmw_take env (some s) (some buffer) (some false) w ≡ done r w₁
    → take_all env s buffer n w₁ ≡ done rs w₂
    → take_all env s buffer (suc n) w ≡ done (r ∷ rs) w₂
unfolding take_all
take_all-suc env s buffer n w w₁ w₂ r rs out e = rw (out, e)

world_or : {A : Type 0} → World → Outcome A → World
world_or w (done a w') = w'
world_or w fault = w

abbrev pub All : (Bytes → Type 0) → List Bytes → Type 0
All P [] = Unit {0}
All P (m ∷ ms) = P m × All P ms

map-take : (n : ℕ) (ms : List Bytes) → All (λ m. length m ≡ n) ms → map (take n) ms ≡ ms
map-take n [] a = refl
map-take n (m ∷ ms) a = ap₂ ◌∷◌ (take_whole n m a.0) (map-take n ms a.1)

answers :
    (n : ℕ) (buffer : Bytes)
    → length buffer ≡ n
    → (ms : List Bytes) → All (λ m. length m ≡ n) ms
    → map (λ m. answer n buffer (m ∷ [])) ms
      ≡ map (λ m. record { ret = ok; message = some m; taken = some true }) ms
answers n buffer room [] a = refl
answers n buffer room (m ∷ ms) a =
    ap₂ ◌∷◌ (rw (take_whole n m a.0, drop_whole n buffer room, append-nil m))
      (answers n buffer room ms a.1)

is_ok-ok : (r : RmwRet) → is_ok r ≡ true → r ≡ ok
is_ok-ok ok e = refl
is_ok-ok error e = cc
is_ok-ok timeout e = cc
is_ok-ok unsupported e = cc
is_ok-ok bad_alloc e = cc
is_ok-ok invalid_argument e = cc
is_ok-ok incorrect_rmw_implementation e = cc
is_ok-ok (other_ret n) e = cc

module _ (env : Env) (writes : PubSubData → Bool) (reader : Ptr)
    (hazcat : Hazcat env writes reader) where
  abbrev pub wait : World → List Bytes
  wait w = channel writes reader w.calls

  abbrev pub Ready : World → Type 0
  Ready w = IsReady writes reader w.calls

  -- How many messages the reader keeps.
  abbrev pub space : World → ℕ
  space w = room writes reader w.calls

  pub length-channel : (w : World) → length (wait w) ≡ length (queued writes reader w.calls)
  unfolding channel
  length-channel w = length-contents w.calls (queued writes reader w.calls)

  -- One publication that was accepted.
  pub sent_one :
      (p : Endpoint) (m : Bytes) (w w' : World)
      → is_foreign p.implementation_identifier ≡ false
      → writes p.info ≡ true
      → p.info.msg_size ≤ length m
      → length (wait w) < space w
      → Ready w
      → rmw_publish env (some p) (some m) w ≡ done ok w'
      → (wait w' ≡ wait w ++ take p.info.msg_size m ∷ []) × Ready w' × (space w' ≡ space w)
  sent_one p m w w' own writer enough free ready e =
      let (r, v, out, grown, ready', kept) =
        rmw_publish-channel env writes reader hazcat p own writer m w enough ready in
      let bytes = take p.info.msg_size m in
      let Grown : RmwRet → World → Type 0 = λ r v.
        (wait v ≡ (if is_ok r then push (space w) (wait w) bytes else wait w))
        × Ready v
        × (space v ≡ space w) in
      let (full, ready₁, kept₁) = subst (Ends Grown) (sym out ∙ e) (grown, ready', kept) in
      (full ∙ push_space (space w) (wait w) bytes free, ready₁, kept₁)

  publish_all-channel :
      (p : Endpoint)
      → is_foreign p.implementation_identifier ≡ false
      → writes p.info ≡ true
      → (ms : List Bytes) (w w' : World) → Ready w
      → All (λ m. length m ≡ p.info.msg_size) ms
      → length (wait w) + length ms ≤ space w
      → publish_all env p ms w ≡ done true w'
      → (wait w' ≡ wait w ++ map (take p.info.msg_size) ms) × Ready w'
  unfolding publish_all world_or
  publish_all-channel p own writer [] w w' ready sizes free e =
      subst (λ v. (wait v ≡ wait w ++ []) × Ready v) (ap (world_or w) e)
        (sym (append-nil (wait w)), ready)
  publish_all-channel p own writer (m ∷ ms) w w' ready sizes free e =
      let bytes = take p.info.msg_size m in
      let enough : p.info.msg_size ≤ length m = omega (arith, sizes.0) in
      let (r, w₁, out, _, _, _) =
        rmw_publish-channel env writes reader hazcat p own writer m w enough ready in
      let (accepted, e') = publish_all-cons env p m ms w w₁ w' r out e in
      let (grown, ready₁, kept) =
        sent_one p m w w₁ own writer enough (omega arith) ready
          (out ∙ ap (λ c. done c w₁) (is_ok-ok r accepted)) in
      let longer : length (wait w₁) ≡ length (wait w) + 1 =
        ap length grown ∙ length-append (wait w) (bytes ∷ []) in
      let (more, ready') =
        publish_all-channel p own writer ms w₁ w' ready₁ sizes.1 (omega (arith, longer, kept)) e' in
      (
        more
            ∙ ap (λ l. l ++ map (take p.info.msg_size) ms) grown
            ∙ append_assoc (wait w) (bytes ∷ []) (map (take p.info.msg_size) ms),
        ready',
      )

  pub take_all-channel :
      (s : Endpoint)
      → is_foreign s.implementation_identifier ≡ false
      → s.info.address ≡ reader
      → (buffer : Bytes) → s.info.msg_size ≤ length buffer
      → (ms : List Bytes) (w : World) → wait w ≡ ms
      → Ready w
      → (w' : World) × (take_all env s buffer (length ms) w
          ≡ done (map (λ m. answer s.info.msg_size buffer (m ∷ [])) ms) w')
        × (wait w' ≡ [])
  unfolding take_all
  take_all-channel s own reads buffer enough [] w e ready = (w, refl, e)
  take_all-channel s own reads buffer enough (m ∷ ms) w e ready =
      let (w₁, out, left, ready₁, _) =
        rmw_take-channel env writes reader hazcat s own reads buffer false w enough ready in
      let (w₂, outs, empty) =
        take_all-channel s own reads buffer enough ms w₁ (left ∙ ap rest e) ready₁ in
      let first = out ∙ ap (λ l. done (answer s.info.msg_size buffer l) w₁) e in
      (w₂, take_all-suc env s buffer (length ms) w w₁ w₂ _ _ first outs, empty)

  -- A burst of messages of `msg_size` bytes each crosses the topic whole and in order: if a reader is
  -- registered, the channel was empty, every publication was accepted, no more messages were sent
  -- than the depth of the reader, and both ends agree on the message size, then as many takes return
  -- RMW_RET_OK and those very messages, one each, and leave the channel empty.
  -- The hazcat library behaves as `Hazcat` says.
  pub take_all-publish_all :
      (p s : Endpoint) (buffer : Bytes) (ms : List Bytes) (w w' : World)
      → is_foreign p.implementation_identifier ≡ false
      → is_foreign s.implementation_identifier ≡ false
      → writes p.info ≡ true
      → s.info.address ≡ reader
      → s.info.msg_size ≡ p.info.msg_size
      → length buffer ≡ p.info.msg_size
      → All (λ m. length m ≡ p.info.msg_size) ms
      → length ms ≤ space w
      → wait w ≡ []
      → Ready w
      → publish_all env p ms w ≡ done true w'
      → (w'' : World) × (take_all env s buffer (length ms) w'
          ≡ done (map (λ m. record { ret = ok; message = some m; taken = some true }) ms) w'')
        × (wait w'' ≡ [])
  take_all-publish_all p s buffer ms w w' pown sown writer reads agree large sizes fits empty ready
        e =
      let n = p.info.msg_size in
      let (sent, ready') =
        publish_all-channel p pown writer ms w w' ready sizes (omega (arith, ap length empty)) e in
      let waiting : wait w' ≡ ms =
        sent ∙ ap (λ l. l ++ map (take n) ms) empty ∙ map-take n ms sizes in
      let (w'', outs, left) =
        take_all-channel s sown reads buffer (omega arith) ms w' waiting ready' in
      (w'', outs ∙ ap (λ l. done l w'') (rw agree (answers n buffer large ms sizes)), left)
