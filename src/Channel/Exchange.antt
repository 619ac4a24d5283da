-- ===== src/Channel/Exchange.antt =====
-- Any interleaving of publications and takes on a topic: messages come out in the order in which
-- they went in.
use https_github_com_nightdu.Base.{
  ℕ, ◌<◌, arith, ◌≡◌, refl, ap, ap₂, subst, sym, ◌∙◌, Bool, true, false, Option, none, some, List,
  [], ◌∷◌, ◌++◌, take, drop, length, if◌then◌else◌, inl, inr, Bool-cases, take_whole, drop_whole,
}
use mathlib.Core.List.{append_assoc, append-nil}
use https_github_com_nightdu.Platform.{
  Ptr, Bytes, RmwRet, is_ok, is_foreign, PubSubData, Endpoint, Env, World, done, Ends,
}
use https_github_com_nightdu.Channel.{rest, push, room, queued, contents, Hazcat, channel, IsReady}
use https_github_com_nightdu.Channel.Send.{push_space, rmw_publish-channel}
use https_github_com_nightdu.Channel.Receive.{answer, rmw_take-channel}
use https_github_com_nightdu.Channel.Delivery.{All}
use https_github_com_nightdu.Publisher.Send.{rmw_publish}
use https_github_com_nightdu.Subscription.Receive.{Received, rmw_take}

-- The message that a take hands out, if it says that there was one.
abbrev handed_out : Option Bool → Option Bytes → List Bytes
handed_out (some true) (some m) = m ∷ []
handed_out (some true) none = []
handed_out (some false) m = []
handed_out none m = []

-- The message that a publication adds, if it was accepted.
abbrev pub accepted : RmwRet → Bytes → List Bytes
accepted r m = if is_ok r then m ∷ [] else []

module _ (env : Env) (writes : PubSubData → Bool) (reader : Ptr) (n : ℕ) where
  -- Sequences of calls by the publishers of the topic and its reader, for messages of `n` bytes,
  -- with the messages that were accepted and those that were handed out so far, whatever the calls
  -- return.
  pub data Exchange : List Bytes → List Bytes → World → Type 0 where
    start :
        (w : World)
        → queued writes reader w.calls ≡ []
        → 0 < room writes reader w.calls
        → Exchange [] [] w
    publishes :
        {sent got : List Bytes} {w : World} (p : Endpoint) (message : Bytes) (r : RmwRet)
        (w' : World)
        → Exchange sent got w
        → is_foreign p.implementation_identifier ≡ false
        → writes p.info ≡ true
        → p.info.msg_size ≡ n
        → length message ≡ n
        → length (channel writes reader w.calls) < room writes reader w.calls
        → rmw_publish env (some p) (some message) w ≡ done r w'
        → Exchange (sent ++ accepted r message) got w'
    takes :
        {sent got : List Bytes} {w : World} (s : Endpoint) (buffer : Bytes) (flag : Bool)
        (r : Received) (w' : World)
        → Exchange sent got w
        → is_foreign s.implementation_identifier ≡ false
        → s.info.address ≡ reader
        → s.info.msg_size ≡ n
        → length buffer ≡ n
        → rmw_take env (some s) (some buffer) (some flag) w ≡ done r w'
        → Exchange sent (got ++ handed_out r.taken r.message) w'

  -- All that was sent was handed out or waits, in this order.
  abbrev InOrder : List Bytes → List Bytes → World → Type 0
  InOrder sent got w =
      (sent ≡ got ++ channel writes reader w.calls)
      × All (λ m. length m ≡ n) (channel writes reader w.calls)
      × IsReady writes reader w.calls

  module _ (hazcat : Hazcat env writes reader) where
    abbrev wait : World → List Bytes
    wait w = channel writes reader w.calls

    All-append :
        (ms : List Bytes) (m : Bytes)
        → All (λ m. length m ≡ n) ms
        → length m ≡ n
        → All (λ m. length m ≡ n) (ms ++ m ∷ [])
    All-append [] m a e = (e, tt)
    All-append (x ∷ ms) m a e = (a.0, All-append ms m a.1 e)

    published-InOrder :
        (sent got : List Bytes) (w w' : World) (p : Endpoint) (message : Bytes) (r : RmwRet)
        → is_foreign p.implementation_identifier ≡ false
        → writes p.info ≡ true
        → p.info.msg_size ≡ n
        → length message ≡ n
        → length (wait w) < room writes reader w.calls
        → rmw_publish env (some p) (some message) w ≡ done r w'
        → InOrder sent got w
        → InOrder (sent ++ accepted r message) got w'
    published-InOrder sent got w w' p message r own writer size len free e (order, sizes, ready) =
        let m = take p.info.msg_size message in
        let whole : m ≡ message = ap (λ k. take k message) size ∙ take_whole n message len in
        let keeps = room writes reader w.calls in
        let (r', v, out, grown, ready', _) =
          rmw_publish-channel env writes reader hazcat p own writer message w
            (omega (arith, size, len)) ready in
        let Grown : RmwRet → World → Type 0 = λ r v.
          (wait v ≡ (if is_ok r then push keeps (wait w) m else wait w))
          × IsReady writes reader v.calls in
        let (grown', ready₁) = subst (Ends Grown) (sym out ∙ e) (grown, ready') in
        elim (Bool-cases (is_ok r)) [
          | inl good ↦
              let full : wait w' ≡ wait w ++ message ∷ [] =
                grown'
                ∙ rw good (push_space keeps (wait w) m free)
                ∙ ap (λ x. wait w ++ x ∷ []) whole in
              (
                rw (good, full, order) (append_assoc got (wait w) (message ∷ [])),
                rw full (All-append (wait w) message sizes len),
                ready₁,
              )
          | inr bad ↦
              let full : wait w' ≡ wait w = grown' ∙ rw bad refl in
              (rw (bad, full, order) (append-nil (got ++ wait w)), rw full sizes, ready₁)
        ]

    answered :
        (size : ℕ) (buffer : Bytes) (ms sent got : List Bytes)
        → size ≡ n
        → length buffer ≡ n
        → sent ≡ got ++ ms
        → All (λ m. length m ≡ n) ms
        → let a = answer size buffer ms in
          (sent ≡ (got ++ handed_out a.taken a.message) ++ rest ms)
          × All (λ m. length m ≡ n) (rest ms)
    answered size buffer [] sent got same room order sizes =
        (order ∙ sym (append-nil (got ++ [])), tt)
    answered size buffer (m ∷ ms) sent got same room order sizes =
        let whole : take size m ++ drop size buffer ≡ m =
          ap (λ k. take k m ++ drop k buffer) same
          ∙ ap₂ ◌++◌ (take_whole n m sizes.0) (drop_whole n buffer room)
          ∙ append-nil m in
        (
          order ∙ sym (append_assoc got (m ∷ []) ms) ∙ ap (λ x. (got ++ x ∷ []) ++ ms) (sym whole),
          sizes.1,
        )

    taken-InOrder :
        (sent got : List Bytes) (w w' : World) (s : Endpoint) (buffer : Bytes) (flag : Bool)
        (r : Received)
        → is_foreign s.implementation_identifier ≡ false
        → s.info.address ≡ reader
        → s.info.msg_size ≡ n
        → length buffer ≡ n
        → rmw_take env (some s) (some buffer) (some flag) w ≡ done r w'
        → InOrder sent got w
        → InOrder sent (got ++ handed_out r.taken r.message) w'
    taken-InOrder sent got w w' s buffer flag r own reads size len e (order, sizes, ready) =
        let (v, out, left, ready', _) =
          rmw_take-channel env writes reader hazcat s own reads buffer flag w
            (omega (arith, size, len)) ready in
        let Left : Received → World → Type 0 =
          λ r v. InOrder sent (got ++ handed_out r.taken r.message) v in
        let (order', sizes') =
          answered s.info.msg_size buffer (wait w) sent got size len order sizes in
        subst (Ends Left) (sym out ∙ e) (rw left (order', sizes', ready'))

    Exchange-InOrder :
        (sent got : List Bytes) (w : World) → Exchange sent got w → InOrder sent got w
    unfolding channel contents
    Exchange-InOrder sent got w (start w' fresh depth) =
        let nothing : wait w ≡ [] = ap (contents w.calls) fresh in
        (sym nothing, rw nothing tt, (rw fresh tt, depth))
    Exchange-InOrder sent got w
          (publishes {sent = sent'} {w = w₁} p message r w' x own writer size len free e) =
        published-InOrder sent' got w₁ w p message r own writer size len free e
          (Exchange-InOrder sent' got w₁ x)
    Exchange-InOrder sent got w
          (takes {got = got'} {w = w₁} s buffer flag r w' x own reads size len e) =
        taken-InOrder sent got' w₁ w s buffer flag r own reads size len e
          (Exchange-InOrder sent got' w₁ x)

    -- Whatever the order in which the publishers of a topic and its reader make their calls, and
    -- whatever these return: the messages that were accepted are those that were handed out followed
    -- by those that wait, each in the order of its publication. None is lost, doubled, changed or
    -- overtaken. Messages and buffers have the size that both ends expect, the reader is registered
    -- with nothing waiting at first, and it keeps up: no publication meets a full queue.
    -- The hazcat library behaves as `Hazcat` says.
    pub Exchange-channel :
        (sent got : List Bytes) (w : World)
        → Exchange sent got w
        → sent ≡ got ++ channel writes reader w.calls
    Exchange-channel sent got w x = (Exchange-InOrder sent got w x).0
