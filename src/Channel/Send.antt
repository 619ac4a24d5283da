-- ===== src/Channel/Send.antt =====
-- Publishing appends to the channel: `rmw_publish` and `rmw_publish_loaned_message`.
use https_github_com_nightdu.Base.{
  ◌<◌, length, ltb, leb-true, ◌≤◌, ℕ, zero, suc, ◌≡◌, refl, ap, ◌≢◌, Bool, true, false, List, [],
  ◌∷◌, ◌++◌, pos, negsuc, take, some, arith, if◌then◌else◌, inl, inr, Bool-cases, sym, ap₂, ◌∙◌,
  ℤ-cases,
}
use https_github_com_nightdu.Platform.{
  Ptr, Bytes, RmwRet, error, is_ok, is_foreign, PubSubData, MsgRef, Call, slot_written, published,
  slot_allocated, error_set, size_printed, History, Env, World, done, Outcome, Endpoint,
}
use https_github_com_nightdu.Channel.{
  ref, push, rest, room, write_to, queued, content, contents, Absent, Hazcat, channel, IsReady,
}
use https_github_com_nightdu.Publisher.Send.{rmw_publish, rmw_publish_loaned_message}

-- A call that copies nothing leaves the waiting messages alone.
pub contents-log :
    (h : History) (c : Call) (q : List MsgRef)
    → ((p : Ptr) (old : Bytes) → write_to c p old ≡ old)
    → contents (c ∷ h) q ≡ contents h q
unfolding contents content
contents-log h c [] quiet = refl
contents-log h c (r ∷ q) quiet = ap₂ ◌∷◌ (quiet r.msg (content h r.msg)) (contents-log h c q quiet)

pub length-contents : (h : History) (q : List MsgRef) → length (contents h q) ≡ length q
unfolding contents
length-contents h [] = refl
length-contents h (r ∷ q) = ap suc (length-contents h q)

contents-rest : (h : History) (q : List MsgRef) → contents h (rest q) ≡ rest (contents h q)
unfolding contents
contents-rest h [] = refl
contents-rest h (r ∷ q) = refl

-- The calls of a publication, newest first.
abbrev publication : Endpoint → Bytes → Ptr → ℕ → RmwRet → History → History
publication p bytes msg o r h =
    published p.info msg p.info.msg_size r
    ∷ slot_written msg bytes
    ∷ slot_allocated p.info.alloc p.info.msg_size (pos o)
    ∷ h

-- A publication elsewhere leaves the waiting messages alone.
contents-publication :
    (p : Endpoint) (bytes : Bytes) (msg : Ptr) (o : ℕ) (r : RmwRet) (h : History) (q : List MsgRef)
    → Absent msg q
    → contents (publication p bytes msg o r h) q ≡ contents h q
unfolding contents content
contents-publication p bytes msg o r h [] a = refl
contents-publication p bytes msg o r h (x ∷ q) a =
    ground (arith, contents-publication p bytes msg o r h q a.1)

content-published :
    (h : History) (d : PubSubData) (p msg : Ptr) (size : ℕ) (r : RmwRet)
    → content (published d msg size r ∷ h) p ≡ content h p
unfolding content
content-published h d p msg size r = refl

content-publication :
    (p : Endpoint) (bytes : Bytes) (msg : Ptr) (o : ℕ) (r : RmwRet) (h : History)
    → content (publication p bytes msg o r h) msg ≡ bytes
unfolding content
content-publication p bytes msg o r h = ground arith

contents-append :
    (h : History) (q : List MsgRef) (r : MsgRef)
    → contents h (q ++ r ∷ []) ≡ contents h q ++ content h r.msg ∷ []
unfolding contents
contents-append h [] r = refl
contents-append h (x ∷ q) r = ap (λ l. content h x.msg ∷ l) (contents-append h q r)

pub push_space : {A : Type 0} (n : ℕ) (q : List A) (x : A) → length q < n → push n q x ≡ q ++ x ∷ []
push_space n q x space = ground arith

contents-push :
    (h : History) (n : ℕ) (q : List MsgRef) (r : MsgRef)
    → contents h (push n q r) ≡ push n (contents h q) (content h r.msg)
contents-push h n q r = elim (Bool-cases (ltb (length q) n)) [
  | inl e ↦ rw (length-contents h q, e) (contents-append h q r)
  | inr e ↦
      rw (length-contents h q, e) (contents-rest h (q ++ r ∷ []) ∙ ap rest (contents-append h q r))
]

pub Absent-rest : (p : Ptr) (q : List MsgRef) → Absent p q → Absent p (rest q)
Absent-rest p [] a = tt
Absent-rest p (r ∷ q) a = a.1

pub Absent-append :
    (p : Ptr) (q : List MsgRef) (r : MsgRef) → Absent p q → p ≢ r.msg → Absent p (q ++ r ∷ [])
Absent-append p [] r a n = (n, tt)
Absent-append p (x ∷ q) r a n = (a.0, Absent-append p q r a.1 n)

pub Absent-push :
    (p : Ptr) (n : ℕ) (q : List MsgRef) (r : MsgRef)
    → Absent p q
    → p ≢ r.msg
    → Absent p (push n q r)
Absent-push p n q r a d =
    let more = Absent-append p q r a d in
    elim (Bool-cases (ltb (length q) n)) [
      | inl e ↦ rw e more
      | inr e ↦ rw e (Absent-rest p (q ++ r ∷ []) more)
    ]

-- What a publication of `bytes` may do to the channel: it returns, without a fault, and if the result
-- is RMW_RET_OK the bytes wait behind all others, of which the oldest makes way if the queue is full;
-- if not, nothing has changed.
abbrev pub Appends : (PubSubData → Bool) → Ptr → Bytes → World → Outcome RmwRet → Type 0
Appends writes reader bytes w out =
    (r : RmwRet) × (w' : World) × (out ≡ done r w')
    × (channel writes reader w'.calls ≡ (
        if is_ok r
        then push (room writes reader w.calls) (channel writes reader w.calls) bytes
        else channel writes reader w.calls))
    × IsReady writes reader w'.calls
    × (room writes reader w'.calls ≡ room writes reader w.calls)

module _ (env : Env) (writes : PubSubData → Bool) (reader : Ptr) (hazcat : Hazcat env writes reader)
    (p : Endpoint) (own : is_foreign p.implementation_identifier ≡ false)
    (writer : writes p.info ≡ true) where
  -- A publication that hazcat accepts adds its bytes at the end; one that it refuses adds none.
  channel-publication :
      (bytes : Bytes) (msg : Ptr) (o : ℕ) (r : RmwRet) (h : History)
      → Absent msg (queued writes reader h)
      → channel writes reader (publication p bytes msg o r h) ≡ (
          if is_ok r
          then push (room writes reader h) (channel writes reader h) bytes
          else channel writes reader h)
  unfolding channel room
  channel-publication bytes msg o r h fresh =
      let q = queued writes reader h in
      let n = room writes reader h in
      let v : MsgRef = ref p.info.alloc msg in
      let same = contents-publication p bytes msg o r h q fresh in
      let h' = publication p bytes msg o r h in
      let more : contents h' (push n q v) ≡ push n (contents h q) bytes =
        contents-push h' n q v ∙ ap₂ (push n) same (content-publication p bytes msg o r h) in
      elim (Bool-cases (is_ok r)) [ inl e ↦ rw (e, writer) more | inr e ↦ rw e same ]

  -- Entries of the queue stay different from NULL.
  publication-IsReady :
      (bytes : Bytes) (msg : Ptr) (o : ℕ) (r : RmwRet) (h : History)
      → msg ≢ 0
      → IsReady writes reader h
      → IsReady writes reader (publication p bytes msg o r h)
  unfolding queued room
  publication-IsReady bytes msg o r h n ready =
      let more =
        Absent-push 0 (room writes reader h) (queued writes reader h) (ref p.info.alloc msg) ready.0
          (λ e. n (sym e)) in
      (elim (Bool-cases (is_ok r)) [ inl e ↦ rw (e, writer) more | inr e ↦ rw e ready.0 ], ready.1)

  -- `rmw_publish` of one of this library's publishers on the topic, for a message of at least
  -- `msg_size` bytes and while a reader is registered, always returns. If it returns RMW_RET_OK the
  -- first `msg_size` bytes of the message wait behind those that waited before, of which the oldest
  -- makes way if as many waited as the depth of the reader; on any other result the channel is what
  -- it was. The reader stays registered, and no entry of its queue is NULL.
  -- The hazcat library behaves as `Hazcat` says.
  pub rmw_publish-channel :
      (message : Bytes) (w : World)
      → p.info.msg_size ≤ length message
      → IsReady writes reader w.calls
      → Appends writes reader
          (take p.info.msg_size message)
          w
          (rmw_publish env (some p) (some message) w)
  unfolding rmw_publish channel queued room
  rmw_publish-channel message w enough ready =
      elim (ℤ-cases (env.allocate_slot w.calls p.info.alloc p.info.msg_size)) [
        | inl (o, e) ↦
            let msg = env.get_ptr p.info.alloc (pos o) in
            let bytes = take p.info.msg_size message in
            let fresh = hazcat.slot_fresh w.calls p.info.alloc p.info.msg_size o e in
            let h' =
              slot_written msg bytes
              ∷ slot_allocated p.info.alloc p.info.msg_size (pos o)
              ∷ w.calls in
            let r = env.publish h' p.info msg p.info.msg_size in
            rw (own, e, leb-true p.info.msg_size (length message) enough)
              (
                r,
                record w { calls = publication p bytes msg o r w.calls },
                refl,
                channel-publication bytes msg o r w.calls fresh.1,
                publication-IsReady bytes msg o r w.calls fresh.0 ready,
                refl,
              )
        | inr (o, e) ↦
            let q = queued writes reader w.calls in
            let c₁ = slot_allocated p.info.alloc p.info.msg_size (negsuc o) in
            let c₂ = error_set "unable to allocate memory for message." in
            let c₃ = size_printed p.info.msg_size in
            rw (own, e)
              (
                error,
                record w { calls = c₃ ∷ c₂ ∷ c₁ ∷ w.calls },
                refl,
                contents-log (c₂ ∷ c₁ ∷ w.calls) c₃ q (λ a old. refl)
                    ∙ contents-log (c₁ ∷ w.calls) c₂ q (λ a old. refl)
                    ∙ contents-log w.calls c₁ q (λ a old. refl),
                ready,
                refl,
              )
      ]

  -- `rmw_publish_loaned_message` of a publisher on the topic, for a loaned slot that is not NULL and
  -- holds no message that waits already, and while a reader is registered, always returns. If it
  -- returns RMW_RET_OK the bytes that lie in the slot wait behind the messages that waited before, of
  -- which the oldest makes way if as many waited as the depth of the reader; on any other result the
  -- channel is what it was. The reader stays registered, and no entry of its queue is NULL.
  -- The hazcat library behaves as `Hazcat` says.
  pub rmw_publish_loaned_message-channel :
      (msg : Ptr) (w : World)
      → msg ≢ 0
      → Absent msg (queued writes reader w.calls)
      → IsReady writes reader w.calls
      → Appends writes reader
          (content w.calls msg)
          w
          (rmw_publish_loaned_message env (some p) msg w)
  unfolding rmw_publish_loaned_message channel queued room
  rmw_publish_loaned_message-channel zero w n fresh ready = absurd (n refl)
  rmw_publish_loaned_message-channel (suc a) w nonnull fresh ready =
      let msg : Ptr = suc a in
      let r = env.publish w.calls p.info msg p.info.msg_size in
      let q = queued writes reader w.calls in
      let v : MsgRef = ref p.info.alloc msg in
      let c = published p.info msg p.info.msg_size r in
      let h' : History = c ∷ w.calls in
      let same = contents-log w.calls c q (λ b old. refl) in
      let n = room writes reader w.calls in
      let more : contents h' (push n q v) ≡ push n (contents w.calls q) (content w.calls msg) =
        contents-push h' n q v
        ∙ ap₂ (push n) same (content-published w.calls p.info msg msg p.info.msg_size r) in
      (
        r,
        record w { calls = h' },
        refl,
        elim (Bool-cases (is_ok r)) [ inl e ↦ rw (e, writer) more | inr e ↦ rw e same ],
        (
          elim (Bool-cases (is_ok r)) [
            | inl e ↦ rw (e, writer) (Absent-push 0 n q v ready.0 (λ e. nonnull (sym e)))
            | inr e ↦ rw e ready.0
          ],
          ready.1,
        ),
        refl,
      )
