-- ===== src/Memory/Takes.antt =====
-- What the functions of a reader do to the ledger.
use https_github_com_nightdu.Base.{
  ◌∙◌, leb, ap, suc, ◌==◌, length, zero, suc, ◌≡◌, ap, Bool, false, List, [], ◌∷◌, if◌then◌else◌,
  arith, some, inl, inr, Bool-cases,
}
use https_github_com_nightdu.Platform.{
  Ends, taken, Ptr, Bytes, RmwRet, is_ok, is_foreign, PubSubData, Endpoint, MsgRef, History, Env,
  World,
}
use https_github_com_nightdu.Channel.{ref, room, rest, Absent, queued, Hazcat, IsReady}
use https_github_com_nightdu.Channel.Receive.{List-cases, not_null}
use https_github_com_nightdu.Subscription.Receive.{
  rmw_take, rmw_take_loaned_message, rmw_return_loaned_message_from_subscription,
}
use https_github_com_nightdu.Memory.Ledger.{Moves, handed}

-- The loan that a call took back, if it did.
abbrev pub settled : MsgRef → RmwRet → List MsgRef
settled m r = if is_ok r then m ∷ [] else []

module _ (env : Env) (writes : PubSubData → Bool) (reader : Ptr) where
  queued-taken :
      (s : Endpoint) (m : MsgRef) (h : History)
      → s.info.address ≡ reader
      → queued writes reader (taken s.info m ∷ h) ≡ rest (queued writes reader h)
  unfolding queued
  queued-taken s m h reads = rw reads (ground arith)

  returned-Moves :
      (s : Endpoint) (alloc msg : Ptr) (w : World)
      → env.matching_alloc w.calls s msg ≡ alloc
      → IsReady writes reader w.calls
      → Ends
          (λ r w'. Moves env writes reader [] (settled (ref alloc msg) r) w w')
          (rmw_return_loaned_message_from_subscription env (some s) msg w)
  unfolding rmw_return_loaned_message_from_subscription queued room
  returned-Moves s alloc zero w found ready = (λ x. omega arith, ready)
  returned-Moves s alloc (suc a) w found ready =
      elim (Bool-cases (is_foreign s.implementation_identifier)) [
        | inl bad ↦ rw bad (λ x. omega arith, ready)
        | inr own ↦ elim (Bool-cases (alloc == 0)) [
          | inl e ↦ rw (own, found, e) (λ x. omega arith, ready)
          | inr e ↦ rw (own, found, e) (λ x. omega arith, ready)
        ]
      ]

  pub rmw_return_loaned_message_from_subscription-Moves :
      (s : Endpoint) (m : MsgRef) (w : World)
      → env.matching_alloc w.calls s m.msg ≡ m.alloc
      → IsReady writes reader w.calls
      → Ends
          (λ r w'. Moves env writes reader [] (settled m r) w w')
          (rmw_return_loaned_message_from_subscription env (some s) m.msg w)
  unfolding rmw_return_loaned_message_from_subscription queued room
  rmw_return_loaned_message_from_subscription-Moves s m w found ready =
      returned-Moves s m.alloc m.msg w found ready

module _ (env : Env) (writes : PubSubData → Bool) (reader : Ptr)
    (hazcat : Hazcat env writes reader) where
  pub rmw_take-Moves :
      (s : Endpoint) (buffer : Bytes) (flag : Bool) (w : World)
      → s.info.address ≡ reader
      → IsReady writes reader w.calls
      → Ends
          (λ r w'. Moves env writes reader [] [] w w')
          (rmw_take env (some s) (some buffer) (some flag) w)
  unfolding rmw_take queued room
  rmw_take-Moves s buffer flag w reads ready =
      elim (Bool-cases (is_foreign s.implementation_identifier)) [
        | inl bad ↦ rw bad (λ x. omega arith, ready)
        | inr own ↦ elim (List-cases (queued writes reader w.calls)) [
          | inl e ↦
              let left =
                queued-taken env writes reader s (env.take_next w.calls s.info) w.calls reads
                ∙ ap rest e in
              rw (own, hazcat.take_empty w.calls s.info reads ready.1 e)
                (λ x. rw (left, e) (omega arith), (rw left tt, ready.1))
          | inr (r, q, e) ↦
              let waiting : Absent 0 (r ∷ q) = rw e at ready.0 in
              let left = queued-taken env writes reader s r w.calls reads ∙ ap rest e in
              elim (Bool-cases (leb s.info.msg_size (length buffer))) [
                | inr short ↦
                    rw
                      (
                        own,
                        hazcat.take_oldest w.calls s.info r q reads e,
                        not_null r.msg waiting.0,
                        short,
                      )
                      tt
                | inl enough ↦
                    rw
                      (
                        own,
                        hazcat.take_oldest w.calls s.info r q reads e,
                        not_null r.msg waiting.0,
                        enough,
                      )
                      (λ x. rw (left, e) (omega arith), (rw left waiting.1, ready.1))
              ]
        ]
      ]

  pub rmw_take_loaned_message-Moves :
      (s : Endpoint) (old : Ptr) (flag : Bool) (w : World)
      → is_foreign s.implementation_identifier ≡ false
      → s.info.address ≡ reader
      → IsReady writes reader w.calls
      → Ends
          (λ r w'.
            Moves env writes reader
              (handed r.taken r.message (queued writes reader w.calls))
              []
              w
              w')
          (rmw_take_loaned_message env (some s) (some old) (some flag) w)
  unfolding rmw_take_loaned_message queued room
  rmw_take_loaned_message-Moves s old flag w own reads ready =
      elim (List-cases (queued writes reader w.calls)) [
        | inl e ↦
            let left =
              queued-taken env writes reader s (env.take_next w.calls s.info) w.calls reads
              ∙ ap rest e in
            rw (own, hazcat.take_empty w.calls s.info reads ready.1 e)
              (λ x. rw (left, e) (omega arith), (rw left tt, ready.1))
        | inr (r, q, e) ↦
            let waiting : Absent 0 (r ∷ q) = rw e at ready.0 in
            let left = queued-taken env writes reader s r w.calls reads ∙ ap rest e in
            rw (own, hazcat.take_oldest w.calls s.info r q reads e, not_null r.msg waiting.0)
              (λ x. rw (left, e) (omega arith), (rw left waiting.1, ready.1))
      ]
