-- ===== src/Channel/Receive.antt =====
-- Taking serves the channel in order: `rmw_take`, `rmw_take_with_info` and
-- `rmw_take_loaned_message`.
use https_github_com_nightdu.Base.{
  ℕ, leb-true, ◌≤◌, ◌≡◌, refl, ◌≢◌, ◌∙◌, Bool, true, false, Option, none, some, List, [], ◌∷◌, ◌++◌,
  take, drop, length, arith, ◌==◌, inl, inr, ◌⊎◌,
}
use https_github_com_nightdu.Platform.{
  Ptr, Bytes, ok, is_foreign, PubSubData, MsgRef, taken, slot_deallocated, History, Env, World,
  done, Endpoint, log,
}
use https_github_com_nightdu.Channel.{
  ref, rest, room, queued, content, contents, Absent, Hazcat, channel, IsReady,
}
use https_github_com_nightdu.Channel.Send.{contents-log}
use https_github_com_nightdu.Subscription.Receive.{
  Received, Loaned, rmw_take, rmw_take_with_info, rmw_take_loaned_message,
}

pub List-cases {ℓ} : {A : Type ℓ} (l : List A) → (l ≡ []) ⊎ ((a : A) × (r : List A) × (l ≡ a ∷ r))
List-cases [] = inl refl
List-cases (a ∷ r) = inr (a, r, refl)

-- What a reader that asks a channel is told: the oldest message, in the first `size` bytes of the
-- buffer, or that there is none.
abbrev pub answer : ℕ → Bytes → List Bytes → Received
answer size buffer [] = record { ret = ok; message = some buffer; taken = some false }
answer size buffer (m ∷ ms) = record {
  ret = ok;
  message = some (take size m ++ drop size buffer);
  taken = some true;
}

-- The same for a loan: the address of the oldest message.
abbrev pub loan : List MsgRef → Loaned
loan [] = record { ret = ok; message = some 0; taken = some false }
loan (r ∷ q) = record { ret = ok; message = some r.msg; taken = some true }

pub not_null : (p : Ptr) → 0 ≢ p → (p == 0) ≡ false
not_null p n = ground arith

module _ (env : Env) (writes : PubSubData → Bool) (reader : Ptr) (hazcat : Hazcat env writes reader)
    (s : Endpoint) (own : is_foreign s.implementation_identifier ≡ false)
    (reads : s.info.address ≡ reader) where
  queued-taken :
      (h : History) (m : MsgRef)
      → queued writes reader (taken s.info m ∷ h) ≡ rest (queued writes reader h)
  unfolding queued
  queued-taken h m = rw reads (ground arith)

  pub rmw_take-channel :
      (buffer : Bytes) (flag : Bool) (w : World)
      → s.info.msg_size ≤ length buffer
      → IsReady writes reader w.calls
      → (w' : World) × (rmw_take env (some s) (some buffer) (some flag) w
          ≡ done (answer s.info.msg_size buffer (channel writes reader w.calls)) w')
        × (channel writes reader w'.calls ≡ rest (channel writes reader w.calls))
        × IsReady writes reader w'.calls
        × (room writes reader w'.calls ≡ room writes reader w.calls)
  unfolding rmw_take channel contents content queued room
  rmw_take-channel buffer flag w enough ready = elim (List-cases (queued writes reader w.calls)) [
    | inl e ↦
        let m : MsgRef = ref (env.take_next w.calls s.info).alloc 0 in
        let none_left : queued writes reader (taken s.info m ∷ w.calls) ≡ [] =
          rw (queued-taken w.calls m, e) in
        rw (own, hazcat.take_empty w.calls s.info reads ready.1 e, e)
          (log (taken s.info m) w, refl, rw none_left, (rw none_left tt, ready.1), refl)
    | inr (r, q, e) ↦
        let waiting : Absent 0 (r ∷ q) = rw e at ready.0 in
        let c₁ = taken s.info r in
        let c₂ = slot_deallocated r.alloc (env.ptr_to_offset r.alloc r.msg) in
        let left : queued writes reader (c₂ ∷ c₁ ∷ w.calls) ≡ q = rw (queued-taken w.calls r, e) in
        rw
          (
            own,
            hazcat.take_oldest w.calls s.info r q reads e,
            not_null r.msg waiting.0,
            leb-true s.info.msg_size (length buffer) enough,
            hazcat.slot_keeps (c₁ ∷ w.calls) r.msg s.info.msg_size,
            e,
          )
          (
            log c₂ (log c₁ w),
            refl,
            rw left (
                contents-log (c₁ ∷ w.calls) c₂ q (λ a old. refl)
                ∙ contents-log w.calls c₁ q (λ a old. refl)),
            (rw left waiting.1, ready.1),
            refl,
          )
  ]

  -- `rmw_take_loaned_message` by the reader of the topic returns RMW_RET_OK, hands out the address
  -- of the oldest message and takes it out of the channel, or says that there is none and hands out
  -- NULL. The reader stays registered.
  -- The hazcat library behaves as `Hazcat` says.
  pub rmw_take_loaned_message-channel :
      (old : Ptr) (flag : Bool) (w : World)
      → IsReady writes reader w.calls
      → (w' : World) × (rmw_take_loaned_message env (some s) (some old) (some flag) w
          ≡ done (loan (queued writes reader w.calls)) w')
        × (channel writes reader w'.calls ≡ rest (channel writes reader w.calls))
        × IsReady writes reader w'.calls
        × (room writes reader w'.calls ≡ room writes reader w.calls)
  unfolding rmw_take_loaned_message channel contents content queued room
  rmw_take_loaned_message-channel old flag w ready =
      elim (List-cases (queued writes reader w.calls)) [
        | inl e ↦
            let m : MsgRef = ref (env.take_next w.calls s.info).alloc 0 in
            let none_left : queued writes reader (taken s.info m ∷ w.calls) ≡ [] =
              rw (queued-taken w.calls m, e) in
            rw (own, hazcat.take_empty w.calls s.info reads ready.1 e, e)
              (log (taken s.info m) w, refl, rw none_left, (rw none_left tt, ready.1), refl)
        | inr (r, q, e) ↦
            let waiting : Absent 0 (r ∷ q) = rw e at ready.0 in
            let c = taken s.info r in
            let left : queued writes reader (c ∷ w.calls) ≡ q = rw (queued-taken w.calls r, e) in
            rw (own, hazcat.take_oldest w.calls s.info r q reads e, not_null r.msg waiting.0, e)
              (
                log c w,
                refl,
                rw left (contents-log w.calls c q (λ a old. refl)),
                (rw left waiting.1, ready.1),
                refl,
              )
      ]

-- `rmw_take_with_info` does just what `rmw_take` does, whatever its arguments are, if the pointer to
-- the message info is not NULL.
pub rmw_take_with_info-eq-rmw_take :
    (env : Env) (subscription : Option Endpoint) (ros_message : Option Bytes) (flag : Option Bool)
    (w : World)
    → rmw_take_with_info env subscription ros_message flag (some tt) w
      ≡ rmw_take env subscription ros_message flag w
unfolding rmw_take rmw_take_with_info
rmw_take_with_info-eq-rmw_take env none ros_message flag w = refl
rmw_take_with_info-eq-rmw_take env (some s) none flag w = refl
rmw_take_with_info-eq-rmw_take env (some s) (some m) none w = refl
rmw_take_with_info-eq-rmw_take env (some s) (some m) (some f) w = refl
