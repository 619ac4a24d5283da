-- ===== src/Memory/Sends.antt =====
-- What the functions of a publisher do to the ledger.
use https_github_com_nightdu.Base.{
  ℕ, ◌++◌, ltb, leb, length, zero, suc, ◌+◌, ◌≡◌, ◌≢◌, refl, ap, sym, pos, Bool, true, false, List,
  [], ◌∷◌, map, take, if◌then◌else◌, arith, some, none, Option, inl, inr, Bool-cases, ℤ-cases,
  Option-cases,
}
use https_github_com_nightdu.Platform.{
  Ends, Ptr, Bytes, RmwRet, is_ok, is_foreign, PubSubData, Endpoint, MsgRef, published,
  slot_written, slot_allocated, History, Env, World, log,
}
use https_github_com_nightdu.Channel.{ref, rest, push, room, queued, Hazcat, IsReady}
use https_github_com_nightdu.Channel.Send.{Absent-push}
use https_github_com_nightdu.Typesupport.{
  TypeSupport, Handle, size_of, rmw_get_serialized_message_size,
}
use https_github_com_nightdu.Publisher.Send.{
  rmw_publish, rmw_borrow_loaned_message, rmw_return_loaned_message_from_publisher,
  rmw_publish_loaned_message,
}
use https_github_com_nightdu.Memory.Ledger.{
  first, dropped, displaced, Moves, Slot, count, count-append, slot_of, gone,
}

module _ (env : Env) (writes : PubSubData → Bool) (reader : Ptr) where
  count-rest :
      (x : Slot) (q : List MsgRef)
      → count x (map (slot_of env) (rest q)) + count x (map (slot_of env) (first q))
        ≡ count x (map (slot_of env) q)
  count-rest x [] = refl
  count-rest x (r ∷ q) = omega arith

  count-push :
      (x : Slot) (n : ℕ) (q : List MsgRef) (r : MsgRef)
      → count x (map (slot_of env) (push n q r)) + count x (map (slot_of env) (dropped n q r))
        ≡ count x (map (slot_of env) q) + count x (map (slot_of env) (r ∷ []))
  count-push x n q r =
      let whole = count-append (slot_of env) x q (r ∷ []) in
      elim (Bool-cases (ltb (length q) n)) [
        | inl e ↦ rw e (omega (arith, whole))
        | inr e ↦ rw e (omega (arith, whole, count-rest x (q ++ r ∷ [])))
      ]

  gone-published :
      (x : Slot) (d : PubSubData) (msg : Ptr) (size : ℕ) (r : RmwRet) (h : History)
      → writes d ≡ true
      → gone env writes reader x (published d msg size r ∷ h)
        ≡ gone env writes reader x h + count x (map (slot_of env) (ref d.alloc msg ∷ []))
  unfolding queued room
  gone-published x d msg size r h writer =
      let n = room writes reader h in
      let q = queued writes reader h in
      let v = ref d.alloc msg in
      let old = displaced writes reader h in
      elim (Bool-cases (is_ok r)) [
        | inl e ↦
            rw (e, writer)
              (omega (arith, count-push x n q v, count-append (slot_of env) x (dropped n q v) old))
        | inr e ↦ rw e (omega arith)
      ]

  published-IsReady :
      (d : PubSubData) (msg : Ptr) (size : ℕ) (r : RmwRet) (h : History)
      → writes d ≡ true
      → 0 ≢ msg
      → IsReady writes reader h
      → IsReady writes reader (published d msg size r ∷ h)
  unfolding queued room
  published-IsReady d msg size r h writer n ready =
      let more =
        Absent-push 0 (room writes reader h) (queued writes reader h) (ref d.alloc msg) ready.0 n in
      (elim (Bool-cases (is_ok r)) [ inl e ↦ rw (e, writer) more | inr e ↦ rw e ready.0 ], ready.1)

  pub rmw_publish_loaned_message-Moves :
      (p : Endpoint) (q : Ptr) (w : World)
      → writes p.info ≡ true
      → 0 ≢ q
      → IsReady writes reader w.calls
      → Ends
          (λ r w'. Moves env writes reader [] (ref p.info.alloc q ∷ []) w w')
          (rmw_publish_loaned_message env (some p) q w)
  unfolding rmw_publish_loaned_message queued room
  rmw_publish_loaned_message-Moves p zero w writer n ready = absurd (n refl)
  rmw_publish_loaned_message-Moves p (suc a) w writer n ready =
      let r = env.publish w.calls p.info (suc a) p.info.msg_size in
      (
        λ x. omega (arith, gone-published x p.info (suc a) p.info.msg_size r w.calls writer),
        published-IsReady p.info (suc a) p.info.msg_size r w.calls writer n ready,
      )

  pub rmw_return_loaned_message_from_publisher-Moves :
      (p : Endpoint) (q : Ptr) (w : World)
      → 0 ≢ q
      → IsReady writes reader w.calls
      → Ends
          (λ r w'. Moves env writes reader [] (ref p.info.alloc q ∷ []) w w')
          (rmw_return_loaned_message_from_publisher env (some p) q w)
  unfolding rmw_return_loaned_message_from_publisher queued room
  rmw_return_loaned_message_from_publisher-Moves p zero w n ready = absurd (n refl)
  rmw_return_loaned_message_from_publisher-Moves p (suc a) w n ready = (λ x. omega arith, ready)

module _ (env : Env) (writes : PubSubData → Bool) (reader : Ptr) (hazcat : Hazcat env writes reader)
    (undo : (alloc : Ptr) (o : ℕ)
      → env.ptr_to_offset alloc (env.get_ptr alloc (pos o)) ≡ pos o) where
  -- Publishing a copy leaves all loans alone.
  pub rmw_publish-Moves :
      (p : Endpoint) (message : Bytes) (w : World)
      → writes p.info ≡ true
      → IsReady writes reader w.calls
      → Ends
          (λ r w'. Moves env writes reader [] [] w w')
          (rmw_publish env (some p) (some message) w)
  unfolding rmw_publish queued room
  rmw_publish-Moves p message w writer ready =
      elim (Bool-cases (is_foreign p.implementation_identifier)) [
        | inl bad ↦ rw bad (λ x. omega arith, ready)
        | inr own ↦ elim (ℤ-cases (env.allocate_slot w.calls p.info.alloc p.info.msg_size)) [
          | inl (o, e) ↦
              let alloc = p.info.alloc in
              let n = p.info.msg_size in
              let msg = env.get_ptr alloc (pos o) in
              let h : History =
                slot_written msg (take p.info.msg_size message)
                ∷ slot_allocated alloc p.info.msg_size (pos o)
                ∷ w.calls in
              let r = env.publish h p.info msg p.info.msg_size in
              elim (Bool-cases (leb n (length message))) [
                | inr short ↦ rw (own, e, short) tt
                | inl enough ↦
                    rw (own, e, enough)
                      (
                        λ x. omega (
                          arith,
                          gone-published env writes reader x p.info msg n r h writer,
                          ap (λ z. count x ((alloc, z) ∷ [])) (undo alloc o),
                        ),
                        published-IsReady env writes reader p.info msg n r h writer
                            (λ null. (hazcat.slot_fresh w.calls alloc n o e).0 (sym null)) ready,
                      )
              ]
          | inr (o, e) ↦ rw (own, e) (λ x. omega arith, ready)
        ]
      ]

-- The loan that a call granted, if it did.
abbrev pub granted : Ptr → RmwRet × Option Ptr → List MsgRef
granted alloc (r, none) = []
granted alloc (r, some q) = if is_ok r then ref alloc q ∷ [] else []

pub not_granted :
    (alloc : Ptr) (r : RmwRet) (q : Option Ptr) → is_ok r ≡ false → granted alloc (r, q) ≡ []
not_granted alloc r none failed = refl
not_granted alloc r (some q) failed = rw failed refl

module _ (env : Env) (writes : PubSubData → Bool) (reader : Ptr)
    (undo : (alloc : Ptr) (o : ℕ)
      → env.ptr_to_offset alloc (env.get_ptr alloc (pos o)) ≡ pos o) where
  granted-Moves :
      (alloc : Ptr) (size o : ℕ) (w : World)
      → IsReady writes reader w.calls
      → Moves env writes reader
          (ref alloc (env.get_ptr alloc (pos o)) ∷ [])
          []
          w
          (log (slot_allocated alloc size (pos o)) w)
  unfolding queued room
  granted-Moves alloc size o w ready =
      (λ x. omega (arith, ap (λ z. count x ((alloc, z) ∷ [])) (undo alloc o)), ready)

  borrow-Moves :
      (p : Endpoint) (c cpp : Option Handle) (w : World)
      → is_foreign p.implementation_identifier ≡ false
      → IsReady writes reader w.calls
      → let support : TypeSupport = record { introspection_c = c; introspection_cpp = cpp } in
        Ends
          (λ a w'. Moves env writes reader (granted p.info.alloc a) [] w w')
          (rmw_borrow_loaned_message env (some p) (some support) (some 0) w)
  unfolding rmw_borrow_loaned_message rmw_get_serialized_message_size queued room
  borrow-Moves p (some ts) cpp w own ready = elim (Option-cases ts.table) [
    | inl missing ↦ rw (own, missing) (λ x. omega arith, ready)
    | inr (t, given) ↦ elim (ℤ-cases (env.allocate_slot w.calls p.info.alloc (size_of t))) [
      | inl (o, e) ↦ rw (own, given, e) (granted-Moves p.info.alloc (size_of t) o w ready)
      | inr (o, e) ↦ rw (own, given, e) (λ x. omega arith, ready)
    ]
  ]
  borrow-Moves p none (some ts) w own ready = elim (Option-cases ts.table) [
    | inl missing ↦ rw (own, missing) (λ x. omega arith, ready)
    | inr (t, given) ↦ elim (ℤ-cases (env.allocate_slot w.calls p.info.alloc (size_of t))) [
      | inl (o, e) ↦ rw (own, given, e) (granted-Moves p.info.alloc (size_of t) o w ready)
      | inr (o, e) ↦ rw (own, given, e) (λ x. omega arith, ready)
    ]
  ]
  borrow-Moves p none none w own ready = rw own (λ x. omega arith, ready)

  pub rmw_borrow_loaned_message-Moves :
      (p : Endpoint) (support : TypeSupport) (w : World)
      → IsReady writes reader w.calls
      → Ends
          (λ a w'. Moves env writes reader (granted p.info.alloc a) [] w w')
          (rmw_borrow_loaned_message env (some p) (some support) (some 0) w)
  unfolding rmw_borrow_loaned_message queued room
  rmw_borrow_loaned_message-Moves p support w ready =
      elim (Bool-cases (is_foreign p.implementation_identifier)) [
        | inl bad ↦ rw bad (λ x. omega arith, ready)
        | inr own ↦ borrow-Moves p support.introspection_c support.introspection_cpp w own ready
      ]
