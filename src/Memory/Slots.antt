-- ===== src/Memory/Slots.antt =====
-- The slots of messages that are handed out and given back, and loans of publishers.
use https_github_com_nightdu.Base.{
  ℕ, ◌≡◌, refl, ap, subst, ◌∙◌, ℤ, pos, negsuc, Bool, true, false, Option, none, some, List, [],
  ◌∷◌, inl, inr, Bool-cases, Option-cases, ℤ-cases, arith,
}
use https_github_com_nightdu.Platform.{
  Ptr, ok, is_ok, is_foreign, RmwRet, Endpoint, Call, slot_allocated, slot_deallocated, History,
  Env, World, Outcome, done, fault,
}
use https_github_com_nightdu.Typesupport.{
  TypeSupport, Handle, size_of, rmw_get_serialized_message_size,
}
use https_github_com_nightdu.Publisher.Send.{
  rmw_borrow_loaned_message, rmw_return_loaned_message_from_publisher,
}

abbrev add_out : Call → List (Ptr × ℤ) → List (Ptr × ℤ)
add_out (slot_allocated alloc size (pos o)) xs = (alloc, pos o) ∷ xs
add_out (slot_allocated alloc size (negsuc o)) xs = xs
add_out (slot_deallocated alloc o) xs = xs
add_out _ xs = xs

abbrev add_back : Call → List (Ptr × ℤ) → List (Ptr × ℤ)
add_back (slot_deallocated alloc o) xs = (alloc, o) ∷ xs
add_back (slot_allocated alloc size o) xs = xs
add_back _ xs = xs

-- The slots handed out, newest first, and those given back: allocator and offset.
abbrev pub slots_out : History → List (Ptr × ℤ)
slots_out [] = []
slots_out (c ∷ h) = add_out c (slots_out h)

abbrev pub slots_back : History → List (Ptr × ℤ)
slots_back [] = []
slots_back (c ∷ h) = add_back c (slots_back h)

-- One slot of an allocator was handed out, the one that an address leads to, and none given back.
abbrev pub Lent : Env → Ptr → Ptr → ℕ → World → World → Type 0
Lent env alloc q o w w' =
    (q ≡ env.get_ptr alloc (pos o))
    × (slots_out w'.calls ≡ (alloc, pos o) ∷ slots_out w.calls)
    × (slots_back w'.calls ≡ slots_back w.calls)

abbrev LentIf : Env → Ptr → World → Bool → Option Ptr → World → Type 0
LentIf env alloc w true (some q) w' = (o : ℕ) × Lent env alloc q o w w'
LentIf env alloc w true none w' = Unit {0}
LentIf env alloc w false q w' = Unit {0}

-- A function failed, or lent a slot.
abbrev Lends : Env → Ptr → World → Outcome (RmwRet × Option Ptr) → Type 0
Lends env alloc w (done r w') = LentIf env alloc w (is_ok r.0) r.1 w'
Lends env alloc w fault = Unit {0}

module _ (env : Env) (p : Endpoint) (w : World) where
  lends :
      (c cpp : Option Handle)
      → is_foreign p.implementation_identifier ≡ false
      → let support : TypeSupport = record { introspection_c = c; introspection_cpp = cpp } in
        Lends env p.info.alloc w (rmw_borrow_loaned_message env (some p) (some support) (some 0) w)
  unfolding rmw_borrow_loaned_message rmw_get_serialized_message_size
  lends (some ts) cpp own = elim (Option-cases ts.table) [
    | inl missing ↦ rw (own, missing) tt
    | inr (t, given) ↦ elim (ℤ-cases (env.allocate_slot w.calls p.info.alloc (size_of t))) [
      | inl (o, e) ↦ rw (own, given, e) (o, (refl, refl, refl))
      | inr (o, e) ↦ rw (own, given, e) tt
    ]
  ]
  lends none (some ts) own = elim (Option-cases ts.table) [
    | inl missing ↦ rw (own, missing) tt
    | inr (t, given) ↦ elim (ℤ-cases (env.allocate_slot w.calls p.info.alloc (size_of t))) [
      | inl (o, e) ↦ rw (own, given, e) (o, (refl, refl, refl))
      | inr (o, e) ↦ rw (own, given, e) tt
    ]
  ]
  lends none none own = rw own tt

  rmw_borrow_loaned_message-Lends :
      (support : TypeSupport)
      → Lends env p.info.alloc w (rmw_borrow_loaned_message env (some p) (some support) (some 0) w)
  unfolding rmw_borrow_loaned_message
  rmw_borrow_loaned_message-Lends support =
      elim (Bool-cases (is_foreign p.implementation_identifier)) [
        | inl bad ↦ rw bad tt
        | inr own ↦ lends support.introspection_c support.introspection_cpp own
      ]

-- A loan that `rmw_borrow_loaned_message` granted is one slot of the publisher's allocator, and
-- `rmw_return_loaned_message_from_publisher` gives back that very slot and no other, without handing
-- out any. PTR_TO_OFFSET undoes GET_PTR.
pub rmw_return_loaned_message_from_publisher-rmw_borrow_loaned_message :
    (env : Env) (p : Endpoint) (support : TypeSupport) (q : Ptr) (w w₁ w₂ w₃ : World)
    → ((o : ℕ) → env.ptr_to_offset p.info.alloc (env.get_ptr p.info.alloc (pos o)) ≡ pos o)
    → rmw_borrow_loaned_message env (some p) (some support) (some 0) w ≡ done (ok, some q) w₁
    → rmw_return_loaned_message_from_publisher env (some p) q w₂ ≡ done ok w₃
    → (o : ℕ) × Lent env p.info.alloc q o w w₁
      × (slots_out w₃.calls ≡ slots_out w₂.calls)
      × (slots_back w₃.calls ≡ (p.info.alloc, pos o) ∷ slots_back w₂.calls)
unfolding rmw_return_loaned_message_from_publisher
rmw_return_loaned_message_from_publisher-rmw_borrow_loaned_message env p support q w w₁ w₂ w₃ undo b
      r =
    let (o, lent) =
      subst (Lends env p.info.alloc w) b (rmw_borrow_loaned_message-Lends env p w support) in
    let same : env.ptr_to_offset p.info.alloc q ≡ pos o =
      ap (env.ptr_to_offset p.info.alloc) lent.0 ∙ undo o in
    (o, lent, ground arith, ground (arith, same))
