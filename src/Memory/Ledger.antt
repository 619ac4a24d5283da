-- ===== src/Memory/Ledger.antt =====
-- What became of every slot: a ledger of the loans that a process holds, over any sequence of calls
-- on one topic.
use https_github_com_nightdu.Base.{
  ℕ, none, ltb, ◌<◌, ◌+◌, ◌≡◌, ◌≢◌, ℤ, pos, negsuc, Bool, true, false, ◌&&◌, List, [], ◌∷◌, ◌++◌,
  map, length, ◌==◌, if◌then◌else◌, arith, some, Option,
}
use https_github_com_nightdu.Platform.{
  Ptr, Bytes, RmwRet, ok, is_ok, is_foreign, PubSubData, Endpoint, MsgRef, Call, published,
  slot_deallocated, subscription_registered, subscription_unregistered, History, Env, World, done,
}
use https_github_com_nightdu.Typesupport.{TypeSupport}
use https_github_com_nightdu.Channel.{room, ref, queued, IsReady}
use https_github_com_nightdu.Publisher.Send.{
  rmw_publish, rmw_borrow_loaned_message, rmw_return_loaned_message_from_publisher,
  rmw_publish_loaned_message,
}
use https_github_com_nightdu.Subscription.Receive.{
  Received, Loaned, rmw_take, rmw_take_loaned_message, rmw_return_loaned_message_from_subscription,
}
use https_github_com_nightdu.Memory.Slots.{slots_out, slots_back}

-- An allocator and an offset in it.
abbrev pub Slot : Type 0
Slot = Ptr × ℤ

abbrev same_int : ℤ → ℤ → Bool
same_int (pos m) (pos n) = m == n
same_int (negsuc m) (negsuc n) = m == n
same_int (pos m) (negsuc n) = false
same_int (negsuc m) (pos n) = false

abbrev same_slot : Slot → Slot → Bool
same_slot a b = a.0 == b.0 && same_int a.1 b.1

-- How often a slot is in a list.
abbrev pub count : Slot → List Slot → ℕ
count x [] = 0
count x (y ∷ ys) = (if same_slot x y then 1 else 0) + count x ys

pub count-append :
    (f : MsgRef → Slot) (x : Slot) (xs ys : List MsgRef)
    → count x (map f (xs ++ ys)) ≡ count x (map f xs) + count x (map f ys)
count-append f x [] ys = omega arith
count-append f x (y ∷ xs) ys = omega (arith, count-append f x xs ys)

module _ (env : Env) where
  -- The slot that a message lies in.
  abbrev pub slot_of : MsgRef → Slot
  slot_of r = (r.alloc, env.ptr_to_offset r.alloc r.msg)

  abbrev add_refused : Call → List Slot → List Slot
  add_refused (published d msg size r) xs = if is_ok r then xs else slot_of (ref d.alloc msg) ∷ xs
  add_refused (slot_deallocated alloc o) xs = xs
  add_refused _ xs = xs

  -- The slots of publications that hazcat refused.
  abbrev pub refused : History → List Slot
  refused [] = []
  refused (c ∷ h) = add_refused c (refused h)

-- The loans of publishers and of the reader that were neither published nor returned yet.
pub record Loans : Type 0 where
  pub lent : List MsgRef
  pub held : List MsgRef

abbrev pub first : List MsgRef → List MsgRef
first [] = []
first (r ∷ q) = r ∷ []

-- The loan that a take handed out, if it says that there was one, of the allocator that the first
-- entry of the queue lies in.
abbrev pub handed : Option Bool → Option Ptr → List MsgRef → List MsgRef
handed (some true) (some m) (r ∷ q) = ref r.alloc m ∷ []
handed (some true) (some m) [] = ref 0 m ∷ []
handed (some true) none q = []
handed (some false) m q = []
handed none m q = []

-- The entry that makes way for a new one in a queue with room for `n`.
abbrev pub dropped : ℕ → List MsgRef → MsgRef → List MsgRef
dropped n q r = if ltb (length q) n then [] else first (q ++ r ∷ [])

module _ (writes : PubSubData → Bool) (reader : Ptr) where
  abbrev add_displaced : Call → ℕ → List MsgRef → List MsgRef → List MsgRef
  add_displaced (published d msg size r) n q old =
      if is_ok r && writes d then dropped n q (ref d.alloc msg) ++ old else old
  add_displaced (subscription_registered d topic r) n q old =
      if is_ok r && d.address == reader then q ++ old else old
  add_displaced (subscription_unregistered d r) n q old =
      if is_ok r && d.address == reader then q ++ old else old
  add_displaced _ n q old = old

  -- The entries that left the queue and were not taken: they made way in a full queue, or waited when
  -- the reader was registered anew or unregistered.
  abbrev pub displaced : History → List MsgRef
  unfolding room queued
  displaced [] = []
  displaced (c ∷ h) = add_displaced c (room writes reader h) (queued writes reader h) (displaced h)

module _ (env : Env) (writes : PubSubData → Bool) (reader : Ptr) where
  -- Slots that no loan accounts for: given back, refused, displaced, or waiting in the queue.
  abbrev pub gone : Slot → History → ℕ
  gone x h =
      count x (slots_back h)
      + count x (refused env h)
      + count x (map (slot_of env) (displaced writes reader h))
      + count x (map (slot_of env) (queued writes reader h))

  -- Each slot was handed out as often as it was given back, refused, displaced, waits or is on
  -- loan.
  abbrev pub IsConserved : Loans → World → Type 0
  IsConserved l w =
      (x : Slot)
      → count x (slots_out w.calls)
        ≡ gone x w.calls + count x (map (slot_of env) l.lent) + count x (map (slot_of env) l.held)

  -- Between two moments the loans grew by some messages and shrank by others, and what else was
  -- handed out is gone.
  abbrev pub Moves : List MsgRef → List MsgRef → World → World → Type 0
  Moves gained lost w w' =
      ((x : Slot)
        → count x (slots_out w'.calls) + gone x w.calls + count x (map (slot_of env) lost)
          ≡ count x (slots_out w.calls) + gone x w'.calls + count x (map (slot_of env) gained))
      × IsReady writes reader w'.calls

module _ (env : Env) (writes : PubSubData → Bool) (reader : Ptr) where
  -- One call by a publisher or the reader of the topic, whatever it returns. A loan that is published
  -- or returned is one that is held, and hazcat finds the allocator of a loan of the reader. A take
  -- of a loan adds what it hands out to the loans of the reader.
  pub data Turn (l : Loans) (w : World) : Loans → World → Type 0 where
    publishes :
        (p : Endpoint) (message : Bytes) (r : RmwRet) (w' : World)
        → writes p.info ≡ true
        → rmw_publish env (some p) (some message) w ≡ done r w'
        → Turn l w l w'
    borrows :
        (p : Endpoint) (support : TypeSupport) (q : Ptr) (w' : World)
        → rmw_borrow_loaned_message env (some p) (some support) (some 0) w ≡ done (ok, some q) w'
        → Turn l w (record l { lent = ref p.info.alloc q ∷ l.lent }) w'
    fails_to_borrow :
        (p : Endpoint) (support : TypeSupport) (r : RmwRet) (q : Option Ptr) (w' : World)
        → is_ok r ≡ false
        → rmw_borrow_loaned_message env (some p) (some support) (some 0) w ≡ done (r, q) w'
        → Turn l w l w'
    publishes_loan :
        (p : Endpoint) (q : Ptr) (pre post : List MsgRef) (r : RmwRet) (w' : World)
        → writes p.info ≡ true
        → 0 ≢ q
        → l.lent ≡ pre ++ ref p.info.alloc q ∷ post
        → rmw_publish_loaned_message env (some p) q w ≡ done r w'
        → Turn l w (record l { lent = pre ++ post }) w'
    returns_loan :
        (p : Endpoint) (q : Ptr) (pre post : List MsgRef) (r : RmwRet) (w' : World)
        → 0 ≢ q
        → l.lent ≡ pre ++ ref p.info.alloc q ∷ post
        → rmw_return_loaned_message_from_publisher env (some p) q w ≡ done r w'
        → Turn l w (record l { lent = pre ++ post }) w'
    takes :
        (s : Endpoint) (buffer : Bytes) (flag : Bool) (r : Received) (w' : World)
        → s.info.address ≡ reader
        → rmw_take env (some s) (some buffer) (some flag) w ≡ done r w'
        → Turn l w l w'
    takes_loan :
        (s : Endpoint) (q : Ptr) (flag : Bool) (r : Loaned) (w' : World)
        → is_foreign s.implementation_identifier ≡ false
        → s.info.address ≡ reader
        → rmw_take_loaned_message env (some s) (some q) (some flag) w ≡ done r w'
        → Turn l w
            (record l { held = handed r.taken r.message (queued writes reader w.calls) ++ l.held })
            w'
    returns_taken :
        (s : Endpoint) (m : MsgRef) (pre post : List MsgRef) (w' : World)
        → env.matching_alloc w.calls s m.msg ≡ m.alloc
        → l.held ≡ pre ++ m ∷ post
        → rmw_return_loaned_message_from_subscription env (some s) m.msg w ≡ done ok w'
        → Turn l w (record l { held = pre ++ post }) w'
    fails_to_return :
        (s : Endpoint) (m : MsgRef) (r : RmwRet) (w' : World)
        → env.matching_alloc w.calls s m.msg ≡ m.alloc
        → is_ok r ≡ false
        → rmw_return_loaned_message_from_subscription env (some s) m.msg w ≡ done r w'
        → Turn l w l w'

  -- The reader is registered, and no slot was handed out, given back, refused or displaced, or waits.
  abbrev pub Fresh : World → Type 0
  Fresh w =
      (slots_out w.calls ≡ [])
      × (slots_back w.calls ≡ [])
      × (refused env w.calls ≡ [])
      × (displaced writes reader w.calls ≡ [])
      × (queued writes reader w.calls ≡ [])
      × (0 < room writes reader w.calls)

  -- What a process can reach from a start at which no slot is in use.
  pub data Course : Loans → World → Type 0 where
    start : (w : World) → Fresh w → Course (record { lent = []; held = [] }) w
    turn : {l l' : Loans} {w w' : World} → Course l w → Turn l w l' w' → Course l' w'
