-- ===== src/Channel.antt =====
-- What a topic promises to its users, as the reading of a history: the queue of one reader, and the
-- bytes behind its entries. `Hazcat` states what the code relies on in the hazcat library.
pub mod Send
pub mod Receive
pub mod Delivery
pub mod Rounds
pub mod Sequence
pub mod Arrival
pub mod Created
pub mod Exchange
use https_github_com_nightdu.Base.{
  ℕ, ◌<◌, ltb, ◌≡◌, ◌≢◌, Bool, true, false, List, [], ◌∷◌, ◌++◌, ℤ, pos, ◌&&◌, ◌==◌, if◌then◌else◌,
  length, take,
}
use https_github_com_nightdu.Platform.{
  Ptr, Bytes, is_ok, PubSubData, MsgRef, Call, slot_written, published, taken,
  subscription_registered, subscription_unregistered, History, Env,
}

abbrev pub ref : Ptr → Ptr → MsgRef
ref alloc msg = record { alloc = alloc; msg = msg }

module _ {A : Type 0} where
  abbrev pub rest : List A → List A
  rest [] = []
  rest (x ∷ xs) = xs

  -- A queue with room for `n` entries gets one more: the oldest makes way in a full one.
  abbrev pub push : ℕ → List A → A → List A
  push n q x = if ltb (length q) n then q ++ x ∷ [] else rest (q ++ x ∷ [])

-- The topic: which endpoints publish to it, and the endpoint that reads.
module _ (writes : PubSubData → Bool) (reader : Ptr) where
  abbrev pub set_room : Call → ℕ → ℕ
  set_room (subscription_registered d topic r) n =
      if is_ok r && d.address == reader then d.depth else n
  set_room (subscription_unregistered d r) n = if is_ok r && d.address == reader then 0 else n
  set_room _ n = n

  -- How many messages are kept for the reader: the depth that it was registered with, 0 while it is
  -- not registered.
  unfoldable pub room : History → ℕ
  room [] = 0
  room (c ∷ h) = set_room c (room h)

  -- One call's effect on the reader's queue, oldest first. It starts out empty when the reader is
  -- registered.
  abbrev pub enter : Call → ℕ → List MsgRef → List MsgRef
  enter (published d msg size r) n q = if is_ok r && writes d then push n q (ref d.alloc msg) else q
  enter (taken d r) n q = if d.address == reader then rest q else q
  enter (subscription_registered d topic r) n q = if is_ok r && d.address == reader then [] else q
  enter (subscription_unregistered d r) n q = if is_ok r && d.address == reader then [] else q
  enter _ n q = q

  unfoldable pub queued : History → List MsgRef
  unfolding room
  queued [] = []
  queued (c ∷ h) = enter c (room h) (queued h)

abbrev pub write_to : Call → Ptr → Bytes → Bytes
write_to (slot_written q bytes) p old = if q == p then bytes else old
write_to (published _ _ _ _) p old = old
write_to _ p old = old

-- What lies at an address: the last message copied there.
unfoldable pub content : History → Ptr → Bytes
content [] p = []
content (c ∷ h) p = write_to c p (content h p)

unfoldable pub contents : History → List MsgRef → List Bytes
unfolding content
contents h [] = []
contents h (r ∷ q) = content h r.msg ∷ contents h q

-- No entry of the queue lies at the address.
abbrev pub Absent : Ptr → List MsgRef → Type 0
Absent p [] = Unit {0}
Absent p (r ∷ q) = (p ≢ r.msg) × Absent p q

-- Entries are no null pointers, which a reader would take for an empty queue.
abbrev NonNull : List MsgRef → Type 0
NonNull = Absent 0

-- The behaviour of hazcat that the code relies on, as src/test/hazcat_message_queue_test.cpp shows it
-- for a topic whose endpoints share one memory domain: a reader is served what was accepted since it
-- was registered, oldest first, of which only as many messages wait as its depth; a take of an empty
-- queue answers NULL. A slot handed out is not NULL and holds no waiting message; shared memory holds
-- what was last written there.
pub record Hazcat (env : Env) (writes : PubSubData → Bool) (reader : Ptr) : Type 0 where
  pub take_empty :
      (h : History) (d : PubSubData)
      → d.address ≡ reader
      → 0 < room writes reader h
      → queued writes reader h ≡ []
      → (env.take_next h d).msg ≡ 0
  pub take_oldest :
      (h : History) (d : PubSubData) (r : MsgRef) (q : List MsgRef)
      → d.address ≡ reader
      → queued writes reader h ≡ r ∷ q
      → env.take_next h d ≡ r
  pub slot_fresh :
      (h : History) (alloc : Ptr) (size o : ℕ)
      → env.allocate_slot h alloc size ≡ pos o
      → (env.get_ptr alloc (pos o) ≢ 0)
        × Absent (env.get_ptr alloc (pos o)) (queued writes reader h)
  pub slot_keeps :
      (h : History) (p : Ptr) (size : ℕ) → env.load_slot h p size ≡ take size (content h p)

module _ (writes : PubSubData → Bool) (reader : Ptr) where
  -- The messages that wait for the reader, oldest first.
  unfoldable pub channel : History → List Bytes
  unfolding queued contents
  channel h = contents h (queued writes reader h)

  -- The reader is registered, with a depth of one or more, and no entry is NULL.
  abbrev pub IsReady : History → Type 0
  IsReady h = NonNull (queued writes reader h) × (0 < room writes reader h)
