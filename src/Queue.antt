-- ===== src/Queue.antt =====
-- libs/queue.h and libs/queue.c: the message queue of a client, a singly linked list of packets.
-- A packet is its address. The mutex is not part of the model: each function runs between its
-- caller's lock and unlock.
pub mod Refine
pub mod Fifo
use concurrent_server.Base.{
  ℕ, zero, suc, Bool, true, false, Option, none, some, ◌==◌, if◌then◌else◌, fault,
}
use concurrent_server.Heap.{
  Ptr, null, Store, Cmd, pure, ◌>>=◌, ◌>>◌, load, modify, alloc, free, dtor,
}

pub record QueueNode : Type 0 where
  pub packet : Ptr
  pub next : Ptr

pub record GenericQueue : Type 0 where
  pub head : Ptr
  pub tail : Ptr

abbrev pub queue : Ptr → Ptr → GenericQueue
queue h t = record { head = h; tail = t }

-- `malloc` is whether the allocation succeeds.
unfoldable pub create_queue : Bool → Option GenericQueue
create_queue malloc = if malloc then some (queue null null) else none

unfoldable pub empty : GenericQueue → Bool
empty q = q.head == null

-- `np` is what `malloc` returns. It is not tested: the writes through NULL are a fault.
unfoldable pub enqueue : Ptr → GenericQueue → Ptr → Cmd QueueNode GenericQueue
unfolding empty alloc modify
enqueue np q pk = if np == null then (λ _. fault) else (do
  alloc np (record { packet = pk; next = null })
  if empty q
      then pure (queue np np)
      else (do modify q.tail (λ n. record n { next = np }); pure (queue q.head np)))

-- The packet, or NULL.
unfoldable pub dequeue : GenericQueue → Cmd QueueNode (Ptr × GenericQueue)
unfolding empty load free
dequeue q = if empty q then pure (null, q) else (do
  n ← load q.head
  free q.head
  pure (n.packet, queue n.next (if n.next == null then null else q.tail)))

-- The loop of `destroy_queue`; the destructor is `destroy_packet`.
destroy_loop : ℕ → GenericQueue → Cmd QueueNode GenericQueue
destroy_loop zero q = λ _. fault
destroy_loop (suc fuel) q =
    let rest = (do (pk, q') ← dequeue q; dtor pk; destroy_loop fuel q') in
    if empty q then pure q else rest

unfoldable pub destroy_queue : ℕ → GenericQueue → Cmd QueueNode GenericQueue
unfolding destroy_loop empty dequeue dtor
destroy_queue fuel q = destroy_loop fuel q
