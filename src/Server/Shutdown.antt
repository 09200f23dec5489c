-- ===== src/Server/Shutdown.antt =====
-- The shutdown of a server.
use concurrent_server.Base.{
  ℕ, zero, suc, ◌≡◌, ◌≢◌, ◌<◌, ◌++◌, refl, ap, ◌∙◌, true, false, some, none, [], ◌∷◌, ok, fault,
  arith,
}
use concurrent_server.Heap.{Ptr, null, Store, load}
use concurrent_server.Heap.Seg.{Cells, eq_of_nil}
use concurrent_server.GenericList.{ListNode, GenericList, destroy_list_node, destroy_generic_list}
use concurrent_server.GenericList.Push.{cell, IsLinked}
use concurrent_server.GenericList.Pop.{list_popfront-cons}
use concurrent_server.Server.Accept.{
  Handler, Server, destroy_block, cancel_and_join, shutdown_round, some_left, shutdown_loop,
  shutdown_server,
}

-- A node that was freed is read.
destroy_freed :
    (l : GenericList) (a : Ptr) (n : Store ListNode)
    → n.cells a ≡ none
    → destroy_list_node l a n ≡ fault
unfolding destroy_list_node load
destroy_freed l a n gone = ground (arith, gone)

module _ {Float : Type 0} where
  destroy_block-faults :
      (s : Server Float) (b : Ptr) (h : Handler Float)
      → s.handlers b ≡ some h
      → s.nodes.cells h.tid ≡ none
      → destroy_block Float b s ≡ fault
  unfolding destroy_block
  destroy_block-faults s b h at_b gone =
      ground (arith, at_b, destroy_freed s.threads h.tid s.nodes gone)

  cancel_and_join-faults :
      (s : Server Float) (datum : ℕ) (h : Handler Float)
      → s.handlers (s.serves datum) ≡ some h
      → s.nodes.cells h.tid ≡ none
      → cancel_and_join Float datum s ≡ fault
  unfolding cancel_and_join
  cancel_and_join-faults s datum h at_b gone =
      ground (arith, at_b, destroy_block-faults s (s.serves datum) h at_b gone)

  -- The first round of the shutdown, where the first thread of the list still serves its client: the
  -- node of the thread is freed, and the clean-up of the thread reads it.
  shutdown_round-faults :
      {before : Ptr} (s : Server Float) (a : Ptr) (v : ℕ) (xs : Cells) (h : Handler Float)
      → IsLinked before s.nodes s.threads ((a, v) ∷ xs)
      → v ≢ 0
      → s.handlers (s.serves v) ≡ some h
      → h.tid ≡ a
      → shutdown_round Float s ≡ fault
  unfolding shutdown_round
  shutdown_round-faults s a v xs h is ne at_b mine =
      let (l, n, run, _, gone, _) = list_popfront-cons s.nodes s.threads a v xs is in
      let s' : Server Float = record s { nodes = n; threads = l } in
      let joined : cancel_and_join Float v s' ≡ fault =
        cancel_and_join-faults s' v h at_b (ap n.cells mine ∙ gone) in
      ground (arith, run, ne, joined)

  -- The thread at the front of the list is one that still serves its client.
  abbrev pub Served : Server Float → Cells → Type 0
  Served s [] = Unit
  Served s ((a, v) ∷ xs) =
      (v ≢ 0) × ((h : Handler Float) × (s.handlers (s.serves v) ≡ some h) × (h.tid ≡ a))

  -- What a shutdown comes to: without threads in the list it closes the socket on which the server
  -- listens, and with threads it is a fault.
  abbrev pub ShutDown : ℕ → ℕ → Server Float → Cells → Type 0
  ShutDown fuel fd s [] =
      (s' : Server Float) × (shutdown_server Float fuel fd s ≡ ok (tt, s'))
      × (s'.closed ≡ s.closed ++ fd ∷ [])
      × (s'.nodes ≡ s.nodes)
      × (s'.handlers ≡ s.handlers)
  ShutDown fuel fd s (x ∷ xs) = shutdown_server Float fuel fd s ≡ fault

  some_left-cons :
      (s : Server Float) (before a v : ℕ) (xs : Cells)
      → IsLinked before s.nodes s.threads ((a, v) ∷ xs)
      → some_left Float s.threads.list_len ≡ true
  some_left-cons s before a v xs is = ground (arith, is.list_len)

  -- The shutdown after the accept loop, with fuel for one round: without threads in the list it ends
  -- and closes the socket on which the server listens, and leaves the list and the blocks alone; with
  -- threads, of which the first still serves its client, it reads freed memory.
  pub shutdown_server-ends :
      (fuel fd : ℕ) (s : Server Float) (before : Ptr) (xs : Cells)
      → 0 < fuel
      → IsLinked before s.nodes s.threads xs
      → Served s xs
      → ShutDown fuel fd s xs
  unfolding shutdown_server shutdown_loop destroy_generic_list
  shutdown_server-ends zero fd s before xs some_fuel is on = absurd (omega arith)
  shutdown_server-ends (suc fuel) fd s before [] some_fuel is on =
      let none_left : some_left Float s.threads.list_len ≡ false = ground (arith, is.list_len) in
      let e : s.threads.head ≡ null = eq_of_nil cell is.chain in
      (record s { closed = s.closed ++ fd ∷ [] }, ground (arith, none_left, e), refl, refl, refl)
  shutdown_server-ends (suc fuel) fd s before ((a, v) ∷ xs) some_fuel is (ne, (h, at_b, mine)) =
      let more = some_left-cons s before a v xs is in
      let round = shutdown_round-faults s a v xs h is ne at_b mine in ground (arith, more, round)
