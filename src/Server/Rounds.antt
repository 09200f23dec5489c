-- ===== src/Server/Rounds.antt =====
-- The rounds of the accept loop that start no thread.
use concurrent_server.Base.{
  ℕ, ◌≡◌, ◌≢◌, ◌⊎◌, inl, inr, ap, Bool, Bool-cases, true, false, none, some, [], ◌∷◌, ◌++◌, ◌==◌,
  if◌then◌else◌, Outcome, ok, fault, arith, ne→==,
}
use concurrent_server.Base.State.{and_then, pure, ◌>>◌}
use concurrent_server.Heap.{Ptr, null, Store, put, update, load, free, dtor}
use concurrent_server.GenericList.{ListNode, create_list_node, destroy_list_node}
use concurrent_server.GenericList.Push.{cell}
use concurrent_server.ThreadBlock.{ThreadBlock, create_thread_node}
use concurrent_server.Server.Accept.{
  Server, Accepting, destroy_block, accept_round, serve_client, start_thread,
}
use concurrent_server.Server.Connecting.{created}
use concurrent_server.Server.Traffic.{Declined, killed, no_client, no_node, no_block, not_started}

not_created :
    (np d : ℕ) (n : Store ListNode)
    → (np ≡ null) ⊎ (d ≡ null)
    → create_list_node np d n ≡ ok (null, n)
unfolding create_list_node
not_created np d n (inl e) = ground (arith, e)
not_created np d n (inr e) = ground (arith, e)

-- A node that was allocated and is freed again.
freed_again :
    (np d : ℕ) (n : Store ListNode)
    → np ≢ null
    → n.cells np ≡ none
    → (m : Store ListNode) × ((dtor d >> free np) (put n np (some (cell null null d))) ≡ ok (tt, m))
      × ((c : Ptr) → m.cells c ≡ n.cells c)
unfolding dtor free load update
freed_again np d n ne fresh =
    let m1 = put n np (some (cell null null d)) in
    (
      put (record m1 { destroyed = m1.destroyed ++ d ∷ [] }) np none,
      ground (arith, ne),
      λ c. ground (arith, fresh),
    )

module _ {Float : Type 0} where
  -- What the rounds leave alone that start no thread.
  abbrev pub Alike : Server Float → Server Float → Type 0
  Alike s s' =
      (s'.threads ≡ s.threads)
      × (s'.handlers ≡ s.handlers)
      × ((c : Ptr) → s'.nodes.cells c ≡ s.nodes.cells c)
      × (s'.serves ≡ s.serves)

  -- The clean-up of a block that has no node yet.
  no_clean_up :
      (s : Server Float) (b : Ptr) (blk : ThreadBlock Float)
      → destroy_block Float b (record s {
        handlers = λ c. if c == b then some (record { block = blk; tid = null }) else s.handlers c;
      })
        ≡ fault
  unfolding destroy_block destroy_list_node load
  no_clean_up s b blk = ground arith

  unstarted :
      (early : Server Float → Outcome (Unit {0} × Server Float)) (a : Accepting Float) (fd : ℕ)
      (node : Ptr) (blk : ThreadBlock Float) (closed : Bool) (s : Server Float)
      → create_thread_node a.startup a.unset fd ≡ (some blk, closed)
      → a.started ≡ false
      → serve_client Float early a fd node s ≡ fault
  unfolding serve_client start_thread
  unstarted early a fd node blk closed s made off =
      rw (serve_client, made, start_thread, off) (no_clean_up s a.at blk)

  -- A round in which no thread starts frees the block, which has no node yet.
  not_started-faults :
      (early : Server Float → Outcome (Unit {0} × Server Float)) (s : Server Float)
      (a : Accepting Float) (fd : ℕ) (blk : ThreadBlock Float) (closed : Bool)
      → a.killed ≡ false
      → a.socket ≡ some fd
      → a.node ≢ null
      → a.datum ≢ null
      → create_thread_node a.startup a.unset fd ≡ (some blk, closed)
      → a.started ≡ false
      → accept_round Float early a s ≡ fault
  unfolding accept_round serve_client start_thread
  not_started-faults early s a fd blk closed live k node datum made off =
      rw (live, k, created a.node a.datum s.nodes node datum, ne→== _ _ node)
        (ap (λ o. and_then o (λ _. pure true))
          (unstarted early a fd a.node blk closed
            (record s { nodes = put s.nodes a.node (some (cell null null a.datum)) }) made off))

  pub declined :
      (early : Ptr → Server Float → Outcome (Unit {0} × Server Float)) (going : Bool)
      (s s' : Server Float) (a : Accepting Float)
      → Declined s a
      → accept_round Float (early a.at) a s ≡ ok (going, s')
      → Alike s s'
  unfolding accept_round serve_client start_thread
  declined early going s s' a (killed k) run = ground (arith, k, run)
  declined early going s s' a (no_client k) run = ground (arith, k, run)
  declined early going s s' a (no_node fd k missing) run =
      ground (arith, k, not_created a.node a.datum s.nodes missing, run)
  declined early going s s' a (no_block fd closed k node datum fresh made) run =
      let (m, freed, cells) = freed_again a.node a.datum s.nodes node fresh in
      ground (arith, k, created a.node a.datum s.nodes node datum, node, made, freed, cells, run)
  declined early going s s' a (not_started fd blk closed k node datum made off) run =
      elim (Bool-cases a.killed) [
        | inl q ↦ ground (arith, q, run)
        | inr q ↦
            absurd
              (cc (not_started-faults (early a.at) s a fd blk closed q k node datum made off, run))
      ]
