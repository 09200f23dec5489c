-- ===== src/Server/Early.antt =====
-- A thread that starts its work, or ends, before the accept loop has put the node of its id into its block.
use concurrent_server.Base.{
  ℕ, ◌≡◌, ◌≤◌, ◌<◌, ◌⊎◌, inl, inr, refl, Bool, Bool-cases, true, false, some, [], ok, fault, length,
  arith,
}
use concurrent_server.Base.State.{◌>>◌}
use concurrent_server.Heap.{Ptr, null, load}
use concurrent_server.Heap.Seg.{Cells, has}
use concurrent_server.GenericList.{destroy_list_node}
use concurrent_server.GenericList.Push.{IsLinked}
use concurrent_server.ThreadBlock.{ThreadBlock}
use concurrent_server.Server.Accept.{
  Server, Accepting, too_many, init_connection_handler, destroy_block, accept_round, serve_client,
  start_thread,
}
use concurrent_server.Server.Connecting.{
  Succeeds, begun, created, init_early, accept_round-overtaken,
}

module _ {Float : Type 0} (max_conn : ℕ) where
  -- A thread that starts too early, when there are too many, follows the null pointer in its block.
  lost :
      (s : Server Float) (a : Accepting Float) (fd : ℕ) (blk : ThreadBlock Float) (closed : Bool)
      → too_many Float max_conn s.threads.list_len ≡ true
      → init_connection_handler Float max_conn a.at (begun s a fd blk closed) ≡ fault
  unfolding init_connection_handler destroy_block destroy_list_node load
  lost s a fd blk closed crowded = ground (arith, crowded)

  pub lost_round :
      (s : Server Float) (a : Accepting Float) (fd : ℕ) (blk : ThreadBlock Float) (closed : Bool)
      → Succeeds s a fd blk closed
      → too_many Float max_conn s.threads.list_len ≡ true
      → accept_round Float (init_connection_handler Float max_conn a.at) a s ≡ fault
  unfolding accept_round serve_client start_thread
  lost_round s a fd blk closed k crowded = ground (
    arith,
    k.killed,
    k.socket,
    created a.node a.datum s.nodes k.node k.datum,
    k.node,
    k.block,
    k.started,
    lost s a fd blk closed crowded,
  )

  -- A thread that ends so early follows the null pointer in its block.
  ended :
      (s : Server Float) (a : Accepting Float) (fd : ℕ) (blk : ThreadBlock Float) (closed : Bool)
      → (do init_connection_handler Float max_conn a.at; destroy_block Float a.at)
          (begun s a fd blk closed)
        ≡ fault
  unfolding destroy_block destroy_list_node load
  ended s a fd blk closed = elim (Bool-cases (too_many Float max_conn s.threads.list_len)) [
    | inl crowded ↦ rw (lost s a fd blk closed crowded) refl
    | inr fits ↦ rw (init_early s a fd blk closed max_conn fits) (ground arith)
  ]

  pub ended_round :
      (s : Server Float) (a : Accepting Float) (fd : ℕ) (blk : ThreadBlock Float) (closed : Bool)
      → Succeeds s a fd blk closed
      → accept_round Float
          (do init_connection_handler Float max_conn a.at; destroy_block Float a.at)
          a
          s
        ≡ fault
  unfolding accept_round serve_client start_thread
  ended_round s a fd blk closed k = ground (
    arith,
    k.killed,
    k.socket,
    created a.node a.datum s.nodes k.node k.datum,
    k.node,
    k.block,
    k.started,
    ended s a fd blk closed,
  )

  -- What an early start comes to, with the thread ids `xs` in the list: at most `max_conn`, and then the
  -- list stays as it was, and the block gets its node, which is not in the list; or more, and a fault.
  -- An early end comes to a fault in any case.
  abbrev pub Overtakes : Server Float → Accepting Float → ThreadBlock Float → Ptr → Cells → Type 0
  Overtakes s a blk before xs =
      (((length xs ≤ max_conn)
          × ((s' : Server Float) × (accept_round Float (init_connection_handler Float max_conn a.at)
                  a s
                ≡ ok (true, s'))
              × IsLinked before s'.nodes s'.threads xs
              × (has a.node xs ≡ false)
              × (s'.handlers a.at ≡ some (record { block = blk; tid = a.node }))
              × (s'.serves a.datum ≡ a.at)))
        ⊎ ((max_conn < length xs)
            × (accept_round Float (init_connection_handler Float max_conn a.at) a s ≡ fault)))
      × (accept_round Float
            (do init_connection_handler Float max_conn a.at; destroy_block Float a.at) a s
          ≡ fault)

  -- A client connects, all calls of the round succeed, and the new thread runs `init_connection_handler`
  -- before the accept loop has put the node into the block. With at most `max_conn` threads in the list,
  -- which may point back from its first node to a freed one, the list stays as it was, and the block
  -- gets its node, but the thread is not in the list. With more the thread's clean-up follows the null
  -- pointer in the block. And so it does, with any number of threads, when the thread also ends, with
  -- its clean-up, before the accept loop has put the node into the block.
  pub accept_round-early :
      (s : Server Float) (a : Accepting Float) (fd : ℕ) (blk : ThreadBlock Float) (closed : Bool)
      (before : Ptr) (xs : Cells)
      → IsLinked before s.nodes s.threads xs
      → (xs ≡ [] → before ≡ null)
      → Succeeds s a fd blk closed
      → Overtakes s a blk before xs
  accept_round-early s a fd blk closed before xs is first k = (
    elim (Bool-cases (too_many Float max_conn s.threads.list_len)) [
      | inl crowded ↦
          inr (ground (arith, crowded, is.list_len), lost_round s a fd blk closed k crowded)
      | inr fits ↦
          let room : length xs ≤ max_conn = ground (arith, fits, is.list_len) in
          inl (room, accept_round-overtaken s a fd blk closed max_conn before xs is first room k)
    ],
    ended_round s a fd blk closed k,
  )
