-- ===== src/Server/Connecting.antt =====
-- A client that connects: the accept loop, and the first thing that the new thread does.
use concurrent_server.Base.{
  ℕ, ◌≡◌, ◌≢◌, ◌≤◌, Bool, true, false, none, some, [], ◌∷◌, ◌++◌, ok, length, arith, ◌==◌,
  if◌then◌else◌, pos,
}
use concurrent_server.Base.State.{pure, ◌>>=◌}
use concurrent_server.Heap.{Ptr, null, Store, put, update_self}
use concurrent_server.Heap.Seg.{Cells, has, not-has_of_none, frame-update}
use concurrent_server.GenericList.{ListNode, GenericList, create_list_node, append_list_node}
use concurrent_server.GenericList.Push.{cell, IsLinked}
use concurrent_server.GenericList.Append.{append_list_node-append}
use concurrent_server.ThreadBlock.{ThreadBlock, create_thread_node}
use concurrent_server.Server.Accept.{
  Server, Accepting, too_many, init_connection_handler, set_thread_node_tid, start_thread,
  serve_client, accept_round,
}

pub created :
    (np : Ptr) (d : ℕ) (s : Store ListNode)
    → np ≢ null
    → d ≢ null
    → create_list_node np d s ≡ ok (np, put s np (some (cell null null d)))
unfolding create_list_node
created np d s ne ne' = ground (arith, ne, ne')

module _ {Float : Type 0} (s : Server Float) (a : Accepting Float) (fd : ℕ)
    (blk : ThreadBlock Float) (closed : Bool) where
  -- All that the round calls succeeds.
  pub record Succeeds : Type 0 where
    pub killed : a.killed ≡ false
    pub socket : a.socket ≡ some fd
    pub node : a.node ≢ null
    pub datum : a.datum ≢ null
    pub fresh : s.nodes.cells a.node ≡ none
    pub block : create_thread_node a.startup a.unset fd ≡ (some blk, closed)
    pub started : a.started ≡ true

  -- The state when the thread has been created: the node is not in the list, and not in the block.
  abbrev pub begun : Server Float
  begun = record s {
    nodes = put s.nodes a.node (some (cell null null a.datum));
    handlers = λ b. if b == a.at then some (record { block = blk; tid = null }) else s.handlers b;
    serves = λ d. if d == a.datum then a.at else s.serves d;
  }

  -- The state with the node in the block.
  abbrev pub known : Server Float
  known = record begun {
    handlers =
        λ b. if b == a.at then some (record { block = blk; tid = a.node }) else begun.handlers b;
  }

  tid_set : set_thread_node_tid Float a.at a.node begun ≡ ok (tt, known)
  unfolding set_thread_node_tid
  tid_set = ground arith

  pub accepted : Succeeds → accept_round Float (pure tt) a s ≡ ok (true, known)
  unfolding accept_round serve_client start_thread
  accepted k = ground (
    arith,
    k.killed,
    k.socket,
    created a.node a.datum s.nodes k.node k.datum,
    k.node,
    k.block,
    k.started,
    tid_set,
  )

  module _ (max_conn : ℕ) where
    init_late :
        (l : GenericList) (n : Store ListNode)
        → too_many Float max_conn s.threads.list_len ≡ false
        → append_list_node s.threads a.node begun.nodes ≡ ok ((pos 0, l), n)
        → init_connection_handler Float max_conn a.at known
          ≡ ok (tt, record known { nodes = n; threads = l })
    unfolding init_connection_handler
    init_late l n fits run = ground (arith, run, fits)

    pub init_early :
        too_many Float max_conn s.threads.list_len ≡ false
        → init_connection_handler Float max_conn a.at begun ≡ ok (tt, begun)
    unfolding init_connection_handler append_list_node
    init_early fits = ground (arith, fits)

    pub overtaken :
        Succeeds
        → too_many Float max_conn s.threads.list_len ≡ false
        → accept_round Float (init_connection_handler Float max_conn a.at) a s ≡ ok (true, known)
    unfolding accept_round serve_client start_thread
    overtaken k fits = ground (
      arith,
      k.killed,
      k.socket,
      created a.node a.datum s.nodes k.node k.datum,
      k.node,
      k.block,
      k.started,
      init_early fits,
      tid_set,
    )

    module _ (before : Ptr) (xs : Cells) (is : IsLinked before s.nodes s.threads xs)
        (first : xs ≡ [] → before ≡ null) (room : length xs ≤ max_conn) (k : Succeeds) where
      fits : too_many Float max_conn s.threads.list_len ≡ false
      fits = rw is.list_len (ground (arith, room))

      not_listed : has a.node xs ≡ false
      not_listed = not-has_of_none cell a.node is.chain k.fresh

      begun-IsLinked : IsLinked before begun.nodes s.threads xs
      begun-IsLinked = record {
        chain = frame-update cell a.node (some (cell null null a.datum)) is.chain not_listed;
        tail = is.tail;
        list_len = is.list_len;
      }

      -- A client connects, and all calls of the round succeed; the list counts at most `max_conn` threads,
      -- and its first node may point back to a freed one.
      -- When the new thread starts its work after the accept loop has put the node into the block, the
      -- node is behind the others in the list, and the block, which the thread serves, has this node.
      pub accept_round-registers :
          (s' : Server Float) × ((accept_round Float (pure tt) a >>= λ _.
          init_connection_handler Float max_conn a.at)
              s
            ≡ ok (tt, s'))
          × IsLinked before s'.nodes s'.threads (xs ++ (a.node, a.datum) ∷ [])
          × (s'.handlers a.at ≡ some (record { block = blk; tid = a.node }))
          × (s'.serves a.datum ≡ a.at)
      accept_round-registers =
          let (l, n, run, listed, _, _) =
            append_list_node-append before begun.nodes s.threads xs a.node a.datum begun-IsLinked
              first k.node not_listed
              (update_self s.nodes.cells a.node (some (cell null null a.datum))) in
          (
            record known { nodes = n; threads = l },
            ground (arith, accepted k, init_late l n fits run),
            listed,
            ground arith,
            ground arith,
          )

      -- When the new thread starts its work before the accept loop has put the node into the block, the
      -- list stays as it was: the block has the node all the same, but the thread is not counted.
      pub accept_round-overtaken :
          (s' : Server Float) × (accept_round Float
              (init_connection_handler Float max_conn a.at)
              a
              s
            ≡ ok (true, s'))
          × IsLinked before s'.nodes s'.threads xs
          × (has a.node xs ≡ false)
          × (s'.handlers a.at ≡ some (record { block = blk; tid = a.node }))
          × (s'.serves a.datum ≡ a.at)
      accept_round-overtaken =
          (known, overtaken k fits, begun-IsLinked, not_listed, ground arith, ground arith)
