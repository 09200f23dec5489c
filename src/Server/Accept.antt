-- ===== src/Server/Accept.antt =====
-- The accept loop and the shutdown of server.c, with the list of thread ids: create_thread_node,
-- set_thread_node_tid and destroy_thread_node of data_structs/thread_info_block.c as far as the
-- list is concerned, and init_connection_handler of connect_handler.c. What a handler does besides
-- is in ConnectHandler. Messages and log lines are left out.
use concurrent_server.Base.{
  ℕ, zero, suc, Bool, true, false, not, Option, none, some, List, [], ◌∷◌, ◌++◌, ◌==◌,
  if◌then◌else◌, ltb, ℤ, pos, negsuc, Outcome, ok, fault,
}
use concurrent_server.Base.State.{pure, ◌>>=◌, ◌>>◌}
use concurrent_server.Heap.{Ptr, null, Store, dtor, free}
use concurrent_server.GenericList.{
  ListNode, GenericList, create_list_node, append_list_node, list_popfront, destroy_list_node,
  destroy_generic_list,
}
use concurrent_server.ThreadBlock.{ThreadBlock, Startup, create_thread_node, user_to_exit}

-- A block with its `tid`, the node that holds the id of its thread.
pub record Handler (Float : Type 0) : Type 0 where
  pub block : ThreadBlock Float
  pub tid : Ptr

module _ (Float : Type 0) where
  -- The nodes and the list of thread ids, the blocks, the block that the thread serves whose id is
  -- stored at an address, and the sockets that were shut down or closed.
  pub record Server : Type 0 where
    pub nodes : Store ListNode
    pub threads : GenericList
    pub handlers : Ptr → Option (Handler Float)
    pub serves : Ptr → Ptr
    pub shut : List ℕ
    pub closed : List ℕ

  abbrev pub Cmd : Type 0 → Type 0
  Cmd A = Server → Outcome (A × Server)

  -- A call that works on the list of thread ids.
  abbrev pub put_back :
      {A : Type 0} → Server → Outcome ((A × GenericList) × Store ListNode) → Outcome (A × Server)
  put_back s fault = fault
  put_back s (ok ((x, l), n)) = ok (x, record s { nodes = n; threads = l })

  abbrev pub on_list :
      {A : Type 0}
      → (GenericList → Store ListNode → Outcome ((A × GenericList) × Store ListNode))
      → Cmd A
  on_list call s = put_back s (call s.threads s.nodes)

  abbrev pub on_nodes : {A : Type 0} → (Store ListNode → Outcome (A × Store ListNode)) → Cmd A
  on_nodes call = on_list (λ l. do x ← call; pure (x, l))

  abbrev pub get_handler : Ptr → Cmd (Handler Float)
  get_handler b s = elim (s.handlers b) [ none ↦ fault | some h ↦ ok (h, s) ]

  abbrev pub set_handler : Ptr → Option (Handler Float) → Cmd (Unit {0})
  set_handler b h s = ok (tt, record s { handlers = λ a. if a == b then h else s.handlers a })

  abbrev pub close : ℕ → Cmd (Unit {0})
  close fd s = ok (tt, record s { closed = s.closed ++ fd ∷ [] })

  abbrev pub shut_down : ℕ → Cmd (Unit {0})
  shut_down fd s = ok (tt, record s { shut = s.shut ++ fd ∷ [] })

  -- The part of `destroy_thread_node` that works on the list, with the end of the socket and of the block.
  -- The queue and the address table are in ConnectHandler.World.
  unfoldable pub destroy_block : Ptr → Cmd (Unit {0})
  destroy_block b = do
    h ← get_handler b
    close h.block.socket
    on_list (λ l. do l' ← destroy_list_node l h.tid; pure (tt, l'))
    set_handler b none

  unfoldable pub set_thread_node_tid : Ptr → Ptr → Cmd (Unit {0})
  set_thread_node_tid b node = do h ← get_handler b; set_handler b (some (record h { tid = node }))

  -- `max_conn` is MAX_CONN, the system's SOMAXCONN. With too many handlers the thread cancels itself,
  -- which runs its clean-up.
  abbrev pub too_many : ℕ → ℤ → Bool
  too_many max_conn (pos n) = ltb max_conn n
  too_many max_conn (negsuc n) = false

  unfoldable pub init_connection_handler : ℕ → Ptr → Cmd (Unit {0})
  init_connection_handler max_conn b = do
    h ← get_handler b
    l ← (λ s. ok (s.threads, s))
    if too_many max_conn l.list_len
        then (do
          set_handler b (some (record h { block = record h.block { auth = user_to_exit } }))
          close h.block.socket
          destroy_block b)
        else (do _ ← on_list (λ l. append_list_node l h.tid); pure tt)

  -- What the calls of one round return: whether the server was killed, the socket that `accept`
  -- returns, or else whether it was interrupted; the addresses of the list node and of its datum;
  -- what `create_thread_node` meets and the address of the block; and whether the thread starts.
  pub record Accepting : Type 0 where
    pub killed : Bool
    pub socket : Option ℕ
    pub eintr : Bool
    pub node : Ptr
    pub datum : ℕ
    pub startup : Startup
    pub unset : Float
    pub at : Ptr
    pub started : Bool

  -- From `pthread_create` on. `early` is what the new thread does before this one goes on.
  unfoldable pub start_thread : (early : Cmd (Unit {0})) → Accepting → Ptr → Cmd (Unit {0})
  start_thread early a node =
      if a.started
      then (do
        (λ s. ok (tt, record s { serves = λ d. if d == a.datum then a.at else s.serves d }))
        early
        set_thread_node_tid a.at node)
      else destroy_block a.at

  unfoldable pub serve_client : (early : Cmd (Unit {0})) → Accepting → ℕ → Ptr → Cmd (Unit {0})
  serve_client early a fd node =
      let (made, closed) = create_thread_node a.startup a.unset fd in
      elim made [
        | some blk ↦ (do
          set_handler a.at (some (record { block = blk; tid = null }))
          start_thread early a node)
        | none ↦ (do
          (if closed then close fd else pure tt)
          shut_down fd
          on_nodes (do dtor a.datum; free node))
      ]

  -- One round of the accept loop; the flag is whether there is another.
  unfoldable pub accept_round : (early : Cmd (Unit {0})) → Accepting → Cmd Bool
  accept_round early a = if a.killed then pure false else elim a.socket [
    | none ↦ pure (not a.eintr)
    | some fd ↦ (do
      node ← on_nodes (create_list_node a.node a.datum)
      (if node == null then shut_down fd else serve_client early a fd node)
      pure true)
  ]

  -- The accept loop, over what its rounds meet.
  pub accept_loop : List (Cmd (Unit {0}) × Accepting) → Cmd (Unit {0})
  accept_loop [] = pure tt
  accept_loop ((early, a) ∷ more) = do
    going ← accept_round early a
    if going then accept_loop more else pure tt

  -- `pthread_cancel` and `pthread_join`: the thread runs its clean-up, if it has not ended yet.
  unfoldable pub cancel_and_join : ℕ → Cmd (Unit {0})
  cancel_and_join datum s = elim (s.handlers (s.serves datum)) [
    | none ↦ ok (tt, s)
    | some _ ↦ destroy_block (s.serves datum) s
  ]

  unfoldable pub shutdown_round : Cmd (Unit {0})
  shutdown_round = do
    datum ← on_list list_popfront
    if datum == null then pure tt else cancel_and_join datum

  abbrev pub some_left : ℤ → Bool
  some_left (pos n) = ltb 0 n
  some_left (negsuc n) = false

  unfoldable pub shutdown_loop : ℕ → Cmd (Unit {0})
  shutdown_loop zero = λ _. fault
  shutdown_loop (suc fuel) = λ s.
      let rest = (do shutdown_round; shutdown_loop fuel) s in
      if some_left s.threads.list_len then rest else ok (tt, s)

  -- The end of `make_server`, with the socket that it listens on.
  unfoldable pub shutdown_server : ℕ → ℕ → Cmd (Unit {0})
  shutdown_server fuel fd = do
    shutdown_loop fuel
    on_list (λ l. do
      l' ← destroy_generic_list fuel (some l)
      pure (tt, elim l' [ none ↦ l | some m ↦ m ]))
    close fd
