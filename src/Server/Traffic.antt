-- ===== src/Server/Traffic.antt =====
-- The accept loop and the threads of all clients, in any order, before the shutdown: a client
-- connects, and its thread starts, or even ends, before the accept loop has put the node into the block,
-- or starts after it; a thread registers itself; a thread ends with its clean-up; or a round of the accept loop starts no
-- thread.
use concurrent_server.Base.{
  ℕ, ◌≡◌, ◌≢◌, ◌⊎◌, Bool, true, false, none, some, ◌==◌, if◌then◌else◌, ok,
}
use concurrent_server.Base.State.{pure, ◌>>◌}
use concurrent_server.Heap.{Ptr, null}
use concurrent_server.GenericList.{ListNode}
use concurrent_server.ThreadBlock.{ThreadBlock, create_thread_node}
use concurrent_server.Server.Accept.{
  Server, Cmd, Accepting, init_connection_handler, destroy_block, accept_round,
}
use concurrent_server.Server.Connecting.{Succeeds}

-- How far a new thread comes before the accept loop puts the node into the block: it has not started;
-- it has been through `init_connection_handler`; or it has ended, with its clean-up.
pub data Lead : Type 0 where
  behind : Lead
  ahead : Lead
  over : Lead

abbrev pub has_begun : Lead → Bool
has_begun behind = false
has_begun ahead = true
has_begun over = true

-- The server, and which threads have been through `init_connection_handler`.
pub record Run (Float : Type 0) : Type 0 where
  pub server : Server Float
  pub begun : Ptr → Bool

module _ {Float : Type 0} where
  -- The rounds that meet a kill, no client, no memory for the node, none for the block, or no thread.
  pub data Declined (s : Server Float) (a : Accepting Float) : Type 0 where
    killed : a.killed ≡ true → Declined s a
    no_client : a.socket ≡ none → Declined s a
    no_node : (fd : ℕ) → a.socket ≡ some fd → (a.node ≡ null) ⊎ (a.datum ≡ null) → Declined s a
    no_block :
        (fd : ℕ) (closed : Bool)
        → a.socket ≡ some fd
        → a.node ≢ null
        → a.datum ≢ null
        → s.nodes.cells a.node ≡ none
        → create_thread_node a.startup a.unset fd ≡ (none, closed)
        → Declined s a
    not_started :
        (fd : ℕ) (blk : ThreadBlock Float) (closed : Bool)
        → a.socket ≡ some fd
        → a.node ≢ null
        → a.datum ≢ null
        → create_thread_node a.startup a.unset fd ≡ (some blk, closed)
        → a.started ≡ false
        → Declined s a

module _ (Float : Type 0) (max_conn : ℕ) where
  abbrev pub early_start : Lead → Ptr → Cmd Float (Unit {0})
  early_start behind b = pure tt
  early_start ahead b = init_connection_handler Float max_conn b
  early_start over b = do init_connection_handler Float max_conn b; destroy_block Float b

  -- `malloc` returns the address `a.at` for the block only when no block is there, and `a.datum` for the
  -- thread id only when no node of the list has it.
  pub data Step (r : Run Float) : Run Float → Type 0 where
    connects :
        (lead : Lead) (a : Accepting Float) (fd : ℕ) (blk : ThreadBlock Float) (closed : Bool)
        (s' : Server Float)
        → Succeeds r.server a fd blk closed
        → r.server.handlers a.at ≡ none
        → ((c : Ptr) (n : ListNode) → r.server.nodes.cells c ≡ some n → n.datum ≢ a.datum)
        → accept_round Float (early_start lead a.at) a r.server ≡ ok (true, s')
        → Step r
            (record { server = s'; begun = λ b. if b == a.at then has_begun lead else r.begun b })
    declines :
        (lead : Lead) (going : Bool) (a : Accepting Float) (s' : Server Float)
        → Declined r.server a
        → accept_round Float (early_start lead a.at) a r.server ≡ ok (going, s')
        → Step r (record r { server = s' })
    registers :
        (b : Ptr) (s' : Server Float)
        → r.begun b ≡ false
        → init_connection_handler Float max_conn b r.server ≡ ok (tt, s')
        → Step r (record { server = s'; begun = λ c. if c == b then true else r.begun c })
    leaves :
        (b : Ptr) (s' : Server Float)
        → r.begun b ≡ true
        → destroy_block Float b r.server ≡ ok (tt, s')
        → Step r (record r { server = s' })

  pub data Reach (r : Run Float) : Run Float → Type 0 where
    here : Reach r r
    next : {q t : Run Float} → Reach r q → Step q t → Reach r t
