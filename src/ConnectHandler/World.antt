-- ===== src/ConnectHandler/World.antt =====
-- The state that the connection handlers of connect_handler.c share, and the calls they make on it.
-- What the C code calls outside the repository, the MySQL library and the floats, is the record
-- `Env`. The mutexes are not part of the model: each access is between its lock and unlock.
pub use concurrent_server.Base.State.{pure, and_then, ◌>>=◌, ◌>>◌, lift}
use concurrent_server.Base.{
  ℕ, zero, suc, pos, negsuc, ◌+◌, Bool, true, Option, none, some, List, [], ◌∷◌, ◌++◌, ◌==◌,
  if◌then◌else◌, ℤ, to_unsigned, Outcome, ok, fault,
}
use concurrent_server.Text.{Bytes}
use concurrent_server.AddrTable.{
  Addr, Table, read, get_addr_from_addr_table, remove_from_addr_table,
}
use concurrent_server.Packets.{Packet, Supply, string_to_packet}
use concurrent_server.ThreadBlock.{ThreadBlock, UserAuthLevel, user_to_exit}

-- What the handlers use of the MySQL library, of the floats and of the memory.
pub record Env : Type 1 where
  -- the state of the database
  pub Db : Type 0
  -- `mysql_query`: whether it succeeds, and the state that it leaves
  pub mysql_query : Bytes → Db → Bool × Db
  -- the rows of the last query, each the list of its columns; `none` is NULL
  pub result : Db → Option (List (List Bytes))
  pub Float : Type 0
  pub strtof : Bytes → Float
  -- `%f`
  pub print_float : Float → Bytes
  pub database_name : Bytes
  -- `time(NULL)`, as `%ld` prints it
  pub now : Db → Bytes
  -- what an unwritten rest of a buffer reads as, behind so many bytes; like the time, it goes with the
  -- state of the database, so that it can be another after each query
  pub behind : Db → ℕ → Bytes
  -- what the allocations in `string_to_packet` return, by the number of the packet
  pub supply : ℕ → Supply

module _ (env : Env) where
  pub record World : Type 0 where
    -- the memory of thread blocks and of packets; 0 is never an address
    pub blocks : Addr → Option (ThreadBlock env.Float)
    pub packets : Addr → Option Packet
    pub next_packet : Addr
    pub table : Table
    pub number_of_users : ℕ
    pub db : env.Db
    -- the messages handed to `send`, each with its socket, the last one last
    pub sent : List (ℕ × Bytes)
    pub closed : List ℕ
    pub logged : List Bytes

  abbrev pub Cmd : Type 0 → Type 0
  Cmd A = World → Outcome (A × World)

  -- A read of a block or a packet; of one that was freed it is a fault.
  unfoldable pub get_block : Addr → Cmd (ThreadBlock env.Float)
  get_block b w = elim (w.blocks b) [ none ↦ fault | some blk ↦ ok (blk, w) ]

  unfoldable pub get_packet : Addr → Cmd Packet
  get_packet p w = elim (w.packets p) [ none ↦ fault | some pk ↦ ok (pk, w) ]

  abbrev pub with_block : World → Addr → Option (ThreadBlock env.Float) → World
  with_block w b c = record w { blocks = λ a. if a == b then c else w.blocks a }

  abbrev pub with_packet : World → Addr → Option Packet → World
  with_packet w p c = record w { packets = λ a. if a == p then c else w.packets a }

  unfoldable pub modify_block :
      Addr → (ThreadBlock env.Float → ThreadBlock env.Float) → Cmd (Unit {0})
  unfolding get_block
  modify_block b f = do blk ← get_block b; λ w. ok (tt, with_block w b (some (f blk)))

  -- `destroy_packet`
  unfoldable pub destroy_packet : Addr → Cmd (Unit {0})
  unfolding get_packet
  destroy_packet p = do _ ← get_packet p; λ w. ok (tt, with_packet w p none)

  unfoldable pub send_msg_dontwait : Addr → Bytes → Cmd (Unit {0})
  unfolding get_block
  send_msg_dontwait b msg = do
    blk ← get_block b
    λ w. ok (tt, record w { sent = w.sent ++ (blk.socket, msg) ∷ [] })

  unfoldable pub run_query : Bytes → Cmd Bool
  run_query q w = let (done, db) = env.mysql_query q w.db in ok (done, record w { db = db })

  -- The rows of the last query; the readers of a NULL result crash.
  unfoldable pub rows : Cmd (List (List Bytes))
  rows w = elim (env.result w.db) [ none ↦ fault | some r ↦ ok (r, w) ]

  -- What `log_errors` writes to the log file; with DO_EXIT its callers here say what follows.
  unfoldable pub log_errors : Bytes → Cmd (Unit {0})
  log_errors errstr w = ok (tt, record w { logged = w.logged ++ errstr ∷ [] })

  -- `pthread_cancel(pthread_self())`
  unfoldable pub cancel_self : Addr → Cmd (Unit {0})
  unfolding modify_block
  cancel_self b = modify_block b (λ blk. record blk { cancelled = true })

  unfoldable pub set_auth : Addr → UserAuthLevel → Cmd (Unit {0})
  unfolding modify_block
  set_auth b level = modify_block b (λ blk. record blk { auth = level })

  -- The block of a user who is online; 0 if there is none.
  unfoldable pub find_user : ℤ → Cmd Addr
  find_user id w = elim (get_addr_from_addr_table w.table (to_unsigned id)) [
    | fault ↦ fault
    | ok a ↦ ok (a, w)
  ]

  -- The loop of `destroy_addrTable`, from the last entry down to the first.
  unfoldable pub destroy_entries : ℕ → Cmd (Unit {0})
  unfolding set_auth
  destroy_entries zero = pure tt
  destroy_entries (suc i) = do
    e ← (λ w. lift (read w.table.addrs i) w)
    set_auth e.addr_ user_to_exit
    destroy_entries i

  unfoldable pub destroy_addr_table : Cmd (Unit {0})
  unfolding destroy_entries
  destroy_addr_table w = elim w.table.len [ pos n ↦ destroy_entries n w | negsuc n ↦ ok (tt, w) ]

  -- `enqueue` on the queue of the block at `b`. Its `malloc` succeeds here; Queue has it as an argument,
  -- and the source does not test it.
  unfoldable pub enqueue_to : Addr → Addr → Cmd (Unit {0})
  unfolding modify_block
  enqueue_to b p = modify_block b (λ blk. record blk { in_queue = blk.in_queue ++ p ∷ [] })

  -- `string_to_packet`, with the new packet put in memory; 0 is NULL.
  unfoldable pub receive_packet : Bytes → Cmd Addr
  receive_packet str w = elim (string_to_packet (env.supply w.next_packet) str) [
    | fault ↦ fault
    | ok none ↦ ok (0, w)
    | ok (some pk) ↦ ok (
      w.next_packet,
      record (with_packet w w.next_packet (some pk)) { next_packet = w.next_packet + 1 },
    )
  ]

  -- The packets that wait are freed, and then the block; the socket is closed.
  unfoldable pub destroy_queue : List Addr → Cmd (Unit {0})
  destroy_queue [] = pure tt
  destroy_queue (p ∷ ps) = do destroy_packet p; destroy_queue ps

  unfoldable pub destroy_thread_node : Addr → Cmd (Unit {0})
  unfolding get_block modify_block set_auth destroy_packet destroy_queue
  destroy_thread_node b = do
    blk ← get_block b
    set_auth b user_to_exit
    destroy_queue blk.in_queue
    λ w. ok (tt, record (with_block w b none) { closed = w.closed ++ blk.socket ∷ [] })

  -- `destroy_handlers_block`, the clean-up function of a handler.
  unfoldable pub destroy_handlers_block : Addr → Cmd (Unit {0})
  unfolding get_block destroy_thread_node
  destroy_handlers_block b = do
    blk ← get_block b
    (λ w. elim (remove_from_addr_table w.table (to_unsigned blk.userid)) [
      | fault ↦ fault
      | ok (hold, t) ↦ ok (tt, record w { table = t })
    ])
    destroy_thread_node b
