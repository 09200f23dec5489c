-- ===== src/Locks/Programs.antt =====
-- What the handlers of connect_handler.c do with the mutexes. Each list of events is a path through one
-- function of the source: pthread_mutex_lock, pthread_mutex_unlock, and the uses of the address table,
-- of the list of thread ids and of a queue.
use concurrent_server.Base.{
  ℕ, Bool, true, false, Option, none, some, List, [], ◌∷◌, ◌++◌, if◌then◌else◌,
}
use concurrent_server.GenericList.{ListLock, enable_lock, disable_lock}
use concurrent_server.Locks.{
  Mutex, table_mutex, list_mutex, queue_lock, Event, locks, unlocks, uses,
}

-- The functions of libs/generic_linked_list.c, which do nothing for a list without a mutex.
abbrev pub list_lock_acquire : ListLock → List Event
list_lock_acquire enable_lock = locks list_mutex ∷ []
list_lock_acquire disable_lock = []

abbrev pub list_lock_release : ListLock → List Event
list_lock_release enable_lock = unlocks list_mutex ∷ []
list_lock_release disable_lock = []

-- One use under a mutex.
abbrev pub under : Mutex → List Event
under m = locks m ∷ uses m ∷ unlocks m ∷ []

-- `destroy_queue` of the block at `b`
abbrev pub destroy_queue_path : ℕ → List Event
destroy_queue_path b = under (queue_lock b)

abbrev pub destroy_thread_node_path : ListLock → ℕ → List Event
destroy_thread_node_path lock b =
    list_lock_acquire lock ++ uses list_mutex ∷ (list_lock_release lock ++ destroy_queue_path b)

abbrev pub destroy_handlers_block_path : ListLock → ℕ → List Event
destroy_handlers_block_path lock b = under table_mutex ++ destroy_thread_node_path lock b

-- With too many handlers the mutex is left before the clean-up, which takes it again.
abbrev pub init_connection_handler_path : ListLock → (crowded : Bool) → ℕ → List Event
init_connection_handler_path lock crowded b =
    list_lock_acquire lock
    ++ uses list_mutex
      ∷ (if crowded
          then list_lock_release lock ++ destroy_handlers_block_path lock b
          else uses list_mutex ∷ list_lock_release lock)

-- The cases of `interpret_packets` that look for another user, and put a packet into the queue of the
-- block that they find: MSG_PACKET, and GET_GEO_PACKET both ways.
abbrev pub interpret_packets_path : (found : Option ℕ) → List Event
interpret_packets_path none = under table_mutex
interpret_packets_path (some node) = under table_mutex ++ under (queue_lock node)

-- The queue in a round of `connection_handler`.
abbrev pub read_queue_path : ℕ → List Event
read_queue_path b = under (queue_lock b)

-- `insertInAddrTable` leaves a mutex that it does not take.
abbrev pub insert_in_addr_table_path : List Event
insert_in_addr_table_path = uses table_mutex ∷ unlocks table_mutex ∷ []

-- From the lookup of the user in `authenticator` on.
abbrev pub authenticator_path : (online : Bool) → List Event
authenticator_path online =
    uses table_mutex
    ∷ (if online then [] else unlocks table_mutex ∷ uses table_mutex ∷ insert_in_addr_table_path)

-- The parts of a handler's rounds that use a mutex, but for those of the authentication. A query of
-- `registrator` that fails destroys the block, which takes the mutexes of the list and of the queue, and
-- the thread goes on.
pub data Part : Type 0 where
  sends : (found : Option ℕ) → Part
  reads_queue : Part
  fails_to_register : Part

abbrev pub parts_path : ListLock → ℕ → List Part → List Event
parts_path lock b [] = []
parts_path lock b (sends found ∷ parts) = interpret_packets_path found ++ parts_path lock b parts
parts_path lock b (reads_queue ∷ parts) = read_queue_path b ++ parts_path lock b parts
parts_path lock b (fails_to_register ∷ parts) =
    destroy_thread_node_path lock b ++ parts_path lock b parts

-- The whole thread; the parts of its rounds are what its client and the others make of it.
abbrev pub connection_handler_path : ListLock → (crowded : Bool) → ℕ → List Part → List Event
connection_handler_path lock true b parts = init_connection_handler_path lock true b
connection_handler_path lock false b parts =
    init_connection_handler_path lock false b
    ++ (parts_path lock b parts ++ destroy_handlers_block_path lock b)
