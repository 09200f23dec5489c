-- ===== src/Locks.antt =====
-- The mutexes of the program, and threads that take and leave them. A thread is the list of what it
-- does with the mutexes and with what they guard, in order; what it does besides is left out.
pub mod Discipline
pub mod Programs
pub mod Handlers
use concurrent_server.Base.{
  ℕ, ◌≡◌, Bool, true, false, ◌&&◌, Option, none, some, List, [], ◌∷◌, ◌==◌, if◌then◌else◌,
}

-- `addrTable_mutex`, the mutex of the list of thread ids, and that of the queue of the block at an
-- address.
pub data Mutex : Type 0 where
  table_mutex list_mutex : Mutex
  queue_lock : (b : ℕ) → Mutex

abbrev pub same_mutex : Mutex → Mutex → Bool
same_mutex table_mutex table_mutex = true
same_mutex list_mutex list_mutex = true
same_mutex (queue_lock b) (queue_lock c) = b == c
same_mutex _ _ = false

-- `pthread_mutex_lock`, `pthread_mutex_unlock`, and a use of what the mutex guards.
pub data Event : Type 0 where
  locks unlocks uses : (m : Mutex) → Event

-- Who has which mutex, and what the threads have still to do.
pub record Threads : Type 0 where
  pub owner : Mutex → Option ℕ
  pub todo : ℕ → List Event

abbrev pub goes_on : Threads → ℕ → List Event → ℕ → List Event
goes_on s i rest j = if j == i then rest else s.todo j

abbrev pub owned_by : Threads → Mutex → Option ℕ → Mutex → Option ℕ
owned_by s m o n = if same_mutex n m then o else s.owner n

-- A thread takes a mutex that is free, and waits for one that is not; it uses what a mutex guards
-- whether it has the mutex or not. A mutex is left by its owner: for any other thread POSIX leaves
-- `pthread_mutex_unlock` undefined.
pub data Step (s : Threads) : Threads → Type 0 where
  takes :
      (i : ℕ) (m : Mutex) (rest : List Event)
      → s.todo i ≡ locks m ∷ rest
      → s.owner m ≡ none
      → Step s (record { owner = owned_by s m (some i); todo = goes_on s i rest })
  works :
      (i : ℕ) (m : Mutex) (rest : List Event)
      → s.todo i ≡ uses m ∷ rest
      → Step s (record s { todo = goes_on s i rest })
  leaves :
      (i : ℕ) (m : Mutex) (rest : List Event)
      → s.todo i ≡ unlocks m ∷ rest
      → s.owner m ≡ some i
      → Step s (record { owner = owned_by s m none; todo = goes_on s i rest })

pub data Reach (s : Threads) : Threads → Type 0 where
  here : Reach s s
  next : {t u : Threads} → Reach s t → Step t u → Reach s u

-- Whether a thread that has `held` does everything under the right mutex, never has two at a time,
-- and leaves the last one.
pub guarded : Option Mutex → List Event → Bool
guarded none [] = true
guarded (some m) [] = false
guarded none (locks m ∷ rest) = guarded (some m) rest
guarded (some n) (locks m ∷ rest) = false
guarded none (uses m ∷ rest) = false
guarded (some n) (uses m ∷ rest) = same_mutex n m && guarded (some n) rest
guarded none (unlocks m ∷ rest) = false
guarded (some n) (unlocks m ∷ rest) = same_mutex n m && guarded none rest
