-- ===== src/Locks/Handlers.antt =====
-- The handlers of connect_handler.c and their mutexes: what the mutexes do for handlers that do not
-- authenticate, and what one that does can meet.
use concurrent_server.Base.{
  ℕ, ◌≡◌, ◌≢◌, ◌⊎◌, inl, inr, refl, ap, ◌∙◌, sym, Bool, true, false, none, some, List, [], ◌∷◌,
  ◌++◌, ◌==◌, arith, eq→==, ne→==,
}
use concurrent_server.GenericList.{enable_lock}
use concurrent_server.Locks.{
  Mutex, table_mutex, Event, unlocks, uses, Threads, goes_on, owned_by, Step, takes, works, Reach,
  here, next, guarded,
}
use concurrent_server.Locks.Discipline.{
  Disciplined, start-Disciplined, Reach-Disciplined, uses_own, some_goes, some_eq,
}
use concurrent_server.Locks.Programs.{
  Part, sends, reads_queue, fails_to_register, parts_path, connection_handler_path,
  destroy_handlers_block_path, destroy_thread_node_path, insert_in_addr_table_path,
  authenticator_path,
}

parts-guarded :
    (b : ℕ) (parts : List Part) (rest : List Event)
    → guarded none rest ≡ true
    → guarded none (parts_path enable_lock b parts ++ rest) ≡ true
unfolding guarded
parts-guarded b [] rest e = e
parts-guarded b (sends none ∷ parts) rest e = parts-guarded b parts rest e
parts-guarded b (sends (some node) ∷ parts) rest e = ground (arith, parts-guarded b parts rest e)
parts-guarded b (reads_queue ∷ parts) rest e = ground (arith, parts-guarded b parts rest e)
parts-guarded b (fails_to_register ∷ parts) rest e = ground (arith, parts-guarded b parts rest e)

handler-guarded :
    (crowded : Bool) (b : ℕ) (parts : List Part)
    → guarded none (connection_handler_path enable_lock crowded b parts) ≡ true
unfolding guarded
handler-guarded true b parts = ground arith
handler-guarded false b parts =
    parts-guarded b parts (destroy_handlers_block_path enable_lock b) (ground arith)

-- No mutex is taken, and every thread has ended or is a handler before its first step, whose client does
-- not authenticate.
pub record AtStart (s : Threads) : Type 0 where
  pub free : (m : Mutex) → s.owner m ≡ none
  pub handlers :
      (i : ℕ)
      → (s.todo i ≡ [])
        ⊎ ((crowded : Bool) × (b : ℕ) × (parts : List Part) × (s.todo i
              ≡ connection_handler_path enable_lock crowded b parts))

at_start : (s : Threads) → AtStart s → Disciplined s
unfolding guarded
at_start s a = start-Disciplined s a.free λ i. elim (a.handlers i) [
  | inl e ↦ ap (guarded none) e
  | inr (crowded, b, parts, e) ↦ ap (guarded none) e ∙ handler-guarded crowded b parts
]

-- However many handlers there are, whose clients do not authenticate, and in whatever order they take
-- their steps: two of them are never at a use of what the same mutex guards, and the one that is there
-- owns the mutex.
pub Reach-owned :
    {s t : Threads} (i j : ℕ) (m : Mutex) (rest more : List Event)
    → AtStart s
    → Reach s t
    → t.todo i ≡ uses m ∷ rest
    → t.todo j ≡ uses m ∷ more
    → (i ≡ j) × (t.owner m ≡ some i)
Reach-owned {s} {t} i j m rest more a reach at_i at_j =
    let d = Reach-Disciplined reach (at_start s a) in
    let own = uses_own t d i m rest at_i in (some_eq (sym own ∙ uses_own t d j m more at_j), own)

-- Handlers whose clients do not authenticate never wait for each other: while one of them has something
-- left to do with the mutexes, some thread can take a step.
pub Reach-goes_on :
    {s t : Threads} (i : ℕ) → AtStart s → Reach s t → t.todo i ≢ [] → (u : Threads) × Step t u
Reach-goes_on {s} {t} i a reach more =
    some_goes t (Reach-Disciplined reach (at_start s a)) i (t.todo i) refl more

-- A handler that is in its clean-up, and another one whose client authenticates with the name and
-- password of a user who is not online, while the mutex of the address table is free: the threads can
-- get to where both use the table at once, though the first one owns the mutex; and from there to where
-- the other one leaves this mutex, which it does not own.
pub authenticator_path-races :
    (s : Threads) (i j b : ℕ) (rest more : List Event)
    → i ≢ j
    → s.owner table_mutex ≡ none
    → s.todo i ≡ destroy_handlers_block_path enable_lock b ++ rest
    → s.todo j ≡ authenticator_path false ++ more
    → (t : Threads) × (u : Threads) × (rest1 : List Event) × (more1 : List Event) × (more2 : List
        Event)
      × Reach s t
      × (t.todo i ≡ uses table_mutex ∷ rest1)
      × (t.todo j ≡ uses table_mutex ∷ more1)
      × Reach t u
      × (u.todo j ≡ unlocks table_mutex ∷ more2)
      × (u.owner table_mutex ≡ some i)
authenticator_path-races s i j b rest more ne free at_i at_j =
    let apart : (j == i) ≡ false = ne→== j i (λ e. ne (sym e)) in
    let left : List Event =
      unlocks table_mutex ∷ (destroy_thread_node_path enable_lock b ++ rest) in
    let after : List Event =
      unlocks table_mutex ∷ uses table_mutex ∷ (insert_in_addr_table_path ++ more) in
    let t : Threads = record {
      owner = owned_by s table_mutex (some i);
      todo = goes_on s i (uses table_mutex ∷ left);
    } in
    let u : Threads = record t { todo = goes_on t j after } in
    let there : t.todo j ≡ uses table_mutex ∷ after = rw apart at_j in
    (
      t,
      u,
      left,
      after,
      uses table_mutex ∷ (insert_in_addr_table_path ++ more),
      next here (takes i table_mutex (uses table_mutex ∷ left) at_i free),
      rw (eq→== i i refl) refl,
      there,
      next here (works j table_mutex after there),
      rw (eq→== j j refl) refl,
      refl,
    )
