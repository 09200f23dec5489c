-- ===== src/Examples/Threads.antt =====
-- Two handlers and their mutexes: the client of the first sends a message to that of the second.
use concurrent_server.Base.{
  ℕ, ◌≡◌, inl, inr, refl, false, none, some, List, [], ◌∷◌, ◌++◌, ◌==◌, if◌then◌else◌, arith,
  Bool-cases,
}
use concurrent_server.GenericList.{enable_lock}
use concurrent_server.Locks.{
  table_mutex, list_mutex, Event, unlocks, uses, Threads, goes_on, owned_by, Step, takes, Reach,
  here, next,
}
use concurrent_server.Locks.Programs.{
  sends, reads_queue, connection_handler_path, destroy_handlers_block_path, authenticator_path,
}
use concurrent_server.Locks.Handlers.{AtStart, Reach-owned, Reach-goes_on, authenticator_path-races}

abbrev sender : List Event
sender = connection_handler_path enable_lock false 70 (sends (some 90) ∷ [])

abbrev receiver : List Event
receiver = connection_handler_path enable_lock false 90 (reads_queue ∷ [])

abbrev before : Threads
before = record {
  owner = λ _. none;
  todo = λ i. if i == 0 then sender else if i == 1 then receiver else [];
}

before-AtStart : AtStart before
before-AtStart = record {
  free = λ _. refl;
  handlers = λ i. elim (Bool-cases (i == 0)) [
    | inl p ↦ inr (false, 70, sends (some 90) ∷ [], rw p refl)
    | inr p ↦ elim (Bool-cases (i == 1)) [
      | inl q ↦ inr (false, 90, reads_queue ∷ [], rw (p, q) refl)
      | inr q ↦ inl (rw (p, q) refl)
    ]
  ];
}

-- What the sender does behind its first event.
abbrev registering : List Event
registering = elim sender [ [] ↦ [] | e ∷ rest ↦ rest ]

-- The sender has the mutex of the list.
abbrev during : Threads
during = record { owner = owned_by before list_mutex (some 0); todo = goes_on before 0 registering }

to_list : Reach before during
to_list = next here (takes 0 list_mutex registering refl refl)

abbrev registered : List Event
registered = elim registering [ [] ↦ [] | e ∷ rest ↦ rest ]

Reach-owned_example : (◌≡◌ {A = ℕ} 0 0) × (during.owner list_mutex ≡ some 0)
Reach-owned_example =
    Reach-owned 0 0 list_mutex registered registered before-AtStart to_list refl refl

Reach-goes_on_example : (u : Threads) × Step during u
Reach-goes_on_example = Reach-goes_on 1 before-AtStart to_list (λ e. absurd (cc e))

-- The handler at 70 ends while the client of another one logs in.
abbrev leaving : Threads
leaving = record {
  owner = λ _. none;
  todo = λ i.
      if i == 0
      then destroy_handlers_block_path enable_lock 70 ++ []
      else if i == 1
      then authenticator_path false ++ []
      else [];
}

authenticator_path-races_example :
    (t : Threads) × (u : Threads) × (rest1 : List Event) × (more1 : List Event) × (more2 : List
      Event)
    × Reach leaving t
    × (t.todo 0 ≡ uses table_mutex ∷ rest1)
    × (t.todo 1 ≡ uses table_mutex ∷ more1)
    × Reach t u
    × (u.todo 1 ≡ unlocks table_mutex ∷ more2)
    × (u.owner table_mutex ≡ some 0)
authenticator_path-races_example =
    authenticator_path-races leaving 0 1 70 [] [] (omega arith) refl refl refl
