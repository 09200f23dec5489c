-- ===== src/Examples/Servers.antt =====
-- The start, a connection and the shutdown of a small server.
use concurrent_server.Base.{
  ◌≡◌, ◌≢◌, ◌⊎◌, inl, inr, ℕ, Bool-cases, refl, sym, true, false, none, some, [], ◌∷◌, ◌++◌, ok,
  arith, pos, minus_one, if◌then◌else◌, ◌==◌, replicate,
}
use concurrent_server.Base.State.{pure, ◌>>=◌}
use concurrent_server.Heap.{null, update}
use concurrent_server.Heap.Seg.{Cells, nil, cons}
use concurrent_server.GenericList.{ListNode, enable_lock}
use concurrent_server.GenericList.Push.{IsList}
use concurrent_server.Text.{Bytes, codes}
use concurrent_server.ThreadBlock.{ThreadBlock, create_thread_node, user_not_auth, name_buf_size}
use concurrent_server.Server.{main}
use concurrent_server.Server.Start.{main-listens}
use concurrent_server.Server.Accept.{
  Handler, Server, Accepting, destroy_block, accept_round, init_connection_handler,
}
use concurrent_server.Server.Connecting.{Succeeds, known, accepted, accept_round-registers}
use concurrent_server.Server.Early.{Overtakes, accept_round-early}
use concurrent_server.Server.Traffic.{Run, Reach, behind, here, next, connects}
use concurrent_server.Server.Consistent.{Consistent, listed}
use concurrent_server.Server.Safe.{Reach-Consistent, Reach-destroy_block}
use concurrent_server.Server.Ending.{Ends, Reach-shutdown_server}
use concurrent_server.Examples.Worlds.{env, alice, bob}

-- The database of `env` counts the queries: four, since it has no such schema yet.
main-listens_example :
    main env
      (some (codes "/root"))
      (λ _. true)
      (record {
        create_generic_list = true;
        mysql_init = true;
        mysql_real_connect = true;
        sigaction = true;
        socket = true;
        bind = true;
      })
      (codes "main"
        ∷ codes "4040"
        ∷ codes "127.0.0.1"
        ∷ codes "localhost"
        ∷ codes "root"
        ∷ codes "password"
        ∷ [])
      0
    ≡ ok (true, 4)
main-listens_example =
    main-listens env (codes "/root") (λ _. true)
      (record {
        create_generic_list = true;
        mysql_init = true;
        mysql_real_connect = true;
        sigaction = true;
        socket = true;
        bind = true;
      })
      (codes "main") (codes "4040") (codes "127.0.0.1") (codes "localhost") (codes "root")
      (codes "password") [] 0 [] refl (refl, refl, refl, refl, refl, refl) (omega arith)
      (omega arith) (omega arith) (omega arith) (λ _ _. refl) refl

-- Two threads, whose ids are stored at 71 and 91, serve the blocks at 70 and 90.
abbrev thread_ids : Cells
thread_ids = (1, 71) ∷ (2, 91) ∷ []

abbrev running : Server Bytes
running = record {
  nodes = record {
    cells =
        update (update (λ a. none) 2 (some (record { datum = 91; next = null; prev = 1 }))) 1
          (some (record { datum = 71; next = 2; prev = null }));
    destroyed = [];
  };
  threads = record { head = 1; tail = 2; list_len = pos 2; is_lock_used = enable_lock };
  handlers = λ b.
      if b == 70
      then some (record { block = alice; tid = 1 })
      else if b == 90
      then some (record { block = bob; tid = 2 })
      else none;
  serves = λ d. if d == 71 then 70 else if d == 91 then 90 else 0;
  shut = [];
  closed = [];
}

running-IsList : IsList running.nodes running.threads thread_ids
unfolding update
running-IsList = record {
  chain = cons (omega arith) refl refl (cons (omega arith) refl refl nil);
  tail = refl;
  list_len = refl;
}

-- A third client, on socket 14.
abbrev newcomer : Accepting Bytes
newcomer = record {
  killed = false;
  socket = some 14;
  eintr = false;
  node = 3;
  datum = 61;
  startup = record {
    malloc = true;
    mysql_init = true;
    mysql_real_connect = true;
    create_queue = true;
  };
  unset = codes "-1";
  at = 60;
  started = true;
}

abbrev new_block : ThreadBlock Bytes
new_block = record {
  socket = 14;
  userid = minus_one;
  username = replicate name_buf_size 0;
  auth = user_not_auth;
  revision_number = pos 0;
  loc = record { longitude = codes "-1"; lattitude = codes "-1" };
  in_queue = [];
  cancelled = false;
}

newcomer-Succeeds : Succeeds running newcomer 14 new_block false
unfolding create_thread_node update
newcomer-Succeeds = record {
  killed = refl;
  socket = refl;
  node = omega arith;
  datum = omega arith;
  fresh = refl;
  block = refl;
  started = refl;
}

accept_round-registers_example :
    (s' : Server Bytes) × ((accept_round Bytes (pure tt) newcomer >>= λ _.
    init_connection_handler Bytes 128 60)
        running
      ≡ ok (tt, s'))
    × IsList s'.nodes s'.threads (thread_ids ++ (3, 61) ∷ [])
    × (s'.handlers 60 ≡ some (record { block = new_block; tid = 3 }))
    × (s'.serves 61 ≡ 60)
accept_round-registers_example =
    accept_round-registers running newcomer 14 new_block false 128 null thread_ids running-IsList
      (λ e. absurd (cc e)) (omega arith) newcomer-Succeeds

accept_round-early_example : Overtakes 128 running newcomer new_block null thread_ids
accept_round-early_example =
    accept_round-early 128 running newcomer 14 new_block false null thread_ids running-IsList
      (λ e. absurd (cc e)) newcomer-Succeeds

-- Both threads have begun.
abbrev two_clients : Run Bytes
two_clients = record { server = running; begun = λ _. true }

served :
    (b : ℕ) (h : Handler Bytes)
    → running.handlers b ≡ some h
    → ((b ≡ 70) × (h.tid ≡ 1)) ⊎ ((b ≡ 90) × (h.tid ≡ 2))
served b h e = elim (Bool-cases (b == 70)) [
  | inl p ↦ inl (ground (arith, p), ground (arith, e, p))
  | inr p ↦ elim (Bool-cases (b == 90)) [
    | inl q ↦ inr (ground (arith, q), ground (arith, e, p, q))
    | inr q ↦ absurd (ground (arith, e, p, q))
  ]
]

two_clients-Consistent : Consistent two_clients
two_clients-Consistent = record {
  before = null;
  listed = thread_ids;
  linked = running-IsList;
  first = λ e. absurd (cc e);
  nodes = λ b h e. elim (served b h e) [
    | inl (p, t) ↦ (omega (arith, t), listed 71 (ground (arith, t)) (omega arith, sym p) refl)
    | inr (p, t) ↦ (omega (arith, t), listed 91 (ground (arith, t)) (omega arith, sym p) refl)
  ];
  apart = λ b c h k e f ne. ground (arith, served b h e, served c k f, ne);
  owners = λ c d e. elim (Bool-cases (c == 1)) [
    | inl p ↦ (70, record { block = alice; tid = 1 }, refl, ground (arith, p))
    | inr p ↦ (90, record { block = bob; tid = 2 }, refl, ground (arith, p, e))
  ];
}

-- The third client connects.
abbrev three_clients : Run Bytes
three_clients = record {
  server = known running newcomer 14 new_block false;
  begun = λ b. if b == 60 then false else true;
}

no_datum : (c : ℕ) (n : ListNode) → running.nodes.cells c ≡ some n → n.datum ≢ 61
unfolding update
no_datum c n e p = elim (Bool-cases (c == 1)) [
  | inl i ↦ absurd (ground (arith, e, i, p))
  | inr i ↦ absurd (ground (arith, e, i, p))
]

comes : Reach Bytes 128 two_clients three_clients
comes = next here (
    connects behind newcomer 14 new_block false (known running newcomer 14 new_block false)
      newcomer-Succeeds refl no_datum
      (accepted running newcomer 14 new_block false newcomer-Succeeds))

Reach-Consistent_example : Consistent three_clients
Reach-Consistent_example = Reach-Consistent 128 comes two_clients-Consistent

Reach-destroy_block_example :
    ((three_clients.begun 60 ≡ true)
      ⊎ ((s' : Server Bytes) × (init_connection_handler Bytes 128 60 three_clients.server
            ≡ ok (tt, s'))))
    × ((s' : Server Bytes) × (destroy_block Bytes 60 three_clients.server ≡ ok (tt, s'))
        × (s'.handlers 60 ≡ none))
Reach-destroy_block_example =
    Reach-destroy_block 128 two_clients three_clients 60 (record { block = new_block; tid = 3 })
      comes two_clients-Consistent refl

Reach-shutdown_server_example : Ends 1 9 three_clients.server
Reach-shutdown_server_example =
    Reach-shutdown_server 128 1 9 two_clients three_clients comes two_clients-Consistent
      (omega arith)
