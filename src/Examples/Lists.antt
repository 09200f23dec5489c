-- ===== src/Examples/Lists.antt =====
-- The queue of libs/queue.c and the list of libs/generic_linked_list.c at work on small memories.
use concurrent_server.Base.{
  ℕ, List, ◌≡◌, refl, none, some, [], ◌∷◌, ◌++◌, ok, arith, pos, if◌then◌else◌,
}
use concurrent_server.Heap.{Ptr, null, Store, update}
use concurrent_server.Heap.Seg.{Cells, has, nil, cons}
use concurrent_server.Queue.{QueueNode, GenericQueue, queue, destroy_queue}
use concurrent_server.Queue.Refine.{IsQueue, destroy_queue-all}
use concurrent_server.Queue.Fifo.{Call, puts, takes, Fifo, run_calls-returned}
use concurrent_server.GenericList.{
  ListNode, disable_lock, GenericList, list_pushback, list_pushfront, list_popfront, list_popback,
  destroy_generic_list,
}
use concurrent_server.GenericList.Push.{IsList, Pushed, pushes-extend}
use concurrent_server.GenericList.Pop.{Popped, pops-shorten}
use concurrent_server.GenericList.RemoveHead.{Removed}
use concurrent_server.GenericList.Remove.{destroy_list_node-erase}
use concurrent_server.GenericList.Destroy.{destroy_generic_list-all}

-- Two packets, 70 and 80, in the nodes at 1 and 2.
abbrev queue_memory : Store QueueNode
queue_memory = record {
  cells =
      update (update (λ a. none) 2 (some (record { packet = 80; next = null }))) 1
        (some (record { packet = 70; next = 2 }));
  destroyed = [];
}

abbrev two_packets : Cells
two_packets = (1, 70) ∷ (2, 80) ∷ []

two_packets-IsQueue : IsQueue queue_memory (queue 1 2) two_packets
unfolding update
two_packets-IsQueue = record {
  chain = cons (omega arith) refl refl (cons (omega arith) refl refl nil);
  tail = refl;
}

unused : queue_memory.cells 3 ≡ none
unfolding update
unused = refl

-- Two packets are taken, one is put, and there is one to be taken after it.
abbrev calls : List Call
calls = takes ∷ puts 3 90 ∷ takes ∷ takes ∷ takes ∷ []

run_calls-returned_example : Fifo queue_memory (queue 1 2) calls (70 ∷ 80 ∷ [])
run_calls-returned_example =
    run_calls-returned calls queue_memory (queue 1 2) two_packets two_packets-IsQueue
      (omega arith, unused, tt, tt)

destroy_queue-all_example :
    (q' : GenericQueue) × (s' : Store QueueNode) × (destroy_queue 3 (queue 1 2) queue_memory
      ≡ ok (q', s'))
    × IsQueue s' q' []
    × (s'.destroyed ≡ 70 ∷ 80 ∷ [])
    × ((a : Ptr) → s'.cells a ≡ (if has a two_packets then none else queue_memory.cells a))
destroy_queue-all_example =
    destroy_queue-all 3 two_packets queue_memory (queue 1 2) two_packets-IsQueue (omega arith)

-- Two data in a doubly linked list, at 1 and 2.
abbrev list_memory : Store ListNode
list_memory = record {
  cells =
      update (update (λ a. none) 2 (some (record { datum = 80; next = null; prev = 1 }))) 1
        (some (record { datum = 70; next = 2; prev = null }));
  destroyed = [];
}

abbrev two : GenericList
two = record { head = 1; tail = 2; list_len = pos 2; is_lock_used = disable_lock }

two-IsList : IsList list_memory two two_packets
unfolding update
two-IsList = record {
  chain = cons (omega arith) refl refl (cons (omega arith) refl refl nil);
  tail = refl;
  list_len = refl;
}

unused' : list_memory.cells 3 ≡ none
unfolding update
unused' = refl

destroy_generic_list-all_example :
    (l' : GenericList) × (s' : Store ListNode) × (destroy_generic_list 3 (some two) list_memory
      ≡ ok (some l', s'))
    × IsList s' l' []
    × (s'.destroyed ≡ 70 ∷ 80 ∷ [])
destroy_generic_list-all_example =
    destroy_generic_list-all 3 two_packets list_memory two two-IsList (omega arith)

pushes-extend_example :
    Pushed list_memory (two_packets ++ (3, 90) ∷ []) (list_pushback 3 two 90)
    × Pushed list_memory ((3, 90) ∷ two_packets) (list_pushfront 3 two 90)
pushes-extend_example =
    pushes-extend list_memory two two_packets 3 90 two-IsList (omega arith) unused' (omega arith)

pops-shorten_example :
    Popped list_memory 70 1 ((2, 80) ∷ []) (list_popfront two list_memory)
    × ((ys : Cells) × (last : ℕ × ℕ) × (two_packets ≡ ys ++ last ∷ [])
        × Popped list_memory last.1 last.0 ys (list_popback two list_memory))
pops-shorten_example = pops-shorten list_memory two 1 70 ((2, 80) ∷ []) two-IsList

destroy_list_node-erase_example : Removed list_memory two 2 80 two_packets ((1, 70) ∷ [])
destroy_list_node-erase_example =
    destroy_list_node-erase list_memory two null ((1, 70) ∷ []) 2 80 [] two-IsList
