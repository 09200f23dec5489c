-- ===== src/Examples/Fields.antt =====
-- The fields of data_structs/recyclable_fields_array.c, over a queue that is a list.
use concurrent_server.Base.{
  ℕ, ◌≡◌, ◌++◌, refl, true, false, none, some, List, [], ◌∷◌, arith, pos, get_elem?, ap, to_int,
}
use concurrent_server.Recyclable.{
  NormalQueue, RecyclableArray, init_recyclable_array_object, get_usable_field_index,
  set_field_used, set_field_reusable,
}
use concurrent_server.Recyclable.Laws.{IsFifo, erase}
use concurrent_server.Recyclable.Pool.{
  Unused, Step, takes, returns, Reach, here, next, Reach-Unused, take_all, take_all-overruns,
}

abbrev list_queue : NormalQueue
list_queue = record {
  Queue = List ℕ;
  Node = ℕ;
  create_normal_queue = [];
  normal_enqueue = λ q x. q ++ x ∷ [];
  normal_remove_node = λ q x. (some x, erase x q);
  normal_queue_isempty = λ q. elim q [ [] ↦ true | x ∷ xs ↦ false ];
  normal_dequeue = λ q. elim q [ [] ↦ (none, []) | x ∷ xs ↦ (some x, xs) ];
  data_of = λ n. n;
}

abbrev list_queue_laws : IsFifo list_queue
list_queue_laws = record {
  view = λ q. q;
  created = refl;
  enqueued = λ q x. refl;
  removed = λ q x. refl;
  empty = λ q e. ap (λ l. list_queue.normal_queue_isempty l) e;
  filled = λ q x xs e. ap (λ l. list_queue.normal_queue_isempty l) e;
  dequeued = λ q x xs e. (x, xs, ap (λ l. list_queue.normal_dequeue l) e, refl, refl);
}

-- Two users take a field each, and the first gives its field back.
abbrev one_free : RecyclableArray list_queue
one_free = record {
  tid = 0 ∷ 0 ∷ 0 ∷ 0 ∷ [];
  list_length = 3;
  indeces_of_used_fields = 3 ∷ [];
  indeces_of_reusable_fields = 2 ∷ [];
}

abbrev fields : ℕ → List ℕ → RecyclableArray list_queue
fields len held = record {
  tid = 0 ∷ 0 ∷ 0 ∷ 0 ∷ [];
  list_length = len;
  indeces_of_used_fields = held;
  indeces_of_reusable_fields = [];
}

abbrev Moves : RecyclableArray list_queue → RecyclableArray list_queue → Type 0
Moves = Step list_queue list_queue_laws

first_taken : Moves (init_recyclable_array_object list_queue 4) (fields 2 (2 ∷ []))
unfolding init_recyclable_array_object get_usable_field_index set_field_used to_int
first_taken = takes 2 (fields 2 []) (omega arith) refl

second_taken : Moves (fields 2 (2 ∷ [])) (fields 3 (2 ∷ 3 ∷ []))
unfolding get_usable_field_index set_field_used to_int
second_taken = takes 3 (fields 3 (2 ∷ [])) (omega arith) refl

first_returned : Moves (fields 3 (2 ∷ 3 ∷ [])) one_free
unfolding set_field_reusable
first_returned = returns 2 (omega arith)

one_given_back :
    Reach list_queue list_queue_laws (init_recyclable_array_object list_queue 4) one_free
one_given_back = next (next (next here first_taken) second_taken) first_returned

Reach-Unused_example : Unused list_queue list_queue_laws one_free
Reach-Unused_example =
    Reach-Unused list_queue list_queue_laws 4 one_free one_given_back (omega arith)

take_all-overruns_example :
    (r' : RecyclableArray list_queue) × (get_usable_field_index list_queue
        (take_all list_queue 2 (init_recyclable_array_object list_queue 4))
      ≡ (pos 4, r'))
    × (get_elem? r'.tid 4 ≡ none)
take_all-overruns_example = take_all-overruns list_queue list_queue_laws 2 (omega arith)
