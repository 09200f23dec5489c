-- ===== src/Recyclable.antt =====
-- data_structs/recyclable_fields_array.h and data_structs/recyclable_fields_array.c: which fields of an
-- array are used and which may be used again. No header of the repository declares the queue that it
-- stands on: that is the parameter `NormalQueue`.
pub mod Laws
pub mod Pool
use concurrent_server.Base.{
  ℕ, ◌+◌, ◌%◌, ◌^◌, ◌≡◌, Bool, Option, none, some, List, ◌∷◌, ◌++◌, [], ℤ, minus_one, to_int,
  if◌then◌else◌, replicate,
}

-- The type `normal_queue` and its functions. `normal_destroy_node` frees a node that is not in a queue
-- any more, which nothing observes.
pub record NormalQueue : Type 1 where
  pub Queue : Type 0
  pub Node : Type 0
  pub create_normal_queue : Queue
  pub normal_enqueue : Queue → ℕ → Queue
  pub normal_remove_node : Queue → ℕ → Option Node × Queue
  pub normal_queue_isempty : Queue → Bool
  pub normal_dequeue : Queue → Option Node × Queue
  -- `node->data`
  pub data_of : Node → ℕ

module _ (Q : NormalQueue) where
  open Q use {
    Queue, create_normal_queue, normal_enqueue, normal_remove_node, normal_queue_isempty,
    normal_dequeue, data_of,
  }

  pub record RecyclableArray : Type 0 where
    pub tid : List ℕ
    pub list_length : ℕ
    pub indeces_of_used_fields : Queue
    pub indeces_of_reusable_fields : Queue

  -- `max_conn` is MAX_CONN.
  unfoldable pub init_recyclable_array_object : ℕ → RecyclableArray
  init_recyclable_array_object max_conn = record {
    tid = replicate max_conn 0;
    list_length = 1;
    indeces_of_used_fields = create_normal_queue;
    indeces_of_reusable_fields = create_normal_queue;
  }

  unfoldable pub set_field_used : ℕ → RecyclableArray → RecyclableArray
  set_field_used index r = record r {
    indeces_of_used_fields = normal_enqueue r.indeces_of_used_fields index;
  }

  unfoldable pub set_field_reusable : ℕ → RecyclableArray → RecyclableArray
  set_field_reusable index r =
      let (node, used) = normal_remove_node r.indeces_of_used_fields index in
      record r {
        indeces_of_used_fields = used;
        indeces_of_reusable_fields = normal_enqueue r.indeces_of_reusable_fields index;
      }

  unfoldable pub get_usable_field_index : RecyclableArray → ℤ × RecyclableArray
  get_usable_field_index r =
      if normal_queue_isempty r.indeces_of_reusable_fields
      then (let n = (r.list_length + 1) % 2 ^ 32 in (to_int n, record r { list_length = n }))
      else (let (node, rest) = normal_dequeue r.indeces_of_reusable_fields in
          elim node [
            | none ↦ (minus_one, record r { indeces_of_reusable_fields = rest })
            | some n ↦ (to_int (data_of n), record r { indeces_of_reusable_fields = rest })
          ])
