-- ===== src/GenericList.antt =====
-- libs/generic_linked_list.h and libs/generic_linked_list.c: a doubly linked list of data pointers.
-- A datum is its address, 0 for NULL. A destructor call is recorded in the memory's `destroyed`. The
-- mutex is not part of the model. `list_len`, an `int`, has no bound here: the model is that of the source
-- for lists of fewer than 2^31 nodes. `np` and `malloc` say what an allocation returns.
pub mod Append
pub mod Destroy
pub mod Pop
pub mod Push
pub mod Remove
pub mod RemoveHead
pub mod Unlink
pub mod Gone
use concurrent_server.Base.{
  ℕ, zero, suc, Bool, true, false, not, ◌&&◌, ◌||◌, Option, none, some, ◌==◌, if◌then◌else◌, fault,
  ℤ, pos, minus_one, eqb, inc, dec,
}
use concurrent_server.Heap.{
  Ptr, null, Store, Cmd, pure, ◌>>=◌, ◌>>◌, load, modify, alloc, free, dtor,
}

pub data ListLock : Type 0 where
  enable_lock disable_lock : ListLock

pub record ListNode : Type 0 where
  pub datum : ℕ
  pub next : Ptr
  pub prev : Ptr

pub record GenericList : Type 0 where
  pub head : Ptr
  pub tail : Ptr
  pub list_len : ℤ
  pub is_lock_used : ListLock

unfoldable pub create_generic_list : Bool → ListLock → Option GenericList
create_generic_list malloc lock =
    if malloc
    then some (record { head = null; tail = null; list_len = pos 0; is_lock_used = lock })
    else none

unfoldable pub generic_list_empty : GenericList → Bool
generic_list_empty l = l.head == null

-- Two allocations: the node and its datum. `none` is NULL; the node is freed if the second fails.
unfoldable pub create_list_node : Ptr → ℕ → Cmd ListNode Ptr
unfolding alloc
create_list_node np datum =
    if np == null || datum == null
    then pure null
    else (do alloc np (record { datum = datum; next = null; prev = null }); pure np)

-- The result -1 leaves the list as it is.
unfoldable pub append_list_node : GenericList → Ptr → Cmd ListNode (ℤ × GenericList)
unfolding generic_list_empty modify
append_list_node l node =
    if node == null
    then pure (minus_one, l)
    else if generic_list_empty l
    then pure (pos 0, record l { head = node; tail = node; list_len = inc l.list_len })
    else (do
      modify l.tail (λ n. record n { next = node })
      modify node (λ n. record n { prev = l.tail })
      pure (pos 0, record l { tail = node; list_len = inc l.list_len }))

-- The flag says whether the datum was taken; if not, it is destroyed.
unfoldable pub list_pushback : Ptr → GenericList → ℕ → Cmd ListNode (Bool × GenericList)
unfolding generic_list_empty modify alloc dtor
list_pushback np l datum =
    if np == null
    then (do dtor datum; pure (false, l))
    else if generic_list_empty l
    then (do
      alloc np (record { datum = datum; next = null; prev = null })
      pure (true, record l { head = np; tail = np; list_len = inc l.list_len }))
    else (do
      alloc np (record { datum = datum; next = null; prev = l.tail })
      modify l.tail (λ n. record n { next = np })
      pure (true, record l { tail = np; list_len = inc l.list_len }))

unfoldable pub list_pushfront : Ptr → GenericList → ℕ → Cmd ListNode (Bool × GenericList)
unfolding generic_list_empty modify alloc dtor
list_pushfront np l datum =
    if np == null
    then (do dtor datum; pure (false, l))
    else if generic_list_empty l
    then (do
      alloc np (record { datum = datum; next = null; prev = null })
      pure (true, record l { head = np; tail = np; list_len = inc l.list_len }))
    else (do
      alloc np (record { datum = datum; next = l.head; prev = null })
      modify l.head (λ n. record n { prev = np })
      pure (true, record l { head = np; list_len = inc l.list_len }))

-- The datum, or NULL.
unfoldable pub list_popfront : GenericList → Cmd ListNode (ℕ × GenericList)
unfolding generic_list_empty load modify free
list_popfront l = if generic_list_empty l then pure (null, l) else (do
  n ← load l.head
  if n.next == null
      then (do
        free l.head
        pure (n.datum, record l { head = null; tail = null; list_len = dec l.list_len }))
      else (do
        modify n.next (λ m. record m { prev = null })
        free l.head
        pure (n.datum, record l { head = n.next; list_len = dec l.list_len })))

unfoldable pub list_popback : GenericList → Cmd ListNode (ℕ × GenericList)
unfolding generic_list_empty load modify free
list_popback l = if generic_list_empty l then pure (null, l) else (do
  n ← load l.tail
  if n.prev == null
      then (do
        free l.tail
        pure (n.datum, record l { head = null; tail = null; list_len = dec l.list_len }))
      else (do
        modify n.prev (λ m. record m { next = null })
        free l.tail
        pure (n.datum, record l { tail = n.prev; list_len = dec l.list_len })))

-- The insertion behind `next_to_node`. The source has no return between the insertion and the label
-- `error_ENOMEM`, so the datum is destroyed on success too.
unfoldable pub generic_list_insert_next_to :
    Ptr → GenericList → ℕ → Ptr → Cmd ListNode (Bool × GenericList)
unfolding load modify alloc dtor list_pushfront
generic_list_insert_next_to np l datum next_to_node =
    if datum == null
    then pure (false, l)
    else if next_to_node == null
    then (do (_, l') ← list_pushfront np l datum; dtor datum; pure (true, l'))
    else if np == null
    then (do dtor datum; pure (false, l))
    else (do
      t ← load next_to_node
      alloc np (record { datum = datum; next = t.next; prev = next_to_node })
      modify t.next (λ n. record n { prev = np })
      modify next_to_node (λ n. record n { next = np })
      dtor datum
      pure (
        true,
        record l {
          tail = if next_to_node == l.tail then np else l.tail;
          list_len = inc l.list_len;
        },
      ))

-- The label DESTROY_NODE of `destroy_list_node`.
unfoldable pub destroy_node : Ptr → Cmd ListNode (Unit {0})
unfolding load free dtor
destroy_node node =
    if node == null
    then pure tt
    else (do n ← load node; if n.datum == null then free node else (do dtor n.datum; free node))

-- `L` is not NULL here.
unfoldable pub destroy_list_node : GenericList → Ptr → Cmd ListNode GenericList
unfolding load modify destroy_node
destroy_list_node l node = do
  n ← load node
  if (n.next == null && n.prev == null) && not (node == l.head)
      then (do destroy_node node; pure l)
      else if l.head == null
      then (do destroy_node node; pure l)
      else if node == l.head
      then (do
        destroy_node node
        pure (record l {
          head = n.next;
          tail = if n.next == null then null else l.tail;
          list_len = dec l.list_len;
        }))
      else (do
        modify n.prev (λ m. record m { next = n.next })
        (if n.next == null then pure tt else modify n.next (λ m. record m { prev = n.prev }))
        destroy_node node
        pure (record l {
          tail = if node == l.tail then n.prev else l.tail;
          list_len = dec l.list_len;
        }))

-- The loop of `destroy_generic_list`: it pops and destroys until the length is 0.
destroy_list_loop : ℕ → GenericList → Cmd ListNode GenericList
destroy_list_loop zero l = λ _. fault
destroy_list_loop (suc fuel) l =
    let rest = (do (datum, l') ← list_popfront l; dtor datum; destroy_list_loop fuel l') in
    if eqb l.list_len (pos 0) then pure l else rest

unfoldable pub destroy_generic_list : ℕ → Option GenericList → Cmd ListNode (Option GenericList)
unfolding destroy_list_loop list_popfront dtor
destroy_generic_list fuel none = pure none
destroy_generic_list fuel (some l) =
    if l.head == null then pure (some l) else (do l' ← destroy_list_loop fuel l; pure (some l'))
