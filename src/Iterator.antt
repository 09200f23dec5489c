-- ===== src/Iterator.antt =====
-- libs/iterator.h and libs/iterator.c: the ring of thread blocks. The static variables of the file are
-- the record Ring. `np` is what `malloc` returns; the end of the process is the result `none`.
pub mod Ring
pub mod Walk
pub mod Find
pub mod Remove
use concurrent_server.Base.{
  ℕ, zero, suc, ◌+◌, ◌-◌, ◌%◌, ◌^◌, Option, none, some, ◌==◌, if◌then◌else◌, fault, ℤ, to_int,
}
use concurrent_server.Heap.{Ptr, null, Cmd, pure, ◌>>=◌, ◌>>◌, load, modify, alloc, free}

pub data BusyFlags : Type 0 where
  not_busy busy : BusyFlags

pub record IterNode : Type 0 where
  pub info_block : ℕ
  pub flag : BusyFlags
  pub next : Ptr
  pub prev : Ptr

pub record Iterators : Type 0 where
  pub list_len : ℕ
  pub head : Ptr
  pub last : Ptr
  pub forward_curr : Ptr
  pub backward_curr : Ptr

abbrev pub no_iterators : Iterators
no_iterators = record {
  list_len = 0;
  head = null;
  last = null;
  forward_curr = null;
  backward_curr = null;
}

unfoldable pub create_iterator : Ptr → ℕ → Cmd IterNode (Option Ptr)
unfolding alloc
create_iterator np block = if np == null then pure none else (do
  alloc np (record { info_block = block; flag = not_busy; next = null; prev = null })
  pure (some np))

unfoldable pub link_iterator : Iterators → Ptr → Cmd IterNode Iterators
unfolding modify
link_iterator r node =
    if r.list_len == 0
    then (do
      modify node (λ n. record n { next = node })
      pure (record {
        list_len = 1;
        head = node;
        last = node;
        forward_curr = node;
        backward_curr = node;
      }))
    else (do
      modify r.last (λ n. record n { next = node })
      modify node (λ n. record n { next = r.head })
      pure (record r { last = node; list_len = (r.list_len + 1) % 2 ^ 32 }))

-- The `while` loop of `remove_iterator`.
pub find_prev : ℕ → Ptr → Ptr → Cmd IterNode Ptr
unfolding load
find_prev zero node p = λ _. fault
find_prev (suc fuel) node p = do
  n ← load p
  if n.next == node then pure p else find_prev fuel node n.next

abbrev pub one_less : ℕ → ℕ
one_less n = (n + (2 ^ 32 - 1)) % 2 ^ 32

-- The block of the node that is removed.
unfoldable pub remove_iterator : ℕ → Iterators → Ptr → Cmd IterNode (ℕ × Iterators)
unfolding load modify free find_prev
remove_iterator fuel r node =
    if node == null
    then pure (null, r)
    else if node == r.head
    then (do
      n ← load node
      modify r.last (λ m. record m { next = n.next })
      hold ← load node
      free node
      pure (hold.info_block, record r { list_len = one_less r.list_len; head = n.next }))
    else (do
      p ← find_prev fuel node node
      n ← load node
      modify p (λ m. record m { next = n.next })
      hold ← load node
      free node
      pure (
        hold.info_block,
        record r { last = if node == r.last then p else r.last; list_len = one_less r.list_len },
      ))

-- The result is NULL where there is no current node.
unfoldable pub move_forward : Iterators → Cmd IterNode (Ptr × Iterators)
unfolding load
move_forward r =
    if r.forward_curr == null
    then pure (null, r)
    else (do n ← load r.forward_curr; pure (n.next, record r { forward_curr = n.next }))

unfoldable pub move_backward : Iterators → Cmd IterNode (Ptr × Iterators)
unfolding load
move_backward r =
    if r.backward_curr == null
    then pure (null, r)
    else (do n ← load r.backward_curr; pure (n.prev, record r { backward_curr = n.prev }))

-- The length, as an `int`.
pub get_iter_length : Iterators → ℤ
get_iter_length r = to_int r.list_len
