-- ===== src/Queue/Fifo.antt =====
-- Calls of `enqueue` and `dequeue` of libs/queue.c, in any order.
use concurrent_server.Base.{◌≡◌, ◌≢◌, refl, ap, ◌∙◌, none, Option, List, [], ◌∷◌, ◌++◌, ok, arith}
use concurrent_server.Heap.{Ptr, null, Store, Cmd, pure, ◌>>=◌, put, update}
use concurrent_server.Heap.Seg.{Cells, data_of, data_of-append}
use concurrent_server.Queue.{QueueNode, GenericQueue, enqueue, dequeue}
use concurrent_server.Queue.Refine.{IsQueue, enqueue-append, dequeue-cons, dequeue-nil}

-- A call, with what `malloc` returns for a packet that is put.
pub data Call : Type 0 where
  puts : (np : Ptr) (packet : Ptr) → Call
  takes : Call

-- The calls, and what those of `dequeue` return.
pub run_calls : List Call → GenericQueue → Cmd QueueNode (List Ptr × GenericQueue)
run_calls [] q = pure ([], q)
run_calls (puts np pk ∷ calls) q = do q1 ← enqueue np q pk; run_calls calls q1
run_calls (takes ∷ calls) q = do
  (v, q1) ← dequeue q
  (vs, q2) ← run_calls calls q1
  pure (v ∷ vs, q2)

-- The same on a list of packets, the oldest first: NULL where there is none.
pub returned : List Call → List Ptr → List Ptr
returned [] ws = []
returned (puts np pk ∷ calls) ws = returned calls (ws ++ pk ∷ [])
returned (takes ∷ calls) [] = null ∷ returned calls []
returned (takes ∷ calls) (w ∷ ws) = w ∷ returned calls ws

pub waiting : List Call → List Ptr → List Ptr
waiting [] ws = ws
waiting (puts np pk ∷ calls) ws = waiting calls (ws ++ pk ∷ [])
waiting (takes ∷ calls) [] = waiting calls []
waiting (takes ∷ calls) (w ∷ ws) = waiting calls ws

abbrev pub Later : Ptr → List Call → Type 0
Later np [] = Unit
Later np (puts mp pk ∷ calls) = (mp ≢ np) × Later np calls
Later np (takes ∷ calls) = Later np calls

-- The addresses that `malloc` returns are not NULL, not in use, and none of them comes twice.
abbrev pub Fresh : (Ptr → Option QueueNode) → List Call → Type 0
Fresh h [] = Unit
Fresh h (puts np pk ∷ calls) = (np ≢ null) × (h np ≡ none) × Later np calls × Fresh h calls
Fresh h (takes ∷ calls) = Fresh h calls

-- A change that frees nodes, and uses at most `np`, leaves the later addresses fresh.
Fresh-after :
    (h g : Ptr → Option QueueNode) (np : Ptr) (calls : List Call)
    → ((c : Ptr) → c ≢ np → h c ≡ none → g c ≡ none)
    → Later np calls
    → Fresh h calls
    → Fresh g calls
Fresh-after h g np [] kept later f = tt
Fresh-after h g np (puts mp pk ∷ calls) kept (off, later) (ne, out, apart, f) =
    (ne, kept mp off out, apart, Fresh-after h g np calls kept later f)
Fresh-after h g np (takes ∷ calls) kept later f = Fresh-after h g np calls kept later f

Fresh-freed :
    (h : Ptr → Option QueueNode) (a : Ptr) (calls : List Call)
    → Fresh h calls
    → Fresh (update h a none) calls
unfolding update
Fresh-freed h a [] f = tt
Fresh-freed h a (puts mp pk ∷ calls) (ne, out, apart, f) =
    (ne, ground (arith, out), apart, Fresh-freed h a calls f)
Fresh-freed h a (takes ∷ calls) f = Fresh-freed h a calls f

-- What the calls come to, on a queue whose packets are `ws`.
abbrev pub Fifo : Store QueueNode → GenericQueue → List Call → List Ptr → Type 0
Fifo s q calls ws =
    (q' : GenericQueue) × (s' : Store QueueNode) × (ys : Cells) × (run_calls calls q s
      ≡ ok ((returned calls ws, q'), s'))
    × IsQueue s' q' ys
    × (data_of ys ≡ waiting calls ws)

-- Any calls of `enqueue` and `dequeue`, in any order, succeed and return what a list of packets does
-- that is first in first out, NULL where it is empty; and the queue holds the packets that wait then.
-- For a packet that is put, `malloc` returns an address that is not NULL, was not in use at the start,
-- and was not returned before.
pub run_calls-returned :
    (calls : List Call) (s : Store QueueNode) (q : GenericQueue) (xs : Cells)
    → IsQueue s q xs
    → Fresh s.cells calls
    → Fifo s q calls (data_of xs)
unfolding run_calls returned waiting
run_calls-returned [] s q xs is f = (q, s, xs, refl, is, refl)
run_calls-returned (puts np pk ∷ calls) s q xs is (ne, out, later, f) =
    let (q1, s1, run, is1, kept, _) = enqueue-append s q xs np pk is ne out in
    let (q2, s2, ys, run2, is2, left) =
      run_calls-returned calls s1 q1 (xs ++ (np, pk) ∷ []) is1
        (Fresh-after s.cells s1.cells np calls kept later f) in
    let e = data_of-append xs ((np, pk) ∷ []) in
    (
      q2,
      s2,
      ys,
      rw run (run2 ∙ ap (λ ws. ok ((returned calls ws, q2), s2)) e),
      is2,
      left ∙ ap (waiting calls) e,
    )
run_calls-returned (takes ∷ calls) s q [] is f =
    let (q2, s2, ys, run2, is2, left) = run_calls-returned calls s q [] is f in
    (q2, s2, ys, rw (dequeue-nil s q is, run2) refl, is2, left)
run_calls-returned (takes ∷ calls) s q ((a, v) ∷ xs) is f =
    let (q1, run, is1) = dequeue-cons s q a v xs is in
    let (q2, s2, ys, run2, is2, left) =
      run_calls-returned calls (put s a none) q1 xs is1 (Fresh-freed s.cells a calls f) in
    (q2, s2, ys, rw (run, run2) refl, is2, left)
