-- ===== src/Queue/Refine.antt =====
-- libs/queue.c refines a queue of packets: a list with the oldest packet first.
use mathlib.Core.Path.{subst}
use concurrent_server.Base.{
  ℕ, zero, suc, ◌<◌, ◌≡◌, ◌≢◌, refl, ap, ◌∙◌, sym, false, Option, none, some, [], ◌∷◌, ◌++◌, ok,
  append_assoc, length, arith, ◌==◌, snoc_view, ne→==, eq→==, append-nil, if◌then◌else◌,
}
use concurrent_server.Heap.{
  Ptr, null, Store, load-ok, modify-ok, free-ok, put, update, update_self, update_ne, and_then,
  pure, dtor,
}
use concurrent_server.Heap.Seg.{
  Cells, has, last_addr, data_of, Seg, nil, cons, frame-update, uncons, eq_of_nil, last_addr-append,
  last-ne-new, last_holds, last-ne-null, link_behind,
}
use concurrent_server.Queue.{
  QueueNode, GenericQueue, queue, enqueue, dequeue, destroy_loop, destroy_queue, empty,
}

abbrev pub cell : Ptr → Ptr → ℕ → QueueNode
cell prev next v = record { packet = v; next = next }

-- The queue's nodes are `xs`, from the head to the tail.
pub record IsQueue (s : Store QueueNode) (q : GenericQueue) (xs : Cells) : Type 0 where
  pub chain : Seg cell s.cells null null q.head xs
  pub tail : q.tail ≡ last_addr null xs

-- A queue with one more node at `np`; what was not in use before is still not, but for `np`.
abbrev pub Enqueued : Store QueueNode → GenericQueue → Cells → Ptr → Ptr → Type 0
Enqueued s q xs np pk =
    (q' : GenericQueue) × (s' : Store QueueNode) × (enqueue np q pk s ≡ ok (q', s'))
    × IsQueue s' q' (xs ++ (np, pk) ∷ [])
    × ((c : Ptr) → c ≢ np → s.cells c ≡ none → s'.cells c ≡ none)
    × (s'.destroyed ≡ s.destroyed)

-- The tail of a queue that is not empty points to the last node, which is then linked to the new one.
enqueue_behind :
    (s : Store QueueNode) (q : GenericQueue) (xs : Cells) (t : Ptr) (v np pk : ℕ)
    → IsQueue s q (xs ++ (t, v) ∷ [])
    → q.head ≢ null
    → np ≢ null
    → s.cells np ≡ none
    → Enqueued s q (xs ++ (t, v) ∷ []) np pk
unfolding enqueue
enqueue_behind s q xs t v np pk is full ne fresh =
    let n = cell t null pk in
    let m = cell (last_addr null xs) null v in
    let at_tail : q.tail ≡ t = is.tail ∙ last_addr-append null xs t v in
    let apart : t ≢ np = last-ne-new cell s.cells xs t v is.chain np ne fresh in
    let there : (put s np (some n)).cells t ≡ some m =
      update_ne s.cells np (some n) t apart ∙ last_holds cell s.cells xs t v is.chain in
    (
      queue q.head np,
      put (put s np (some n)) t (some (cell (last_addr null xs) np v)),
      rw (ne→== _ _ ne, ne→== _ _ full, at_tail)
          (ap (λ r. and_then r (λ _. pure (queue q.head np)))
            (modify-ok (put s np (some n)) there (last-ne-null cell s.cells xs t v is.chain)
              (λ k. record k { next = np }))),
      record {
        chain = link_behind cell s.cells xs t v is.chain np ne fresh pk;
        tail = sym (last_addr-append null (xs ++ (t, v) ∷ []) np pk);
      },
      λ c off out.
          update_ne (put s np (some n)).cells t (some (cell (last_addr null xs) np v)) c
            (λ e. cc (last_holds cell s.cells xs t v is.chain, ap s.cells e, out))
          ∙ update_ne s.cells np (some n) c off
          ∙ out,
      refl,
    )

-- `enqueue` puts the packet behind the others, when `malloc` returns an unused address.
pub enqueue-append :
    (s : Store QueueNode) (q : GenericQueue) (xs : Cells) (np pk : Ptr)
    → IsQueue s q xs
    → np ≢ null
    → s.cells np ≡ none
    → Enqueued s q xs np pk
unfolding enqueue
enqueue-append s q [] np pk is ne fresh =
    let none_yet : q.head ≡ null = eq_of_nil cell is.chain in
    (
      queue np np,
      put s np (some (record { packet = pk; next = null })),
      ground (arith, none_yet),
      record { chain = cons ne (update_self s.cells np _) refl nil; tail = refl },
      λ c off out. update_ne s.cells np _ c off ∙ out,
      refl,
    )
enqueue-append s q ((a, w) ∷ xs) np pk is ne fresh =
    let (front, (t, v), e) = snoc_view (a, w) xs in
    let full : q.head ≢ null = (uncons cell is.chain).ne_null in
    subst (λ ys. Enqueued s q ys np pk) (sym e)
      (enqueue_behind s q front t v np pk (subst (IsQueue s q) e is) full ne fresh)

-- A node of the queue does not know what stands before it.
forget_prev :
    {h : Ptr → Option QueueNode} {prev' prev p : Ptr} {xs : Cells}
    → Seg cell h null prev p xs
    → Seg cell h null prev' p xs
forget_prev nil = nil
forget_prev (cons ne e out s) = cons ne e out s

-- The tail after the first node `a` is gone.
tail_behind :
    (h : Ptr → Option QueueNode) (prev p a tail : Ptr) (xs : Cells)
    → Seg cell h null prev p xs
    → tail ≡ last_addr a xs
    → (if p == null then null else tail) ≡ last_addr null xs
tail_behind h prev p a tail [] s e = let e' : p ≡ null = eq_of_nil cell s in ground (arith, e')
tail_behind h prev p a tail (x ∷ xs) s e =
    let ne : p ≢ null = (uncons cell s).ne_null in rw (ne→== _ _ ne) e

-- `dequeue` returns the oldest packet, frees its node and leaves the others.
pub dequeue-cons :
    (s : Store QueueNode) (q : GenericQueue) (a v : Ptr) (xs : Cells)
    → IsQueue s q ((a, v) ∷ xs)
    → (q' : GenericQueue) × (dequeue q s ≡ ok ((v, q'), put s a none))
      × IsQueue (put s a none) q' xs
unfolding dequeue
dequeue-cons s q a v xs is =
    let f = uncons cell is.chain in
    (
      queue f.next (if f.next == null then null else q.tail),
      rw (ne→== _ _ f.ne_null, load-ok s f.holds f.ne_null, free-ok s f.holds f.ne_null, f.same),
      record {
        chain =
            frame-update cell a none (forget_prev f.rest)
              (subst (λ b. has b xs ≡ false) f.same f.out);
        tail = tail_behind s.cells q.head f.next a q.tail xs f.rest is.tail;
      },
    )

-- On an empty queue `dequeue` returns NULL and changes nothing.
pub dequeue-nil :
    (s : Store QueueNode) (q : GenericQueue) → IsQueue s q [] → dequeue q s ≡ ok ((null, q), s)
unfolding dequeue
dequeue-nil s q is = let e : q.head ≡ null = eq_of_nil cell is.chain in ground (arith, e)

gone_cells :
    (h : Ptr → Option QueueNode) (a v b : Ptr) (xs : Cells)
    → (if has b xs then none else update h a none b) ≡ (if has b ((a, v) ∷ xs) then none else h b)
unfolding update
gone_cells h a v b xs = ground arith

-- The loop of `destroy_queue` with fuel for one round more than there are packets.
destroy_loop-all :
    (fuel : ℕ) (xs : Cells) (s : Store QueueNode) (q : GenericQueue)
    → IsQueue s q xs
    → length xs < fuel
    → (q' : GenericQueue) × (s' : Store QueueNode) × (destroy_loop fuel q s ≡ ok (q', s'))
      × IsQueue s' q' []
      × (s'.destroyed ≡ s.destroyed ++ data_of xs)
      × ((a : Ptr) → s'.cells a ≡ (if has a xs then none else s.cells a))
unfolding destroy_loop empty dtor
destroy_loop-all zero xs s q is h = absurd (omega arith)
destroy_loop-all (suc fuel) [] s q is h =
    let e : q.head ≡ null = eq_of_nil cell is.chain in
    (q, s, rw (eq→== _ _ e), is, sym (append-nil s.destroyed), λ a. refl)
destroy_loop-all (suc fuel) ((a, v) ∷ xs) s q is h =
    let full : q.head ≢ null = (uncons cell is.chain).ne_null in
    let (q1, run, is1) = dequeue-cons s q a v xs is in
    let s1 = record (put s a none) { destroyed = s.destroyed ++ v ∷ [] } in
    let is1' : IsQueue s1 q1 xs = record { chain = is1.chain; tail = is1.tail } in
    let (q', s', run', is', gone, cells) = destroy_loop-all fuel xs s1 q1 is1' (omega arith) in
    (
      q',
      s',
      rw (ne→== _ _ full, run) run',
      is',
      gone ∙ append_assoc s.destroyed (v ∷ []) (data_of xs),
      λ b. cells b ∙ gone_cells s.cells a v b xs,
    )

-- `destroy_queue` hands every packet, the oldest first, to `destroy_packet`, frees every node and no
-- other, and leaves the queue empty; fuel for one round more than there are packets is enough.
pub destroy_queue-all :
    (fuel : ℕ) (xs : Cells) (s : Store QueueNode) (q : GenericQueue)
    → IsQueue s q xs
    → length xs < fuel
    → (q' : GenericQueue) × (s' : Store QueueNode) × (destroy_queue fuel q s ≡ ok (q', s'))
      × IsQueue s' q' []
      × (s'.destroyed ≡ s.destroyed ++ data_of xs)
      × ((a : Ptr) → s'.cells a ≡ (if has a xs then none else s.cells a))
unfolding destroy_queue
destroy_queue-all = destroy_loop-all
