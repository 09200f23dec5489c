-- ===== src/Examples/Rings.antt =====
-- The ring of libs/iterator.c with two blocks, 70 and 80, in the nodes at 1 and 2.
use concurrent_server.Base.{◌≡◌, refl, none, some, [], ◌∷◌, fault, arith}
use concurrent_server.Base.State.{◌>>=◌}
use concurrent_server.Heap.{Store, update}
use concurrent_server.Heap.Seg.{Cells, nil, cons}
use concurrent_server.Iterator.{IterNode, Iterators, remove_iterator, move_forward}
use concurrent_server.Iterator.Ring.{iter, IsRing, Linked, link_iterator-append}
use concurrent_server.Iterator.Remove.{Removed, remove_iterator-erase, remove_iterator-stale}

-- The node at 3 was created and is not linked yet.
abbrev ring_memory : Store IterNode
ring_memory = record {
  cells =
      update (update (update (λ a. none) 3 (some (iter 0 0 90))) 2 (some (iter 1 1 80))) 1
        (some (iter 0 2 70));
  destroyed = [];
}

abbrev ring : Iterators
ring = record { list_len = 2; head = 1; last = 2; forward_curr = 1; backward_curr = 1 }

abbrev two_blocks : Cells
two_blocks = (1, 70) ∷ (2, 80) ∷ []

ring-IsRing : IsRing ring_memory ring two_blocks
unfolding update
ring-IsRing = record {
  chain = cons (omega arith) refl refl (cons (omega arith) refl refl nil);
  last = refl;
  list_len = refl;
}

created : ring_memory.cells 3 ≡ some (iter 0 0 90)
unfolding update
created = refl

link_iterator-append_example : Linked ring_memory ring two_blocks 3 90
link_iterator-append_example =
    link_iterator-append ring_memory ring two_blocks 3 90 ring-IsRing (omega arith) refl created
      (omega arith)

remove_iterator-erase_example : Removed 2 ring_memory ring 2 80 ((1, 70) ∷ [])
remove_iterator-erase_example =
    remove_iterator-erase 2 ring_memory ring ((1, 70) ∷ []) 2 80 [] ring-IsRing (omega arith)
      (omega arith)

remove_iterator-stale_example :
    (remove_iterator 2 ring 1 >>= λ q. move_forward q.1) ring_memory ≡ fault
remove_iterator-stale_example =
    remove_iterator-stale 2 ring_memory ring [] 1 70 ((2, 80) ∷ []) ring-IsRing (omega arith)
      (omega arith) refl (omega arith)
