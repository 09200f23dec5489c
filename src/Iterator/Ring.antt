-- ===== src/Iterator/Ring.antt =====
-- The nodes of libs/iterator.c are a ring, which `link_iterator` makes longer.
use mathlib.Core.Path.{subst}
use concurrent_server.Base.{
  ℕ, suc, ◌+◌, ◌<◌, ◌%◌, ◌^◌, ◌≡◌, ◌≢◌, refl, ap, ◌∙◌, sym, false, ◌||◌, some, [], ◌∷◌, ◌++◌, ok,
  length, length-append, arith, snoc_view, ◌==◌,
}
use concurrent_server.Heap.{Ptr, null, Store, modify-ok, put, update_self, update_ne}
use concurrent_server.Heap.Seg.{
  Cells, has, has-append, last_addr, Seg, nil, cons, unsnoc, snoc, last_addr-append, frame-update,
}
use concurrent_server.Iterator.{IterNode, not_busy, Iterators, link_iterator}

-- A node of the ring; nothing ever sets `prev`.
abbrev pub iter : Ptr → Ptr → ℕ → IterNode
iter prev next v = record { info_block = v; flag = not_busy; next = next; prev = null }

-- The nodes are `xs` from the head to the last, which leads back to the head.
pub record IsRing (s : Store IterNode) (r : Iterators) (xs : Cells) : Type 0 where
  pub chain : Seg iter s.cells r.head null r.head xs
  pub last : r.last ≡ last_addr r.last xs
  pub list_len : r.list_len ≡ length xs

-- A node that was created and linked.
abbrev pub Linked : Store IterNode → Iterators → Cells → Ptr → ℕ → Type 0
Linked s r xs node v =
    (r' : Iterators) × (s' : Store IterNode) × (link_iterator r node s ≡ ok (r', s'))
    × IsRing s' r' (xs ++ (node, v) ∷ [])

link_first :
    (s : Store IterNode) (r : Iterators) (node v : ℕ)
    → IsRing s r []
    → node ≢ null
    → s.cells node ≡ some (iter null null v)
    → Linked s r [] node v
unfolding link_iterator
link_first s r node v is ne here = (
  record { list_len = 1; head = node; last = node; forward_curr = node; backward_curr = node },
  put s node (some (iter null node v)),
  rw (is.list_len, modify-ok s here ne (λ n. record n { next = node })),
  record { chain = cons ne (update_self s.cells node _) refl nil; last = refl; list_len = refl },
)

link_behind :
    (s : Store IterNode) (r : Iterators) (xs : Cells) (t u node v : ℕ)
    → IsRing s r (xs ++ (t, u) ∷ [])
    → node ≢ null
    → has node (xs ++ (t, u) ∷ []) ≡ false
    → s.cells node ≡ some (iter null null v)
    → length xs + 2 < 2 ^ 32
    → Linked s r (xs ++ (t, u) ∷ []) node v
unfolding link_iterator
link_behind s r xs t u node v is ne out here short =
    let k = unsnoc iter xs t u is.chain in
    let at_last : r.last ≡ t = is.last ∙ last_addr-append r.last xs t u in
    let full : (r.list_len == 0) ≡ false =
      ground (arith, is.list_len, length-append {0} xs ((t, u) ∷ [])) in
    let outs : (has node xs || ((node == t) || false)) ≡ false =
      sym (has-append node xs ((t, u) ∷ [])) ∙ out in
    let apart : node ≢ t = ground (arith, outs) in
    let x = some (iter null node u) in
    let y = some (iter null r.head v) in
    let s1 = put s t x in
    let kept =
      frame-update iter node y (frame-update iter t x k.front k.out) (ground (arith, outs)) in
    (
      record r { last = node; list_len = (r.list_len + 1) % 2 ^ 32 },
      put s1 node y,
      rw (
        full,
        at_last,
        modify-ok s k.holds k.ne_null (λ n. record n { next = node }),
        modify-ok s1 (update_ne s.cells t x node apart ∙ here) ne (λ n. record n { next = r.head }),
      ),
      record {
        chain =
            snoc iter v
              (snoc iter u kept k.ne_null
                (update_ne s1.cells node y t (λ e. apart (sym e)) ∙ update_self s.cells t x) k.out)
              ne (update_self s1.cells node y) out;
        last = sym (last_addr-append node (xs ++ (t, u) ∷ []) node v);
        list_len = omega (
          arith,
          is.list_len,
          short,
          length-append {0} xs ((t, u) ∷ []),
          length-append {0} (xs ++ (t, u) ∷ []) ((node, v) ∷ []),
        );
      },
    )

-- `link_iterator` puts a node that was created, and is not in the ring, behind the last one: the ring,
-- of fewer than 2 ^ 32 nodes with the new one, has one more node, and the last one leads to the head
-- again.
pub link_iterator-append :
    (s : Store IterNode) (r : Iterators) (xs : Cells) (node v : ℕ)
    → IsRing s r xs
    → node ≢ null
    → has node xs ≡ false
    → s.cells node ≡ some (iter null null v)
    → length xs + 1 < 2 ^ 32
    → Linked s r xs node v
link_iterator-append s r [] node v is ne out here short = link_first s r node v is ne here
link_iterator-append s r (x ∷ xs) node v is ne out here short =
    let (front, (t, u), e) = snoc_view x xs in
    let count : suc (length xs) ≡ length (front ++ (t, u) ∷ []) = ap length e in
    subst (λ ys. Linked s r ys node v) (sym e)
      (link_behind s r front t u node v (subst (IsRing s r) e is) ne
        (subst (λ ys. has node ys ≡ false) e out) here
        (omega (arith, count, short, length-append {0} front ((t, u) ∷ []))))
