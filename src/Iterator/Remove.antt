-- ===== src/Iterator/Remove.antt =====
-- `remove_iterator` of libs/iterator.c takes a node out of the ring.
use mathlib.Core.Path.{subst}
use concurrent_server.Base.{
  ℕ, suc, ◌+◌, ◌<◌, ◌≤◌, ◌^◌, ◌≡◌, ◌≢◌, refl, ap, ◌∙◌, sym, false, ◌||◌, none, some, [], ◌∷◌, ◌++◌,
  ok, fault, length, length-append, append-nil, snoc_view, arith, ne→==, eq→==, ◌==◌, if◌then◌else◌,
  Option,
}
use concurrent_server.Base.State.{◌>>=◌}
use concurrent_server.Heap.{
  Ptr, null, Store, load, load-ok, modify-ok, free-ok, put, update, update_self, update_ne,
}
use concurrent_server.Heap.Seg.{
  Cells, has, has-append, last_addr, last_addr-append, Seg, nil, cons, uncons, unsnoc, snoc, frame,
  frame-update,
}
use concurrent_server.Heap.Split.{join}
use concurrent_server.Heap.Inside.{inside, last_addr-behind, last_is_node}
use concurrent_server.Iterator.{IterNode, Iterators, one_less, remove_iterator, move_forward}
use concurrent_server.Iterator.Ring.{iter, IsRing}
use concurrent_server.Iterator.Find.{find_prev-before}

-- What the removal of the node `a` gives: its block, and a ring of the others in their order; the node
-- is freed, and the current nodes of the walks are as before.
abbrev pub Removed : ℕ → Store IterNode → Iterators → Ptr → ℕ → Cells → Type 0
Removed fuel s r a v xs =
    (r' : Iterators) × (s' : Store IterNode) × (remove_iterator fuel r a s ≡ ok ((v, r'), s'))
    × IsRing s' r' xs
    × (s'.cells a ≡ none)
    × (r'.forward_curr ≡ r.forward_curr)

-- A ring does not look at the nodes before.
backwards :
    (h : Ptr → Option IterNode) (stop prev prev' p : Ptr) (xs : Cells)
    → Seg iter h stop prev p xs
    → Seg iter h stop prev' p xs
backwards h stop prev prev' p [] nil = nil
backwards h stop prev prev' p ((a, v) ∷ xs) (cons ne e out s) = cons ne e out s

one_less-suc : (n : ℕ) → n + 1 < 2 ^ 32 → one_less (n + 1) ≡ n
one_less-suc n short = omega (arith, short)

remove_head :
    (fuel : ℕ) (s : Store IterNode) (r : Iterators) (a v : ℕ) (ps : Cells) (t u : ℕ)
    → IsRing s r ((a, v) ∷ (ps ++ (t, u) ∷ []))
    → length ps + 2 < 2 ^ 32
    → Removed fuel s r a v (ps ++ (t, u) ∷ [])
unfolding remove_iterator
remove_head fuel s r a v ps t u is short =
    let f = uncons iter is.chain in
    let k = unsnoc iter ps t u f.rest in
    let at_last : r.last ≡ t = is.last ∙ last_addr-append a ps t u in
    let outs : (has r.head ps || ((r.head == t) || false)) ≡ false =
      sym (has-append r.head ps ((t, u) ∷ [])) ∙ f.out in
    let apart : r.head ≢ t = ground (arith, outs) in
    let x = some (iter null f.next u) in
    let s1 = put s t x in
    let still : s1.cells r.head ≡ some (iter null f.next v) =
      update_ne s.cells t x r.head apart ∙ f.holds in
    let kept =
      frame-update iter r.head none (frame-update iter t x k.front k.out) (ground (arith, outs)) in
    subst (λ b. Removed fuel s r b v (ps ++ (t, u) ∷ [])) f.same
      (
        record r { list_len = one_less r.list_len; head = f.next },
        put s1 r.head none,
        rw (
          ne→== _ _ f.ne_null,
          eq→== r.head r.head refl,
          load-ok s f.holds f.ne_null,
          at_last,
          modify-ok s k.holds k.ne_null (λ m. record m { next = f.next }),
          load-ok s1 still f.ne_null,
          free-ok s1 still f.ne_null,
        ),
        record {
          chain = backwards _ f.next r.head null f.next (ps ++ (t, u) ∷ []) (
              snoc iter u kept k.ne_null
                (update_ne s1.cells r.head none t (λ e. apart (sym e)) ∙ update_self s.cells t x)
                k.out);
          last = at_last ∙ sym (last_addr-append r.last ps t u);
          list_len = omega (arith, short, is.list_len, length-append {0} ps ((t, u) ∷ []));
        },
        update_self s1.cells r.head none,
        refl,
      )

remove_only :
    (fuel : ℕ) (s : Store IterNode) (r : Iterators) (a v : ℕ)
    → IsRing s r ((a, v) ∷ [])
    → Removed fuel s r a v []
unfolding remove_iterator
remove_only fuel s r a v is =
    let f = uncons iter is.chain in
    let at_last : r.last ≡ r.head = is.last ∙ sym f.same in
    let s1 = put s r.head (some (iter null f.next v)) in
    let still : s1.cells r.head ≡ some (iter null f.next v) = update_self s.cells r.head _ in
    subst (λ b. Removed fuel s r b v []) f.same
      (
        record r { list_len = one_less r.list_len; head = f.next },
        put s1 r.head none,
        rw (
          ne→== _ _ f.ne_null,
          eq→== r.head r.head refl,
          load-ok s f.holds f.ne_null,
          at_last,
          modify-ok s f.holds f.ne_null (λ m. record m { next = f.next }),
          load-ok s1 still f.ne_null,
          free-ok s1 still f.ne_null,
        ),
        record { chain = nil; last = refl; list_len = omega (arith, is.list_len) },
        update_self s1.cells r.head none,
        refl,
      )

-- The last node after a removal from behind the node `p`.
new_last :
    (last : Ptr) (ps : Cells) (p u a v : ℕ) (post : Cells)
    → last ≡ last_addr last ((ps ++ (p, u) ∷ []) ++ (a, v) ∷ post)
    → has a post ≡ false
    → (q : Ptr) → (if a == last then p else last) ≡ last_addr q ((ps ++ (p, u) ∷ []) ++ post)
new_last last ps p u a v [] is out q =
    let at_a : last ≡ a = is ∙ last_addr-append last (ps ++ (p, u) ∷ []) a v in
    rw (eq→== a last (sym at_a), append-nil) (sym (last_addr-append q ps p u))
new_last last ps p u a v ((b, w) ∷ zs) is out q =
    let at_end : last ≡ last_addr b zs =
      is ∙ last_addr-behind last (ps ++ (p, u) ∷ []) a v ((b, w) ∷ zs) in
    let other : a ≢ last = λ e. ground (arith, e, at_end, last_is_node b w zs, out) in
    rw (ne→== a last other) (at_end ∙ sym (last_addr-behind q (ps ++ (p, u) ∷ []) b w zs))

remove_inner :
    (fuel : ℕ) (s : Store IterNode) (r : Iterators) (ps : Cells) (p u a v : ℕ) (post : Cells)
    → IsRing s r ((ps ++ (p, u) ∷ []) ++ (a, v) ∷ post)
    → length ((ps ++ (p, u) ∷ []) ++ (a, v) ∷ post) ≤ fuel
    → length ((ps ++ (p, u) ∷ []) ++ (a, v) ∷ post) < 2 ^ 32
    → Removed fuel s r a v ((ps ++ (p, u) ∷ []) ++ post)
unfolding remove_iterator
remove_inner fuel s r ps p u a v post is enough short =
    let pre = ps ++ (p, u) ∷ [] in
    let k = inside iter s.cells r.head null r.head ps p u a v post is.chain in
    let x = some (iter null k.next u) in
    let s1 = put s p x in
    let still : s1.cells a ≡ some (iter p k.next v) = update_ne s.cells p x a k.a_p ∙ k.at_a in
    let h = update s1.cells a none in
    let same : (c : Ptr) → c ≢ a → c ≢ p → h c ≡ s.cells c =
      λ c ca cp. update_ne s1.cells a none c ca ∙ update_ne s.cells p x c cp in
    (
      record r { last = if a == r.last then p else r.last; list_len = one_less r.list_len },
      put s1 a none,
      rw (
        ne→== _ _ k.a_ne,
        ne→== _ _ k.a_start,
        find_prev-before s r ps p u a v post fuel is enough,
        load-ok s k.at_a k.a_ne,
        modify-ok s k.at_p k.p_ne (λ m. record m { next = k.next }),
        load-ok s1 still k.a_ne,
        free-ok s1 still k.a_ne,
      ),
      record {
        chain =
            join iter post
              (k.front h k.next
                (update_ne s1.cells a none p (λ e. k.a_p (sym e)) ∙ update_self s.cells p x)
                (λ c ca cp _. same c ca cp))
              (backwards h r.head a (last_addr null pre) k.next post (
                frame iter k.back (λ c i.
                  same c (λ e. ground (arith, e, i, k.a_out))
                    (λ e. ground (arith, e, i, k.p_out)))))
              (λ c i. ground (arith, k.apart c i));
        last = new_last r.last ps p u a v post is.last k.a_out _;
        list_len = omega (
          arith,
          short,
          is.list_len,
          length-append {0} pre ((a, v) ∷ post),
          length-append {0} pre post,
        );
      },
      update_self s1.cells a none,
      refl,
    )

-- `remove_iterator` on any node of a ring of fewer than 2 ^ 32 nodes: it returns the node's block, frees
-- the node and leaves a ring of the others in their order. The loop that looks for the node before
-- ends, with fuel for one round per node.
pub remove_iterator-erase :
    (fuel : ℕ) (s : Store IterNode) (r : Iterators) (xs : Cells) (a v : ℕ) (ys : Cells)
    → IsRing s r (xs ++ (a, v) ∷ ys)
    → length (xs ++ (a, v) ∷ ys) ≤ fuel
    → length (xs ++ (a, v) ∷ ys) < 2 ^ 32
    → Removed fuel s r a v (xs ++ ys)
remove_iterator-erase fuel s r [] a v [] is enough short = remove_only fuel s r a v is
remove_iterator-erase fuel s r [] a v (y ∷ ys) is enough short =
    let (front, (t, u), e) = snoc_view y ys in
    let count : suc (length ys) ≡ length (front ++ (t, u) ∷ []) = ap length e in
    subst (Removed fuel s r a v) (sym e) (
      remove_head fuel s r a v front t u (subst (λ zs. IsRing s r ((a, v) ∷ zs)) e is)
        (omega (arith, count, short, length-append {0} front ((t, u) ∷ []))))
remove_iterator-erase fuel s r (x ∷ xs) a v ys is enough short =
    let (front, (p, u), e) = snoc_view x xs in
    subst (λ zs. Removed fuel s r a v (zs ++ ys)) (sym e)
      (remove_inner fuel s r front p u a v ys (subst (λ zs. IsRing s r (zs ++ (a, v) ∷ ys)) e is)
        (subst (λ zs. length (zs ++ (a, v) ∷ ys) ≤ fuel) e enough)
        (subst (λ zs. length (zs ++ (a, v) ∷ ys) < 2 ^ 32) e short))

-- When the node on which a forward walk stands is removed from a ring of fewer than 2 ^ 32 nodes, the
-- next move reads freed memory; fuel for one round per node is enough for the removal.
pub remove_iterator-stale :
    (fuel : ℕ) (s : Store IterNode) (r : Iterators) (xs : Cells) (a v : ℕ) (ys : Cells)
    → IsRing s r (xs ++ (a, v) ∷ ys)
    → length (xs ++ (a, v) ∷ ys) ≤ fuel
    → length (xs ++ (a, v) ∷ ys) < 2 ^ 32
    → r.forward_curr ≡ a
    → a ≢ null
    → (remove_iterator fuel r a >>= λ q. move_forward q.1) s ≡ fault
unfolding move_forward load
remove_iterator-stale fuel s r xs a v ys is enough short at ne =
    let (r', s', run, _, gone, same) = remove_iterator-erase fuel s r xs a v ys is enough short in
    let now : r'.forward_curr ≡ a = same ∙ at in ground (arith, run, now, gone, ne)
