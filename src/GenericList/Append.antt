-- ===== src/GenericList/Append.antt =====
-- The insertion of a node that is there already, in libs/generic_linked_list.c.
use mathlib.Core.Path.{subst}
use concurrent_server.Base.{
  ℕ, ◌≡◌, ◌≢◌, refl, ap, ◌∙◌, sym, false, Option, none, some, [], ◌∷◌, ◌++◌, ok, length-append,
  arith, snoc_view, ne→==, pos, inc,
}
use concurrent_server.Heap.{Ptr, null, Store, modify-ok, put, update, update_self, update_ne}
use concurrent_server.Heap.Seg.{
  Cells, has, has-append, last_addr, Seg, nil, cons, uncons, eq_of_nil, last_addr-append, frame,
  frame-update, last-ne-new, last_holds, last-ne-null, link_behind,
}
use concurrent_server.GenericList.{ListNode, GenericList, append_list_node}
use concurrent_server.GenericList.Push.{cell, IsLinked}

-- The run on a list that is not empty.
append_run :
    (s : Store ListNode) (l : GenericList) (node : Ptr) (d v prev : ℕ)
    → l.head ≢ null
    → node ≢ null
    → l.tail ≢ null
    → l.tail ≢ node
    → s.cells node ≡ some (cell null null d)
    → s.cells l.tail ≡ some (cell prev null v)
    → append_list_node l node s
      ≡ ok (
        (pos 0, record l { tail = node; list_len = inc l.list_len }),
        put (put s l.tail (some (cell prev node v))) node (some (cell l.tail null d)),
      )
unfolding append_list_node
append_run s l node d v prev full ne ne' apart here there = ground (
  arith,
  ne→== _ _ ne,
  ne→== _ _ full,
  modify-ok s there ne' (λ k. record k { next = node }),
  modify-ok (put s l.tail (some (cell prev node v)))
      (update_ne s.cells l.tail (some (cell prev node v)) node (λ e. apart (sym e)) ∙ here) ne
      (λ k. record k { prev = l.tail }),
)

-- Two writes at different addresses, in the other order, over a node that was there.
swapped :
    {N : Type 0} (h : Ptr → Option N) (t node : Ptr) (c e : Option N)
    → t ≢ node
    → (a : Ptr) → update (update h t c) node e a ≡ update (update (update h node none) node e) t c a
unfolding update
swapped h t node c e ne a = ground (arith, ne)

-- What the insertion of `node` gives: the result 0, one more node in the list, and what is neither the
-- node nor in the list is left alone.
abbrev pub Appended : Ptr → Store ListNode → GenericList → Cells → Ptr → ℕ → Type 0
Appended before s l xs node d =
    (l' : GenericList) × (s' : Store ListNode) × (append_list_node l node s ≡ ok ((pos 0, l'), s'))
    × IsLinked before s' l' (xs ++ (node, d) ∷ [])
    × ((c : Ptr) → c ≢ node → has c xs ≡ false → s'.cells c ≡ s.cells c)
    × (s'.destroyed ≡ s.destroyed)

append_behind :
    (before : Ptr) (s : Store ListNode) (l : GenericList) (xs : Cells) (t : Ptr) (v node d : ℕ)
    → IsLinked before s l (xs ++ (t, v) ∷ [])
    → l.head ≢ null
    → node ≢ null
    → has node (xs ++ (t, v) ∷ []) ≡ false
    → s.cells node ≡ some (cell null null d)
    → Appended before s l (xs ++ (t, v) ∷ []) node d
append_behind before s l xs t v node d is full ne out here =
    let at_tail : t ≡ l.tail = sym (is.tail ∙ last_addr-append null xs t v) in
    let h0 = update s.cells node none in
    let chain0 : Seg cell h0 null before l.head (xs ++ (t, v) ∷ []) =
      frame-update cell node none is.chain out in
    let apart : t ≢ node =
      last-ne-new cell h0 xs t v chain0 node ne (update_self s.cells node none) in
    let c : ListNode = cell (last_addr before xs) node v in
    let e : ListNode = cell t null d in
    (
      record l { tail = node; list_len = inc l.list_len },
      put (put s t (some c)) node (some e),
      subst
          (λ a.
            append_list_node l node s
            ≡ ok (
              (pos 0, record l { tail = node; list_len = inc l.list_len }),
              put (put s a (some c)) node (some (cell a null d)),
            ))
          (sym at_tail)
          (append_run s l node d v (last_addr before xs) full ne
            (λ q. last-ne-null cell s.cells xs t v is.chain (at_tail ∙ q))
            (λ q. apart (at_tail ∙ q)) here
            (ap s.cells (sym at_tail) ∙ last_holds cell s.cells xs t v is.chain)),
      record {
        chain =
            frame cell (link_behind cell h0 xs t v chain0 node ne (update_self s.cells node none) d)
              (λ a _. swapped s.cells t node (some c) (some e) apart a);
        tail = sym (last_addr-append null (xs ++ (t, v) ∷ []) node d);
        list_len =
            ap inc is.list_len
            ∙ ap pos (omega (arith, length-append {0} (xs ++ (t, v) ∷ []) ((node, d) ∷ [])));
      },
      λ a away off.
          update_ne (update s.cells t (some c)) node (some e) a away
          ∙ update_ne s.cells t (some c) a
              (λ q. ground (arith, q, off, has-append a xs ((t, v) ∷ []))),
      refl,
    )

-- `append_list_node` puts a node behind the others that is in memory, with no links, and not in the
-- list; nothing else in memory changes but the last node's link.
pub append_list_node-append :
    (before : Ptr) (s : Store ListNode) (l : GenericList) (xs : Cells) (node : Ptr) (d : ℕ)
    → IsLinked before s l xs
    → (xs ≡ [] → before ≡ null)
    → node ≢ null
    → has node xs ≡ false
    → s.cells node ≡ some (cell null null d)
    → Appended before s l xs node d
unfolding append_list_node
append_list_node-append before s l [] node d is first ne out here =
    let e : l.head ≡ null = eq_of_nil cell is.chain in
    (
      record l { head = node; tail = node; list_len = inc l.list_len },
      s,
      ground (arith, e, ne→== _ _ ne),
      record {
        chain = cons ne (here ∙ ap (λ b. some (cell b null d)) (sym (first refl))) refl nil;
        tail = refl;
        list_len = ap inc is.list_len;
      },
      λ c away off. refl,
      refl,
    )
append_list_node-append before s l ((a, w) ∷ xs) node d is first ne out here =
    let (front, (t, v), e) = snoc_view (a, w) xs in
    let full : l.head ≢ null = (uncons cell is.chain).ne_null in
    subst (λ ys. Appended before s l ys node d) (sym e)
      (append_behind before s l front t v node d (subst (IsLinked before s l) e is) full ne
        (subst (λ ys. has node ys ≡ false) e out) here)
