-- ===== src/GenericList/Destroy.antt =====
-- The destruction of nodes and of the whole list of libs/generic_linked_list.c.
use mathlib.Core.Path.{subst}
use concurrent_server.Base.{
  ℕ, zero, suc, ◌<◌, ◌≡◌, ◌≢◌, refl, ap, ◌∙◌, sym, true, false, none, some, [], ◌∷◌, ◌++◌, ok,
  fault, length, arith, ne→==, eq→==, pos, dec, eqb, append_assoc, append-nil,
}
use concurrent_server.Heap.{
  Ptr, null, Store, load-ok, load, modify, dtor, free-ok, put, update, update_self, update_ne,
}
use concurrent_server.Heap.Seg.{Cells, data_of, uncons, eq_of_nil, unsnoc}
use concurrent_server.GenericList.{
  ListNode, GenericList, destroy_list_loop, destroy_generic_list, destroy_list_node, destroy_node,
  generic_list_insert_next_to,
}
use concurrent_server.GenericList.Pop.{list_popfront-cons}
use concurrent_server.GenericList.Push.{cell, IsList}

abbrev IsDestroyed : Store ListNode → Cells → GenericList → Store ListNode → Type 0
IsDestroyed s xs l' s' = IsList s' l' [] × (s'.destroyed ≡ s.destroyed ++ data_of xs)

destroy_list_loop-all :
    (fuel : ℕ) (xs : Cells) (s : Store ListNode) (l : GenericList)
    → IsList s l xs
    → length xs < fuel
    → (l' : GenericList) × (s' : Store ListNode) × (destroy_list_loop fuel l s ≡ ok (l', s'))
      × IsDestroyed s xs l' s'
unfolding destroy_list_loop dtor
destroy_list_loop-all zero xs s l is h = absurd (omega arith)
destroy_list_loop-all (suc fuel) [] s l is h =
    let stop : eqb l.list_len (pos 0) ≡ true = ap (λ z. eqb z (pos 0)) is.list_len in
    (l, s, rw stop, (is, sym (append-nil s.destroyed)))
destroy_list_loop-all (suc fuel) ((a, v) ∷ xs) s l is h =
    let more : eqb l.list_len (pos 0) ≡ false = ground (arith, is.list_len) in
    let (l1, s1, run, is1, _, same) = list_popfront-cons s l a v xs is in
    let s2 : Store ListNode = record s1 { destroyed = s1.destroyed ++ v ∷ [] } in
    let is2 : IsList s2 l1 xs = record {
      chain = is1.chain;
      tail = is1.tail;
      list_len = is1.list_len;
    } in
    let (l', s', run', (is', gone)) = destroy_list_loop-all fuel xs s2 l1 is2 (omega arith) in
    (
      l',
      s',
      rw (more, run) run',
      (
        is',
        gone
            ∙ ap (λ d. (d ++ v ∷ []) ++ data_of xs) same
            ∙ append_assoc s.destroyed (v ∷ []) (data_of xs),
      ),
    )

-- `destroy_generic_list` hands every datum to the destructor, from the head to the tail, and leaves an
-- empty list; fuel for one round more than there are nodes is enough.
pub destroy_generic_list-all :
    (fuel : ℕ) (xs : Cells) (s : Store ListNode) (l : GenericList)
    → IsList s l xs
    → length xs < fuel
    → (l' : GenericList) × (s' : Store ListNode) × (destroy_generic_list fuel (some l) s
        ≡ ok (some l', s'))
      × IsList s' l' []
      × (s'.destroyed ≡ s.destroyed ++ data_of xs)
unfolding destroy_generic_list
destroy_generic_list-all fuel [] s l is h =
    let e : l.head ≡ null = eq_of_nil cell is.chain in
    (l, s, rw (eq→== _ _ e), is, sym (append-nil s.destroyed))
destroy_generic_list-all fuel ((a, v) ∷ xs) s l is h =
    let full : l.head ≢ null = (uncons cell is.chain).ne_null in
    let (l', s', run, (is', gone)) = destroy_list_loop-all fuel ((a, v) ∷ xs) s l is h in
    (l', s', rw (ne→== _ _ full, run), is', gone)

-- `destroy_list_node` on the head of a longer list frees the node and makes the next one the head, but
-- the new head still points back to the freed node.
destroy_list_node-head :
    (s : Store ListNode) (l : GenericList) (a v b w : ℕ) (xs : Cells)
    → IsList s l ((a, v) ∷ (b, w) ∷ xs)
    → v ≢ 0
    → (next : Ptr) × (s' : Store ListNode) × (destroy_list_node l l.head s
        ≡ ok (record l { head = b; list_len = dec l.list_len }, s'))
      × (s'.cells a ≡ none)
      × (s'.cells b ≡ some (cell a next w))
      × (s'.destroyed ≡ s.destroyed ++ v ∷ [])
unfolding destroy_list_node destroy_node dtor
destroy_list_node-head s l a v b w xs is ne =
    let f = uncons cell is.chain in
    let g = uncons cell f.rest in
    let apart : f.next ≢ l.head = λ e. cc (e, f.out, g.same, eq→== b b refl) in
    let s1 : Store ListNode = record s { destroyed = s.destroyed ++ v ∷ [] } in
    (
      g.next,
      put s1 l.head none,
      ground (
        arith,
        load-ok s f.holds f.ne_null,
        eq→== l.head l.head refl,
        ne→== _ _ f.ne_null,
        ne→== _ _ ne,
        ne→== _ _ g.ne_null,
        g.same,
        free-ok s1 f.holds f.ne_null,
      ),
      subst (λ x. update s.cells l.head none x ≡ none) f.same (update_self s.cells l.head none),
      ap (update s.cells l.head none) (sym g.same)
          ∙ update_ne s.cells l.head none f.next apart
          ∙ g.holds
          ∙ ap (λ x. some (cell x g.next w)) f.same,
      refl,
    )

-- An insertion next to the last node follows its null pointer.
insert_next_to-tail :
    (s : Store ListNode) (l : GenericList) (np d : ℕ) (xs : Cells) (t v : ℕ)
    → IsList s l (xs ++ (t, v) ∷ [])
    → d ≢ 0
    → np ≢ null
    → generic_list_insert_next_to np l d t s ≡ fault
unfolding generic_list_insert_next_to modify load
insert_next_to-tail s l np d xs t v is ne ne' =
    let k = unsnoc cell xs t v is.chain in
    ground (arith, ne→== _ _ ne, ne→== _ _ ne', ne→== _ _ k.ne_null, load-ok s k.holds k.ne_null)
