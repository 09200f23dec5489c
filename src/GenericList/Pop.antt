-- ===== src/GenericList/Pop.antt =====
-- The removals at the two ends of the list of libs/generic_linked_list.c, and its destruction.
use mathlib.Core.Path.{subst}
use concurrent_server.Base.{
  ℕ, ◌≡◌, ◌≢◌, refl, ap, ◌∙◌, sym, false, ◌||◌, Option, none, some, [], ◌∷◌, ◌++◌, ok, length-snoc,
  arith, ◌==◌, snoc_view, ne→==, pos, dec, Outcome, eq→==,
}
use concurrent_server.Heap.{
  Ptr, null, Store, load-ok, modify-ok, free-ok, put, update, update_self, update_ne,
}
use concurrent_server.Heap.Seg.{
  Cells, has, has-append, last_addr, Seg, nil, frame-update, uncons, unsnoc, snoc, eq_of_nil,
  last_addr-append, reprev,
}
use concurrent_server.GenericList.{ListNode, GenericList, list_popfront, list_popback}
use concurrent_server.GenericList.Push.{cell, IsLinked, IsList}

-- The memory after a removal of the node `a`: the node is freed, and the neighbour `b` is changed.
abbrev after : Store ListNode → Ptr → Ptr → Option ListNode → Store ListNode
after s a b c = put (put s b c) a none

-- What a removal gives: the datum, and the nodes `xs` are left.
abbrev pub Popped :
    Store ListNode → ℕ → Ptr → Cells → Outcome ((ℕ × GenericList) × Store ListNode) → Type 0
Popped s v a xs run =
    (l' : GenericList) × (s' : Store ListNode) × (run ≡ ok ((v, l'), s'))
    × IsList s' l' xs
    × (s'.cells a ≡ none)
    × (s'.destroyed ≡ s.destroyed)

-- The one node of a list, removed.
only_one :
    {before : Ptr} (s : Store ListNode) (l : GenericList) (a v : ℕ)
    → IsLinked before s l ((a, v) ∷ [])
    → IsList
        (put s l.head none)
        (record l { head = null; tail = null; list_len = dec l.list_len })
        []
only_one s l a v is = record { chain = nil; tail = refl; list_len = ap dec is.list_len }

-- `list_popfront` returns the first datum, frees its node and leaves the others; where the first node
-- points back to is reset.
pub list_popfront-cons :
    {before : Ptr} (s : Store ListNode) (l : GenericList) (a v : ℕ) (xs : Cells)
    → IsLinked before s l ((a, v) ∷ xs)
    → Popped s v a xs (list_popfront l s)
unfolding list_popfront
list_popfront-cons {before} s l a v [] is =
    let f = uncons cell is.chain in
    let end : f.next ≡ null = eq_of_nil cell f.rest in
    (
      record l { head = null; tail = null; list_len = dec l.list_len },
      put s l.head none,
      ground (
        arith,
        ne→== _ _ f.ne_null,
        load-ok s f.holds f.ne_null,
        end,
        free-ok s f.holds f.ne_null,
      ),
      only_one s l a v is,
      subst (λ b. update s.cells l.head none b ≡ none) f.same (update_self s.cells l.head none),
      refl,
    )
list_popfront-cons {before} s l a v ((b, w) ∷ xs) is =
    let f = uncons cell is.chain in
    let g = uncons cell f.rest in
    let c = some (cell null g.next w) in
    let apart : l.head ≢ f.next = λ e. cc (e, f.out, g.same, eq→== b b refl) in
    let there : update s.cells f.next c l.head ≡ some (cell before f.next v) =
      update_ne s.cells f.next c l.head apart ∙ f.holds in
    (
      record l { head = f.next; list_len = dec l.list_len },
      put (put s f.next c) l.head none,
      ground (
        arith,
        ne→== _ _ f.ne_null,
        load-ok s f.holds f.ne_null,
        ne→== _ _ g.ne_null,
        modify-ok s g.holds g.ne_null (λ m. record m { prev = null }),
        free-ok (put s f.next c) there f.ne_null,
      ),
      record {
        chain = frame-update cell l.head none (reprev cell g null) f.out;
        tail = is.tail;
        list_len = ap dec is.list_len;
      },
      subst (λ x. update (update s.cells f.next c) l.head none x ≡ none) f.same
          (update_self (update s.cells f.next c) l.head none),
      refl,
    )

-- The last of at least two nodes, removed.
popback_behind :
    (s : Store ListNode) (l : GenericList) (xs : Cells) (u w t v : ℕ)
    → IsList s l ((xs ++ (u, w) ∷ []) ++ (t, v) ∷ [])
    → l.head ≢ null
    → Popped s v t (xs ++ (u, w) ∷ []) (list_popback l s)
unfolding list_popback
popback_behind s l xs u w t v is full =
    let ys = xs ++ (u, w) ∷ [] in
    let k = unsnoc cell ys t v is.chain in
    let j = unsnoc cell xs u w k.front in
    let at_tail : l.tail ≡ t = is.tail ∙ last_addr-append null ys t v in
    let before : last_addr null ys ≡ u = last_addr-append null xs u w in
    let last : s.cells l.tail ≡ some (cell u null v) =
      ap s.cells at_tail ∙ k.holds ∙ ap (λ a. some (cell a null v)) before in
    let c = some (cell (last_addr null xs) null w) in
    let outs : (has t xs || ((t == u) || false)) ≡ false =
      sym (has-append t xs ((u, w) ∷ [])) ∙ k.out in
    let apart : t ≢ u = ground (arith, outs) in
    let there : update s.cells u c l.tail ≡ some (cell u null v) =
      update_ne s.cells u c l.tail (λ e. apart (sym at_tail ∙ e)) ∙ last in
    let ne : l.tail ≢ null = λ e. k.ne_null (sym at_tail ∙ e) in
    let u_kept : update (update s.cells u c) t none u ≡ c =
      update_ne (update s.cells u c) t none u (λ e. apart (sym e)) ∙ update_self s.cells u c in
    (
      record l { tail = u; list_len = dec l.list_len },
      put (put s u c) l.tail none,
      ground (
        arith,
        ne→== _ _ full,
        load-ok s last ne,
        ne→== _ _ j.ne_null,
        modify-ok s j.holds j.ne_null (λ m. record m { next = null }),
        free-ok (put s u c) there ne,
      ),
      record {
        chain =
            subst (λ x. Seg cell (update (update s.cells u c) x none) null null l.head ys)
              (sym at_tail)
              (snoc cell w
                (frame-update cell t none (frame-update cell u c j.front j.out)
                  (ground (arith, outs)))
                j.ne_null u_kept j.out);
        tail = sym before;
        list_len = ap dec is.list_len ∙ ap (λ n. dec (pos n)) (length-snoc ys (t, v));
      },
      subst (λ x. update (update s.cells u c) l.tail none x ≡ none) at_tail
          (update_self (update s.cells u c) l.tail none),
      refl,
    )

-- `list_popback` returns the last datum, frees its node and leaves the others.
pub list_popback-snoc :
    (s : Store ListNode) (l : GenericList) (xs : Cells) (t v : ℕ)
    → IsList s l (xs ++ (t, v) ∷ [])
    → Popped s v t xs (list_popback l s)
unfolding list_popback
list_popback-snoc s l [] t v is =
    let f = uncons cell is.chain in
    let end : f.next ≡ null = eq_of_nil cell f.rest in
    let e : l.tail ≡ l.head = is.tail ∙ sym f.same in
    let there : s.cells l.tail ≡ some (cell null f.next v) = ap s.cells e ∙ f.holds in
    let ne : l.tail ≢ null = λ z. f.ne_null (sym e ∙ z) in
    (
      record l { head = null; tail = null; list_len = dec l.list_len },
      put s l.tail none,
      ground (arith, ne→== _ _ f.ne_null, load-ok s there ne, free-ok s there ne),
      record { chain = nil; tail = refl; list_len = ap dec is.list_len },
      subst (λ b. update s.cells l.tail none b ≡ none) is.tail (update_self s.cells l.tail none),
      refl,
    )
list_popback-snoc s l ((a, w) ∷ xs) t v is =
    let (front, (u, z), e) = snoc_view (a, w) xs in
    let full : l.head ≢ null = (uncons cell is.chain).ne_null in
    subst (λ ys. Popped s v t ys (list_popback l s)) (sym e)
      (popback_behind s l front u z t v (subst (λ ys. IsList s l (ys ++ (t, v) ∷ [])) e is) full)

-- On an empty list both removals return NULL and change nothing.
pub pop-nil :
    (s : Store ListNode) (l : GenericList)
    → IsList s l []
    → (list_popfront l s ≡ ok ((null, l), s)) × (list_popback l s ≡ ok ((null, l), s))
unfolding list_popfront list_popback
pop-nil s l is =
    let e : l.head ≡ null = eq_of_nil cell is.chain in (ground (arith, e), ground (arith, e))

-- On a list that is not empty, `list_popfront` returns the first datum and `list_popback` the last one;
-- each frees the node and leaves the others.
pub pops-shorten :
    (s : Store ListNode) (l : GenericList) (a v : ℕ) (xs : Cells)
    → IsList s l ((a, v) ∷ xs)
    → Popped s v a xs (list_popfront l s)
      × ((ys : Cells) × (last : ℕ × ℕ) × ((a, v) ∷ xs ≡ ys ++ last ∷ [])
          × Popped s last.1 last.0 ys (list_popback l s))
pops-shorten s l a v xs is =
    let (ys, (t, w), e) = snoc_view (a, v) xs in
    (
      list_popfront-cons s l a v xs is,
      (ys, (t, w), e, list_popback-snoc s l ys t w (subst (IsList s l) e is)),
    )
