-- ===== src/GenericList/RemoveHead.antt =====
-- The removal of the head by `destroy_list_node` of libs/generic_linked_list.c.
use mathlib.Core.Path.{subst}
use concurrent_server.Base.{
  ℕ, ◌≡◌, refl, ap, ◌∙◌, sym, false, none, [], ◌∷◌, ◌++◌, ok, arith, ne→==, eq→==, dec, ◌==◌,
  if◌then◌else◌,
}
use concurrent_server.Heap.{Ptr, null, Store, load-ok, update_self, update_ne}
use concurrent_server.Heap.Seg.{Cells, has, Seg, First, nil, uncons, eq_of_nil, frame-update}
use concurrent_server.GenericList.{ListNode, GenericList, destroy_list_node}
use concurrent_server.GenericList.Push.{cell, IsLinked}
use concurrent_server.GenericList.Unlink.{dropped, destroy_node-ok}

-- What the removal of the node `a` gives: the nodes `xs` are left, `a` is freed, and what was not in
-- the list `ys` is left alone.
abbrev pub Removed : Store ListNode → GenericList → Ptr → ℕ → Cells → Cells → Type 0
Removed s l a v ys xs =
    (before : Ptr) × (l' : GenericList) × (s' : Store ListNode) × (destroy_list_node l a s
      ≡ ok (l', s'))
    × IsLinked before s' l' xs
    × (xs ≡ [] → before ≡ null)
    × (s'.cells a ≡ none)
    × ((c : Ptr) → has c ys ≡ false → s'.cells c ≡ s.cells c)
    × (s'.destroyed ≡ (if v == null then s.destroyed else s.destroyed ++ v ∷ []))

-- The head.
module _ (s : Store ListNode) (l : GenericList) (before a v : ℕ) (post : Cells)
    (is : IsLinked before s l ((a, v) ∷ post)) where
  abbrev at_head : First cell s.cells null before l.head a v post
  at_head = uncons cell is.chain

  run_head :
      destroy_list_node l l.head s
      ≡ ok (
        record l {
          head = at_head.next;
          tail = if at_head.next == null then null else l.tail;
          list_len = dec l.list_len;
        },
        dropped s l.head v,
      )
  unfolding destroy_list_node
  run_head = ground (
    arith,
    load-ok s at_head.holds at_head.ne_null,
    eq→== l.head l.head refl,
    ne→== _ _ at_head.ne_null,
    destroy_node-ok s l.head before at_head.next v at_head.holds at_head.ne_null,
  )

  a_dropped : (dropped s l.head v).cells a ≡ none
  a_dropped = ap (dropped s l.head v).cells (sym at_head.same) ∙ update_self s.cells l.head none

  elsewhere_head :
      (c : Ptr) → has c ((a, v) ∷ post) ≡ false → (dropped s l.head v).cells c ≡ s.cells c
  elsewhere_head c out = update_ne s.cells l.head none c (λ e. ground (arith, e, at_head.same, out))

  rest_chain : Seg cell (dropped s l.head v).cells null l.head at_head.next post
  rest_chain = frame-update cell l.head none at_head.rest at_head.out

pub remove_head :
    (s : Store ListNode) (l : GenericList) (before a v : ℕ) (post : Cells)
    → IsLinked before s l ((a, v) ∷ post)
    → Removed s l a v ((a, v) ∷ post) post
remove_head s l before a v [] is =
    let f = at_head s l before a v [] is in
    let end : f.next ≡ null = eq_of_nil cell f.rest in
    subst (λ x. Removed s l x v ((a, v) ∷ []) []) f.same
      (
        null,
        record l {
          head = f.next;
          tail = if f.next == null then null else l.tail;
          list_len = dec l.list_len;
        },
        dropped s l.head v,
        run_head s l before a v [] is,
        record {
          chain = subst (λ h. Seg cell (dropped s l.head v).cells null null h []) (sym end) nil;
          tail = rw end;
          list_len = ap dec is.list_len;
        },
        λ _. refl,
        update_self s.cells l.head none,
        elsewhere_head s l before a v [] is,
        refl,
      )
remove_head s l before a v ((b, w) ∷ xs) is =
    let f = at_head s l before a v ((b, w) ∷ xs) is in
    let g = uncons cell f.rest in
    subst (λ x. Removed s l x v ((a, v) ∷ ((b, w) ∷ xs)) ((b, w) ∷ xs)) f.same
      (
        l.head,
        record l {
          head = f.next;
          tail = if f.next == null then null else l.tail;
          list_len = dec l.list_len;
        },
        dropped s l.head v,
        run_head s l before a v ((b, w) ∷ xs) is,
        record {
          chain = rest_chain s l before a v ((b, w) ∷ xs) is;
          tail = ground (arith, g.ne_null, is.tail);
          list_len = ap dec is.list_len;
        },
        λ e. absurd (cc e),
        update_self s.cells l.head none,
        elsewhere_head s l before a v ((b, w) ∷ xs) is,
        refl,
      )
