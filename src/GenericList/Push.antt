-- ===== src/GenericList/Push.antt =====
-- The insertions at the two ends of the list of libs/generic_linked_list.c.
use mathlib.Core.Path.{subst}
use concurrent_server.Base.{
  ◌<◌, ◌+◌, ◌^◌, to_unsigned, ℕ, ◌≡◌, ◌≢◌, refl, ap, ◌∙◌, sym, Bool, true, false, none, some, [],
  ◌∷◌, ◌++◌, ok, length, length-append, arith, snoc_view, ne→==, pos, inc, Outcome,
}
use concurrent_server.Heap.{Ptr, null, Store, modify-ok, put, update, update_self, update_ne}
use concurrent_server.Heap.Seg.{
  Cells, has, last_addr, Seg, nil, cons, not-has_of_none, uncons, eq_of_nil, last_addr-append,
  last-ne-new, last_holds, last-ne-null, link_behind, frame-under, reprev,
}
use concurrent_server.GenericList.{ListNode, GenericList, list_pushback, list_pushfront}

abbrev pub cell : Ptr → Ptr → ℕ → ListNode
cell prev next v = record { datum = v; next = next; prev = prev }

-- The list's nodes are `xs` from the head to the tail, and it counts them. They are linked both ways,
-- but for the first node, which points back to `before`.
pub record IsLinked (before : Ptr) (s : Store ListNode) (l : GenericList) (xs : Cells)
    : Type 0 where
  pub chain : Seg cell s.cells null before l.head xs
  pub tail : l.tail ≡ last_addr null xs
  pub list_len : l.list_len ≡ pos (length xs)

-- The list as it should be.
abbrev pub IsList : Store ListNode → GenericList → Cells → Type 0
IsList = IsLinked null

-- What a successful insertion gives: the flag is true, the nodes are `ys`, and nothing is destroyed.
abbrev Grown :
    Store ListNode
    → Cells
    → (Store ListNode → Outcome ((Bool × GenericList) × Store ListNode))
    → Type 0
Grown s ys run =
    (l' : GenericList) × (s' : Store ListNode) × (run s ≡ ok ((true, l'), s'))
    × IsList s' l' ys
    × (s'.destroyed ≡ s.destroyed)

-- The run on a list that is not empty, with the node that its tail points to.
pushback_run :
    (s : Store ListNode) (l : GenericList) (np d : ℕ) (m : ListNode)
    → l.head ≢ null
    → np ≢ null
    → l.tail ≢ null
    → (put s np (some (cell l.tail null d))).cells l.tail ≡ some m
    → list_pushback np l d s
      ≡ ok (
        (true, record l { tail = np; list_len = inc l.list_len }),
        put (put s np (some (cell l.tail null d))) l.tail (some (record m { next = np })),
      )
unfolding list_pushback
pushback_run s l np d m full ne ne' there = ground (
  arith,
  ne→== _ _ ne,
  ne→== _ _ full,
  modify-ok (put s np (some (cell l.tail null d))) there ne' (λ k. record k { next = np }),
)

pushback_behind :
    (s : Store ListNode) (l : GenericList) (xs : Cells) (t : Ptr) (v np d : ℕ)
    → IsList s l (xs ++ (t, v) ∷ [])
    → l.head ≢ null
    → np ≢ null
    → s.cells np ≡ none
    → Grown s ((xs ++ (t, v) ∷ []) ++ (np, d) ∷ []) (list_pushback np l d)
pushback_behind s l xs t v np d is full ne fresh =
    let at_tail : t ≡ l.tail = sym (is.tail ∙ last_addr-append null xs t v) in
    let apart : t ≢ np = last-ne-new cell s.cells xs t v is.chain np ne fresh in
    let there : (a : Ptr)
        → update s.cells np (some (cell a null d)) t ≡ some (cell (last_addr null xs) null v) =
      λ a. update_ne s.cells np _ t apart ∙ last_holds cell s.cells xs t v is.chain in
    (
      record l { tail = np; list_len = inc l.list_len },
      put (put s np (some (cell l.tail null d))) l.tail (some (cell (last_addr null xs) np v)),
      pushback_run s l np d (cell (last_addr null xs) null v) full ne
          (λ e. last-ne-null cell s.cells xs t v is.chain (at_tail ∙ e))
          (subst
            (λ a.
              update s.cells np (some (cell l.tail null d)) a
              ≡ some (cell (last_addr null xs) null v))
            at_tail (there l.tail)),
      record {
        chain =
            subst
              (λ a.
                Seg cell
                  (update (update s.cells np (some (cell a null d))) a
                    (some (cell (last_addr null xs) np v)))
                  null null l.head ((xs ++ (t, v) ∷ []) ++ (np, d) ∷ []))
              at_tail (link_behind cell s.cells xs t v is.chain np ne fresh d);
        tail = sym (last_addr-append null (xs ++ (t, v) ∷ []) np d);
        list_len =
            ap inc is.list_len
            ∙ ap pos (omega (arith, length-append {0} (xs ++ (t, v) ∷ []) ((np, d) ∷ [])));
      },
      refl,
    )

-- The first node of a list that was empty.
module _ (s : Store ListNode) (l : GenericList) (np d : ℕ) (is : IsList s l [])
    (ne : np ≢ null) where
  pushed_first :
      IsList
        (put s np (some (cell null null d)))
        (record l { head = np; tail = np; list_len = inc l.list_len })
        ((np, d) ∷ [])
  pushed_first = record {
    chain = cons ne (update_self s.cells np _) refl nil;
    tail = refl;
    list_len = ap inc is.list_len;
  }

  pushback_first : Grown s ((np, d) ∷ []) (list_pushback np l d)
  unfolding list_pushback
  pushback_first =
      let e : l.head ≡ null = eq_of_nil cell is.chain in
      (_, _, ground (arith, e), pushed_first, refl)

  pushfront_first : Grown s ((np, d) ∷ []) (list_pushfront np l d)
  unfolding list_pushfront
  pushfront_first =
      let e : l.head ≡ null = eq_of_nil cell is.chain in
      (_, _, ground (arith, e), pushed_first, refl)

-- `list_pushback` puts the datum behind the others, when `malloc` returns an unused address.
pub list_pushback-append :
    (s : Store ListNode) (l : GenericList) (xs : Cells) (np d : ℕ)
    → IsList s l xs
    → np ≢ null
    → s.cells np ≡ none
    → Grown s (xs ++ (np, d) ∷ []) (list_pushback np l d)
list_pushback-append s l [] np d is ne fresh = pushback_first s l np d is ne
list_pushback-append s l ((a, w) ∷ xs) np d is ne fresh =
    let (front, (t, v), e) = snoc_view (a, w) xs in
    let full : l.head ≢ null = (uncons cell is.chain).ne_null in
    subst (λ ys. Grown s (ys ++ (np, d) ∷ []) (list_pushback np l d)) (sym e)
      (pushback_behind s l front t v np d (subst (IsList s l) e is) full ne fresh)

pushfront_run :
    (s : Store ListNode) (l : GenericList) (np d : ℕ) (m : ListNode)
    → l.head ≢ null
    → np ≢ null
    → (put s np (some (cell null l.head d))).cells l.head ≡ some m
    → list_pushfront np l d s
      ≡ ok (
        (true, record l { head = np; list_len = inc l.list_len }),
        put (put s np (some (cell null l.head d))) l.head (some (record m { prev = np })),
      )
unfolding list_pushfront
pushfront_run s l np d m full ne there = ground (
  arith,
  ne→== _ _ ne,
  ne→== _ _ full,
  modify-ok (put s np (some (cell null l.head d))) there full (λ k. record k { prev = np }),
)

-- `list_pushfront` puts the datum before the others, when `malloc` returns an unused address.
pub list_pushfront-cons :
    (s : Store ListNode) (l : GenericList) (xs : Cells) (np d : ℕ)
    → IsList s l xs
    → np ≢ null
    → s.cells np ≡ none
    → Grown s ((np, d) ∷ xs) (list_pushfront np l d)
list_pushfront-cons s l [] np d is ne fresh = pushfront_first s l np d is ne
list_pushfront-cons s l ((a, w) ∷ xs) np d is ne fresh =
    let f = uncons cell is.chain in
    let out : has np ((a, w) ∷ xs) ≡ false = not-has_of_none cell np is.chain fresh in
    let apart : l.head ≢ np = λ e. cc (f.holds, ap s.cells e, fresh) in
    let h1 = update s.cells np (some (cell null l.head d)) in
    (
      record l { head = np; list_len = inc l.list_len },
      put (put s np (some (cell null l.head d))) l.head (some (cell np f.next w)),
      pushfront_run s l np d (cell null f.next w) f.ne_null ne
          (update_ne s.cells np _ l.head apart ∙ f.holds),
      record {
        chain =
            cons ne (update_ne h1 l.head _ np (λ e. apart (sym e)) ∙ update_self s.cells np _) out (
              frame-under cell s.cells l.head np _ (some (cell null l.head d)) (reprev cell f np)
                out);
        tail = is.tail;
        list_len = ap inc is.list_len;
      },
      refl,
    )

-- And `list_len`, which is an `int`, counts them.
abbrev pub Pushed :
    Store ListNode
    → Cells
    → (Store ListNode → Outcome ((Bool × GenericList) × Store ListNode))
    → Type 0
Pushed s ys run =
    (l' : GenericList) × (s' : Store ListNode) × (run s ≡ ok ((true, l'), s'))
    × IsList s' l' ys
    × (s'.destroyed ≡ s.destroyed)
    × (to_unsigned l'.list_len < 2 ^ 31)

counted :
    (s : Store ListNode) (ys : Cells)
    (run : Store ListNode → Outcome ((Bool × GenericList) × Store ListNode))
    → length ys < 2 ^ 31
    → Grown s ys run
    → Pushed s ys run
unfolding to_unsigned
counted s ys run short (l', s', done, is, kept) =
    (l', s', done, is, kept, rw is.list_len (omega (arith, short)))

-- `list_pushback` puts the datum behind the others and `list_pushfront` before them, when `malloc`
-- returns an unused address and there are fewer than 2^31 nodes afterwards: the links both ways are
-- kept, and the length, which does not overflow its `int`.
pub pushes-extend :
    (s : Store ListNode) (l : GenericList) (xs : Cells) (np d : ℕ)
    → IsList s l xs
    → np ≢ null
    → s.cells np ≡ none
    → length xs + 1 < 2 ^ 31
    → Pushed s (xs ++ (np, d) ∷ []) (list_pushback np l d)
      × Pushed s ((np, d) ∷ xs) (list_pushfront np l d)
pushes-extend s l xs np d is ne fresh short = (
  counted s _ (list_pushback np l d) (omega (arith, short, length-append {0} xs ((np, d) ∷ [])))
      (list_pushback-append s l xs np d is ne fresh),
  counted s _ (list_pushfront np l d) (omega (arith, short))
      (list_pushfront-cons s l xs np d is ne fresh),
)
