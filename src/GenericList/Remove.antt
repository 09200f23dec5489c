-- ===== src/GenericList/Remove.antt =====
-- The removal of a node from within the list of libs/generic_linked_list.c.
use mathlib.Core.Path.{subst}
use concurrent_server.Base.{
  ℕ, ◌≡◌, refl, ◌≢◌, suc, append-nil, ap, ◌∙◌, sym, true, none, some, [], ◌∷◌, ◌++◌, length,
  length-append, ℤ, arith, snoc_view, ne→==, eq→==, pos, dec,
}
use concurrent_server.Heap.{Ptr, null, Store, put, update, update_self, update_ne}
use concurrent_server.Heap.Seg.{
  Cells, has, last_addr, Seg, uncons, eq_of_nil, last_addr-append, frame, reprev,
}
use concurrent_server.Heap.Split.{join}
use concurrent_server.Heap.Inside.{
  Inside, inside, only_middle, at_first, at_none, last_addr-behind, last_is_node, not_empty,
}
use concurrent_server.GenericList.{ListNode, GenericList}
use concurrent_server.GenericList.Push.{cell, IsLinked}
use concurrent_server.GenericList.Unlink.{dropped, shorter, run_last, run_inner}
use concurrent_server.GenericList.RemoveHead.{Removed, remove_head}

-- The node `a` of the list, behind the node `p`.
within :
    (s : Store ListNode) (l : GenericList) (before : Ptr) (ps : Cells) (p u a v : ℕ) (post : Cells)
    → IsLinked before s l ((ps ++ (p, u) ∷ []) ++ (a, v) ∷ post)
    → Inside cell s.cells null before l.head ps p u a v post
within s l before ps p u a v post is =
    inside cell s.cells null before l.head ps p u a v post is.chain

shorter_len :
    (xs : Cells) (a v : ℕ) (post : Cells) (n : ℤ)
    → n ≡ pos (length (xs ++ (a, v) ∷ post))
    → dec n ≡ pos (length (xs ++ post))
shorter_len xs a v post n e =
    let count : length (xs ++ (a, v) ∷ post) ≡ suc (length (xs ++ post)) =
      omega (arith, length-append {0} xs ((a, v) ∷ post), length-append {0} xs post) in
    ap dec (e ∙ ap pos count)

remove_last :
    (s : Store ListNode) (l : GenericList) (before : Ptr) (ps : Cells) (p u a v : ℕ)
    → IsLinked before s l ((ps ++ (p, u) ∷ []) ++ (a, v) ∷ [])
    → Removed s l a v ((ps ++ (p, u) ∷ []) ++ (a, v) ∷ []) ((ps ++ (p, u) ∷ []) ++ [])
remove_last s l before ps p u a v is =
    let xs = ps ++ (p, u) ∷ [] in
    let x = some (cell (last_addr before ps) null u) in
    let k = within s l before ps p u a v [] is in
    let end : k.next ≡ null = eq_of_nil cell k.back in
    let ne = k.a_p in
    let h = update (update s.cells p x) a none in
    (
      before,
      shorter l a p,
      dropped (put s p x) a v,
      run_last s l a p v u (last_addr before ps) k.a_ne k.p_ne ne k.at_p k.start_ne k.a_start
          (k.at_a ∙ ap (λ q. some (cell p q v)) end),
      record {
        chain = subst (Seg cell h null before l.head) (sym (append-nil xs)) (
            k.front h null
              (update_ne (update s.cells p x) a none p (λ e. ne (sym e)) ∙ update_self s.cells p x)
              (λ c ca cp i.
                update_ne (update s.cells p x) a none c ca ∙ update_ne s.cells p x c cp));
        tail =
            rw (eq→== a l.tail (sym (is.tail ∙ last_addr-append null xs a v)))
              (sym (ap (last_addr null) (append-nil xs) ∙ last_addr-append null ps p u));
        list_len = shorter_len xs a v [] l.list_len is.list_len;
      },
      λ e. absurd (not_empty ps p u [] e),
      update_self (update s.cells p x) a none,
      λ c out.
          let (ca, cp, _) = k.outside c out in
          update_ne (update s.cells p x) a none c ca ∙ update_ne s.cells p x c cp,
      refl,
    )

remove_inner :
    (s : Store ListNode) (l : GenericList) (before : Ptr) (ps : Cells) (p u a v b w : ℕ)
    (zs : Cells)
    → IsLinked before s l ((ps ++ (p, u) ∷ []) ++ (a, v) ∷ (b, w) ∷ zs)
    → Removed s l a v
        ((ps ++ (p, u) ∷ []) ++ (a, v) ∷ (b, w) ∷ zs)
        ((ps ++ (p, u) ∷ []) ++ (b, w) ∷ zs)
remove_inner s l before ps p u a v b w zs is =
    let xs = ps ++ (p, u) ∷ [] in
    let post = (b, w) ∷ zs in
    let k = within s l before ps p u a v post is in
    let g = uncons cell k.back in
    let x = some (cell (last_addr before ps) k.next u) in
    let y = some (cell p g.next w) in
    let ne = k.a_p in
    let off : (c : Ptr) → has c post ≡ true → (c ≢ a) × (c ≢ p) =
      λ c i. (λ e. ground (arith, e, i, k.a_out), λ e. ground (arith, e, i, k.p_out)) in
    let b_in : has k.next post ≡ true = ground (arith, g.same) in
    let (b_a, b_p) = off k.next b_in in
    let apart_b : (c : Ptr) → has c xs ≡ true → c ≢ k.next =
      λ c i e. ground (arith, e, b_in, k.apart c i) in
    let h = update (update (update s.cells p x) k.next y) a none in
    (
      before,
      shorter l a p,
      dropped (put (put s p x) k.next y) a v,
      run_inner s l a p v u (last_addr before ps) k.a_ne k.p_ne ne k.at_p k.start_ne k.a_start
          k.next g.next w k.at_a g.holds g.ne_null b_p (λ e. b_a (sym e)),
      record {
        chain =
            join cell post
              (k.front h k.next
                (at_first s.cells p k.next a x y none (λ e. ne (sym e)) (λ e. b_p (sym e)))
                (λ c ca cp i. at_none s.cells p k.next a c x y none ca (apart_b c i) cp))
              (subst (λ q. Seg cell h null q k.next post) (sym (last_addr-append before ps p u))
                (frame cell (reprev cell g p)
                  (λ c i. only_middle s.cells p k.next a c x y none (off c i).0 (off c i).1)))
              (λ c i. ground (arith, k.apart c i));
        tail =
            let at_end : l.tail ≡ last_addr b zs =
              is.tail ∙ last_addr-behind null xs a v ((b, w) ∷ zs) in
            let other : a ≢ l.tail = λ e. ground (arith, e, at_end, last_is_node b w zs, k.a_out) in
            rw (ne→== a l.tail other) (at_end ∙ sym (last_addr-behind null xs b w zs));
        list_len = shorter_len xs a v post l.list_len is.list_len;
      },
      λ e. absurd (not_empty ps p u post e),
      update_self (update (update s.cells p x) k.next y) a none,
      λ c out.
          let (ca, cp, rest) = k.outside c out in
          at_none s.cells p k.next a c x y none ca (λ e. ground (arith, e, rest, b_in)) cp,
      refl,
    )

remove_behind :
    (s : Store ListNode) (l : GenericList) (before : Ptr) (ps : Cells) (p u a v : ℕ) (ys : Cells)
    → IsLinked before s l ((ps ++ (p, u) ∷ []) ++ (a, v) ∷ ys)
    → Removed s l a v ((ps ++ (p, u) ∷ []) ++ (a, v) ∷ ys) ((ps ++ (p, u) ∷ []) ++ ys)
remove_behind s l before ps p u a v [] is = remove_last s l before ps p u a v is
remove_behind s l before ps p u a v ((b, w) ∷ zs) is = remove_inner s l before ps p u a v b w zs is

-- `destroy_list_node` takes any node out of a list whose first node points back to `before`, NULL or
-- not: the others stay linked in their order and counted, though the first of them may point back to
-- the freed node; the datum is destroyed where it is not NULL, the node is freed, and nothing in memory
-- is touched that was not in the list.
pub destroy_list_node-erase :
    (s : Store ListNode) (l : GenericList) (before : Ptr) (xs : Cells) (a v : ℕ) (ys : Cells)
    → IsLinked before s l (xs ++ (a, v) ∷ ys)
    → Removed s l a v (xs ++ (a, v) ∷ ys) (xs ++ ys)
destroy_list_node-erase s l before [] a v ys is = remove_head s l before a v ys is
destroy_list_node-erase s l before (x ∷ xs) a v ys is =
    let (front, (p, u), e) = snoc_view x xs in
    subst (λ zs. Removed s l a v (zs ++ (a, v) ∷ ys) (zs ++ ys)) (sym e)
      (remove_behind s l before front p u a v ys
        (subst (λ zs. IsLinked before s l (zs ++ (a, v) ∷ ys)) e is))
