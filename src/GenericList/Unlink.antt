-- ===== src/GenericList/Unlink.antt =====
-- The runs of `destroy_list_node` of libs/generic_linked_list.c, and what they read afterwards.
use concurrent_server.Base.{
  ℕ, ◌≡◌, ◌≢◌, ◌∙◌, Bool-cases, inl, inr, none, some, [], ◌∷◌, ◌++◌, ok, arith, ne→==, dec, ◌==◌,
  if◌then◌else◌,
}
use concurrent_server.Heap.{
  Ptr, null, Store, load-ok, modify-ok, free-ok, dtor, put, update, update_ne,
}
use concurrent_server.GenericList.{ListNode, GenericList, destroy_list_node, destroy_node}
use concurrent_server.GenericList.Push.{cell}

-- The memory without the node `a` and with the destructor called on its datum.
abbrev pub dropped : Store ListNode → Ptr → ℕ → Store ListNode
dropped s a v = record s {
  cells = update s.cells a none;
  destroyed = if v == null then s.destroyed else s.destroyed ++ v ∷ [];
}

pub destroy_node-ok :
    (s : Store ListNode) (a prev next v : ℕ)
    → s.cells a ≡ some (cell prev next v)
    → a ≢ null
    → destroy_node a s ≡ ok (tt, dropped s a v)
unfolding destroy_node dtor
destroy_node-ok s a prev next v e ne = elim (Bool-cases (v == null)) [
  | inl z ↦ ground (arith, z, ne, load-ok s e ne, free-ok s e ne)
  | inr z ↦
      ground (
        arith,
        z,
        ne,
        load-ok s e ne,
        free-ok (record s { destroyed = s.destroyed ++ v ∷ [] }) e ne,
      )
]

abbrev pub shorter : GenericList → Ptr → Ptr → GenericList
shorter l a p = record l { tail = if a == l.tail then p else l.tail; list_len = dec l.list_len }

-- The runs on a node `a` behind the node `p`.
module _ (s : Store ListNode) (l : GenericList) (a p v u q : ℕ) (a_ne : a ≢ null) (p_ne : p ≢ null)
    (apart : a ≢ p) (at_p : s.cells p ≡ some (cell q a u)) (full : l.head ≢ null)
    (head_ne : a ≢ l.head) where
  pub run_last :
      s.cells a ≡ some (cell p null v)
      → destroy_list_node l a s ≡ ok (shorter l a p, dropped (put s p (some (cell q null u))) a v)
  unfolding destroy_list_node
  run_last at_a =
      let linked = put s p (some (cell q null u)) in
      ground (
        arith,
        load-ok s at_a a_ne,
        ne→== _ _ p_ne,
        ne→== _ _ head_ne,
        ne→== _ _ full,
        modify-ok s at_p p_ne (λ m. record m { next = null }),
        destroy_node-ok linked a p null v (update_ne s.cells p _ a apart ∙ at_a) a_ne,
      )

  pub run_inner :
      (b next w : ℕ)
      → s.cells a ≡ some (cell p b v)
      → s.cells b ≡ some (cell a next w)
      → b ≢ null
      → b ≢ p
      → a ≢ b
      → destroy_list_node l a s
        ≡ ok (
          shorter l a p,
          dropped (put (put s p (some (cell q b u))) b (some (cell p next w))) a v,
        )
  unfolding destroy_list_node
  run_inner b next w at_a at_b b_ne b_off ab =
      let s1 = put s p (some (cell q b u)) in
      let s2 = put s1 b (some (cell p next w)) in
      rw (
        load-ok s at_a a_ne,
        ne→== _ _ b_ne,
        ne→== _ _ full,
        ne→== _ _ head_ne,
        modify-ok s at_p p_ne (λ m. record m { next = b }),
        modify-ok s1 (update_ne s.cells p _ b b_off ∙ at_b) b_ne (λ m. record m { prev = p }),
        destroy_node-ok s2 a p b v
            (update_ne s1.cells b _ a ab ∙ update_ne s.cells p _ a apart ∙ at_a) a_ne,
      )
