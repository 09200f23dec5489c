-- ===== src/Server/Registering.antt =====
-- A thread that registers itself, and rounds of the accept loop that start none, keep the list of
-- thread ids and the blocks together.
use mathlib.Core.Path.{subst}
use concurrent_server.Base.{
  ℕ, ◌≡◌, ◌≢◌, inl, inr, refl, ap, ◌∙◌, sym, Bool-cases, true, false, some, List, [], ◌∷◌, ◌++◌,
  ◌==◌, if◌then◌else◌, ok, arith, pos,
}
use concurrent_server.Heap.{Ptr, null, Store}
use concurrent_server.Heap.Seg.{Cells, Seg, has, has-append, frame}
use concurrent_server.Heap.Datum.{datum_of, datum_of-snoc, datum_of-last}
use concurrent_server.GenericList.{ListNode, GenericList, append_list_node}
use concurrent_server.GenericList.Push.{cell}
use concurrent_server.GenericList.Append.{append_list_node-append}
use concurrent_server.ThreadBlock.{ThreadBlock, user_to_exit}
use concurrent_server.Server.Accept.{
  Handler, Server, too_many, init_connection_handler, destroy_block,
}
use concurrent_server.Server.Traffic.{Run}
use concurrent_server.Server.Consistent.{
  Serves, Owns, listed, loose, Consistent, Owns-still, destroy_block-Consistent,
}
use concurrent_server.Server.Coming.{starts}

snoc-ne-nil : (xs : Cells) (a d : ℕ) → xs ++ (a, d) ∷ [] ≢ []
snoc-ne-nil [] a d e = cc e
snoc-ne-nil (x ∷ xs) a d e = cc e

has-snoc : (c a d : ℕ) (xs : Cells) → c ≢ a → has c (xs ++ (a, d) ∷ []) ≡ has c xs
has-snoc c a d xs ne = has-append c xs ((a, d) ∷ []) ∙ ground (arith, ne)

module _ {Float : Type 0} (r : Run Float) (q : Consistent r) where
  module _ (b : Ptr) (h : Handler Float) (at_b : r.server.handlers b ≡ some h) where
    -- Other contents of the block leave the server consistent, and the thread may have begun.
    abbrev blocked : ThreadBlock Float → List ℕ → Server Float
    blocked blk closed = record r.server {
      handlers = λ c. if c == b then some (record h { block = blk }) else r.server.handlers c;
      closed = closed;
    }

    was :
        (blk : ThreadBlock Float) (closed : List ℕ) (c : Ptr) (k : Handler Float)
        → (blocked blk closed).handlers c ≡ some k
        → (m : Handler Float) × (r.server.handlers c ≡ some m) × (m.tid ≡ k.tid)
    was blk closed c k e = elim (Bool-cases (c == b)) [
      | inl i ↦
          let is : record h { block = blk } ≡ k = ground (arith, e, i) in
          let here : c ≡ b = ground (arith, i) in
          (h, ap r.server.handlers here ∙ at_b, ap (λ x. x.tid) is)
      | inr i ↦ (k, ground (arith, e, i), refl)
    ]

    blocked-Consistent :
        (blk : ThreadBlock Float) (closed : List ℕ)
        → Consistent (record { server = blocked blk closed; begun = starts r.begun b true })
    blocked-Consistent blk closed = record {
      before = q.before;
      listed = q.listed;
      linked = q.linked;
      first = q.first;
      nodes = λ c k e.
          let (m, at_c, same) = was blk closed c k e in
          subst (λ t. (t ≢ null) × Owns (blocked blk closed) q.listed c t (starts r.begun b true c))
            same
            (
              (q.nodes c m at_c).0,
              Owns-still r.server (blocked blk closed) q.before q.listed q.listed c m.tid
                  (r.begun c) (starts r.begun b true c) q.linked refl refl (λ _. refl) (λ n _. refl)
                  (λ p. ground (arith, p)) (q.nodes c m at_c).1,
            );
      apart = λ c d k m e f ne p.
          let (k', at_c, same) = was blk closed c k e in
          let (m', at_d, same') = was blk closed d m f in
          q.apart c d k' m' at_c at_d ne (same ∙ p ∙ sym same');
      owners = λ c d e.
          let (o, k, at_o, mine) = q.owners c d e in
          elim (Bool-cases (o == b)) [
            | inl i ↦
                let is : h ≡ k = ground (arith, at_o, at_b, i) in
                (o, record h { block = blk }, ground (arith, i), ap (λ x. x.tid) is ∙ mine)
            | inr i ↦ (o, k, ground (arith, i, at_o), mine)
          ];
    }

    -- The node of the thread that begins is put into the list.
    module _ (d : ℕ) (out : has h.tid q.listed ≡ false)
        (here : r.server.nodes.cells h.tid ≡ some (cell null null d))
        (own : Serves r.server b d) where
      append-Consistent :
          (l : GenericList) × (n : Store ListNode) × (append_list_node r.server.threads h.tid
              r.server.nodes
            ≡ ok ((pos 0, l), n))
          × Consistent (record {
            server = record r.server { nodes = n; threads = l };
            begun = starts r.begun b true;
          })
      append-Consistent =
          let (l, n, run, linked, kept, _) =
            append_list_node-append q.before r.server.nodes r.server.threads q.listed h.tid d
              q.linked q.first (q.nodes b h at_b).0 out here in
          (
            l,
            n,
            run,
            record {
              before = q.before;
              listed = q.listed ++ (h.tid, d) ∷ [];
              linked = linked;
              first = λ e. absurd (snoc-ne-nil q.listed h.tid d e);
              nodes = λ c k e. elim (Bool-cases (c == b)) [
                | inl i ↦
                    let is : h ≡ k = ground (arith, e, i, at_b) in
                    let same : k.tid ≡ h.tid = sym (ap (λ x. x.tid) is) in
                    (
                      (q.nodes c k e).0,
                      listed d
                          (ap (λ t. datum_of t (q.listed ++ (h.tid, d) ∷ [])) same
                            ∙ datum_of-last h.tid d q.listed out)
                          (own.0, own.1 ∙ sym (ground (arith, i))) (ground (arith, i)),
                    )
                | inr i ↦
                    let off : k.tid ≢ h.tid = q.apart c b k h e at_b (λ p. ground (arith, p, i)) in
                    (
                      (q.nodes c k e).0,
                      Owns-still r.server (record r.server { nodes = n; threads = l }) q.before
                          q.listed (q.listed ++ (h.tid, d) ∷ []) c k.tid (r.begun c)
                          (starts r.begun b true c) q.linked
                          (datum_of-snoc k.tid h.tid d q.listed off)
                          (has-snoc k.tid h.tid d q.listed off) (kept k.tid off) (λ m _. refl)
                          (λ p. ground (arith, p)) (q.nodes c k e).1,
                    )
              ];
              apart = q.apart;
              owners = λ c v e. elim (Bool-cases (c == h.tid)) [
                | inl i ↦ (b, h, at_b, ground (arith, i))
                | inr i ↦
                    let off : c ≢ h.tid = λ p. ground (arith, p, i) in
                    q.owners c v (sym (datum_of-snoc c h.tid d q.listed off) ∙ e)
              ];
            },
          )

    module _ (max_conn : ℕ) where
      init_fits :
          (l : GenericList) (n : Store ListNode)
          → too_many Float max_conn r.server.threads.list_len ≡ false
          → append_list_node r.server.threads h.tid r.server.nodes ≡ ok ((pos 0, l), n)
          → init_connection_handler Float max_conn b r.server
            ≡ ok (tt, record r.server { nodes = n; threads = l })
      unfolding init_connection_handler
      init_fits l n fits run = ground (arith, at_b, fits, run)

      init_crowded :
          too_many Float max_conn r.server.threads.list_len ≡ true
          → init_connection_handler Float max_conn b r.server
            ≡ destroy_block Float b (
                blocked
                  (record h.block { auth = user_to_exit })
                  (r.server.closed ++ h.block.socket ∷ []))
      unfolding init_connection_handler
      init_crowded crowded = ground (arith, at_b, crowded)

      -- The first thing that a thread does succeeds: it is registered, or it ends.
      pub init_connection_handler-Consistent :
          r.begun b ≡ false
          → (s' : Server Float) × (init_connection_handler Float max_conn b r.server ≡ ok (tt, s'))
            × Consistent (record { server = s'; begun = starts r.begun b true })
      init_connection_handler-Consistent fresh =
          elim (Bool-cases (too_many Float max_conn r.server.threads.list_len)) [
            | inl crowded ↦
                let blk = record h.block { auth = user_to_exit } in
                let cs = r.server.closed ++ h.block.socket ∷ [] in
                let (s', run, _, fit) =
                  destroy_block-Consistent
                    (record { server = blocked blk cs; begun = starts r.begun b true }) b
                    (record h { block = blk }) (blocked-Consistent blk cs) (ground arith) in
                (s', init_crowded crowded ∙ run, fit)
            | inr fits ↦ elim (q.nodes b h at_b).1 [
              | listed _ _ _ on ↦ absurd (cc (on, fresh))
              | loose d out here own ↦
                  let (l, n, run, fit) = append-Consistent d out here own in
                  (record r.server { nodes = n; threads = l }, init_fits l n fits run, fit)
            ]
          ]

  -- A server with the same list, handlers and nodes.
  pub same-Consistent :
      (s' : Server Float)
      → s'.threads ≡ r.server.threads
      → s'.handlers ≡ r.server.handlers
      → ((c : Ptr) → s'.nodes.cells c ≡ r.server.nodes.cells c)
      → s'.serves ≡ r.server.serves
      → Consistent (record r { server = s' })
  same-Consistent s' threads handlers cells serves = record {
    before = q.before;
    listed = q.listed;
    linked = record {
      chain =
          subst (λ l. Seg cell s'.nodes.cells null q.before l.head q.listed) (sym threads)
            (frame cell q.linked.chain (λ c _. cells c));
      tail = ap (λ l. l.tail) threads ∙ q.linked.tail;
      list_len = ap (λ l. l.list_len) threads ∙ q.linked.list_len;
    };
    first = q.first;
    nodes = λ c k e.
        let at_c = ap (λ f. f c) (sym handlers) ∙ e in
        (
          (q.nodes c k at_c).0,
          Owns-still r.server s' q.before q.listed q.listed c k.tid (r.begun c) (r.begun c) q.linked
              refl refl (λ _. cells k.tid) (λ n _. ap (λ g. g n.datum) serves) (λ p. p)
              (q.nodes c k at_c).1,
        );
    apart = λ c d k m e f.
        q.apart c d k m (ap (λ g. g c) (sym handlers) ∙ e) (ap (λ g. g d) (sym handlers) ∙ f);
    owners = λ c d e.
        let (o, k, at_o, mine) = q.owners c d e in (o, k, ap (λ g. g o) handlers ∙ at_o, mine);
  }
