-- ===== src/Server/Consistent.antt =====
-- The list of thread ids and the blocks fit together, whatever clients come and go.
use concurrent_server.Base.{
  ℕ, ◌≡◌, ◌≢◌, refl, ap, sym, ◌∙◌, Bool, true, false, none, some, [], ◌∷◌, ◌++◌, ◌==◌,
  if◌then◌else◌, ok, arith,
}
use concurrent_server.Heap.{Ptr, null}
use concurrent_server.Heap.Seg.{Cells, has, not-has_of_none}
use concurrent_server.Heap.Datum.{datum_of, has-datum_of, datum_of-holds}
use concurrent_server.GenericList.{ListNode}
use concurrent_server.GenericList.Push.{cell, IsLinked}
use concurrent_server.GenericList.Gone.{Gone, destroy_list_node-listed, destroy_list_node-loose}
use concurrent_server.Server.Accept.{Handler, Server, destroy_block}
use concurrent_server.Server.Traffic.{Run}

module _ {Float : Type 0} where
  -- The thread whose id is stored at `d` serves the block at `b`.
  abbrev pub Serves : Server Float → Ptr → ℕ → Type 0
  Serves s b d = (d ≢ null) × (s.serves d ≡ b)

  -- The node of a handler is in the list, and then its thread has begun; or it has no links. Its datum
  -- is where the id of the thread is that serves the block.
  pub data Owns (s : Server Float) (xs : Cells) (b tid : Ptr) (begun : Bool) : Type 0 where
    listed :
        (d : ℕ) → datum_of tid xs ≡ some d → Serves s b d → begun ≡ true → Owns s xs b tid begun
    loose :
        (d : ℕ)
        → has tid xs ≡ false
        → s.nodes.cells tid ≡ some (cell null null d)
        → Serves s b d
        → Owns s xs b tid begun

  -- The list is linked and counted, every handler has a node, no two have the same, and every node in
  -- the list is that of a handler.
  pub record Consistent (r : Run Float) : Type 0 where
    pub before : Ptr
    pub listed : Cells
    pub linked : IsLinked before r.server.nodes r.server.threads listed
    pub first : listed ≡ [] → before ≡ null
    pub nodes :
        (b : Ptr) (h : Handler Float)
        → r.server.handlers b ≡ some h
        → (h.tid ≢ null) × Owns r.server listed b h.tid (r.begun b)
    pub apart :
        (b c : Ptr) (h k : Handler Float)
        → r.server.handlers b ≡ some h
        → r.server.handlers c ≡ some k
        → b ≢ c
        → h.tid ≢ k.tid
    pub owners :
        (c d : ℕ)
        → datum_of c listed ≡ some d
        → (b : Ptr) × (h : Handler Float) × (r.server.handlers b ≡ some h) × (h.tid ≡ c)

  -- The removal of the node of any handler of a server that is consistent.
  gone :
      (r : Run Float) (q : Consistent r) (b : Ptr) (h : Handler Float)
      → r.server.handlers b ≡ some h
      → Gone r.server.nodes r.server.threads q.listed h.tid
  gone r q b h at_b =
      let (ne, owned) = q.nodes b h at_b in
      elim owned [
        | listed d i _ _ ↦
            destroy_list_node-listed r.server.nodes r.server.threads q.before q.listed h.tid
              q.linked (has-datum_of h.tid q.listed d i)
        | loose d out here _ ↦
            destroy_list_node-loose r.server.nodes r.server.threads q.before q.listed h.tid d
              q.linked q.first out ne here
      ]

  -- The server without the handler at `b`.
  abbrev without :
      (s : Server Float) (b : Ptr) (h : Handler Float) {xs : Cells}
      → Gone s.nodes s.threads xs h.tid
      → Server Float
  without s b h g = record s {
    nodes = g.memory;
    threads = g.list;
    handlers = λ c. if c == b then none else s.handlers c;
    closed = s.closed ++ h.block.socket ∷ [];
  }

  destroy_block-without :
      (s : Server Float) (b : Ptr) (h : Handler Float) {xs : Cells}
      (g : Gone s.nodes s.threads xs h.tid)
      → s.handlers b ≡ some h
      → destroy_block Float b s ≡ ok (tt, without s b h g)
  unfolding destroy_block
  destroy_block-without s b h g at_b = ground (arith, at_b, g.run)

  -- What a handler owns, after a change that leaves its node and its thread alone.
  pub Owns-still :
      (s s' : Server Float) (before : Ptr) (xs ys : Cells) (b tid : Ptr) (begun begun' : Bool)
      → IsLinked before s.nodes s.threads xs
      → datum_of tid ys ≡ datum_of tid xs
      → has tid ys ≡ has tid xs
      → (has tid xs ≡ false → s'.nodes.cells tid ≡ s.nodes.cells tid)
      → ((n : ListNode) → s.nodes.cells tid ≡ some n → s'.serves n.datum ≡ s.serves n.datum)
      → (begun ≡ true → begun' ≡ true)
      → Owns s xs b tid begun
      → Owns s' ys b tid begun'
  Owns-still s s' before xs ys b tid begun begun' is found same kept on more (listed d i (z, v) e) =
      let (l, n, here) =
        datum_of-holds cell s.nodes.cells null before s.threads.head xs tid d is.chain i in
      listed d (found ∙ i) (z, on (cell l n d) here ∙ v) (more e)
  Owns-still s s' before xs ys b tid begun begun' is found same kept on more
        (loose d out here (z, v)) =
      loose d (same ∙ out) (kept out ∙ here) (z, on (cell null null d) here ∙ v)

  without-Consistent :
      (r : Run Float) (q : Consistent r) (b : Ptr) (h : Handler Float) (begun : Ptr → Bool)
      → (at_b : r.server.handlers b ≡ some h) → ((c : Ptr) → r.begun c ≡ true → begun c ≡ true)
      → Consistent (record { server = without r.server b h (gone r q b h at_b); begun = begun })
  without-Consistent r q b h begun at_b more =
      let g = gone r q b h at_b in
      let other : (c : Ptr) (k : Handler Float)
          → (if c == b then none else r.server.handlers c) ≡ some k
          → (c ≢ b) × (r.server.handlers c ≡ some k) =
        λ c k e. (λ p. ground (arith, e, p), ground (arith, e)) in
      record {
        before = g.before;
        listed = g.left;
        linked = g.linked;
        first = g.first;
        nodes = λ c k e.
            let (ne, at_c) = other c k e in
            let off : k.tid ≢ h.tid = q.apart c b k h at_c at_b ne in
            (
              (q.nodes c k at_c).0,
              Owns-still r.server (without r.server b h g) q.before q.listed g.left c k.tid
                  (r.begun c) (begun c) q.linked (g.same_data k.tid off) (g.members k.tid off)
                  (g.elsewhere k.tid off) (λ n _. refl) (more c) (q.nodes c k at_c).1,
            );
        apart = λ c d k m e f. q.apart c d k m (other c k e).1 (other d m f).1;
        owners = λ c d e.
            let gone_from : has h.tid g.left ≡ false =
              not-has_of_none cell h.tid g.linked.chain g.freed in
            let off : c ≢ h.tid = λ p. ground (arith, p, gone_from, has-datum_of c g.left d e) in
            let (o, k, at_o, mine) = q.owners c d (sym (g.same_data c off) ∙ e) in
            let away : o ≢ b = λ p.
              let is : k ≡ h = ground (arith, at_o, at_b, p) in
              off (sym mine ∙ ap (λ x. x.tid) is) in
            (o, k, ground (arith, away, at_o), mine);
      }

  -- In a server that is consistent the clean-up of any handler succeeds: its block is gone, and the server is
  -- consistent without it.
  pub destroy_block-Consistent :
      (r : Run Float) (b : Ptr) (h : Handler Float)
      → Consistent r
      → r.server.handlers b ≡ some h
      → (s' : Server Float) × (destroy_block Float b r.server ≡ ok (tt, s'))
        × (s'.handlers b ≡ none)
        × Consistent (record r { server = s' })
  destroy_block-Consistent r b h q at_b =
      let g = gone r q b h at_b in
      (
        without r.server b h g,
        destroy_block-without r.server b h g at_b,
        ground arith,
        without-Consistent r q b h r.begun at_b (λ _ e. e),
      )
