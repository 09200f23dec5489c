-- ===== src/Server/Coming.antt =====
-- Clients that come keep the list of thread ids and the blocks together.
use mathlib.Core.Path.{subst}
use concurrent_server.Base.{
  ℕ, ◌≡◌, ◌≢◌, ◌⊎◌, inl, inr, refl, ap, ◌∙◌, sym, Bool, Bool-cases, true, false, none, some, ◌==◌,
  if◌then◌else◌, arith,
}
use concurrent_server.Heap.{Ptr, null, update_self, update_ne}
use concurrent_server.Heap.Seg.{Cells, has, not-has_of_none, frame-update}
use concurrent_server.Heap.Datum.{has-datum_of}
use concurrent_server.GenericList.{ListNode}
use concurrent_server.GenericList.Push.{cell}
use concurrent_server.ThreadBlock.{ThreadBlock}
use concurrent_server.Server.Accept.{Handler, Server, Accepting}
use concurrent_server.Server.Connecting.{Succeeds, known}
use concurrent_server.Server.Traffic.{Run}
use concurrent_server.Server.Consistent.{Owns, listed, loose, Consistent, Owns-still}

-- The thread of `b` has begun, or has not.
abbrev pub starts : (Ptr → Bool) → Ptr → Bool → Ptr → Bool
starts on b v c = if c == b then v else on c

module _ {Float : Type 0} where
  -- A node that is not in use yet is nobody's.
  not_new :
      (s : Server Float) (xs : Cells) (b tid node : Ptr) (on : Bool)
      → Owns s xs b tid on
      → s.nodes.cells node ≡ none
      → has node xs ≡ false
      → tid ≢ node
  not_new s xs b tid node on (listed d i _ _) fresh out p =
      ground (arith, has-datum_of tid xs d i, out, p)
  not_new s xs b tid node on (loose d _ here _) fresh out p = cc (here, ap s.nodes.cells p, fresh)

  module _ (r : Run Float) (a : Accepting Float) (fd : ℕ) (blk : ThreadBlock Float) (closed : Bool)
      (q : Consistent r) (k : Succeeds r.server a fd blk closed)
      (free : r.server.handlers a.at ≡ none)
      (unused : (c : Ptr) (n : ListNode)
        → r.server.nodes.cells c ≡ some n
        → n.datum ≢ a.datum) where
    out : has a.node q.listed ≡ false
    out = not-has_of_none cell a.node q.linked.chain k.fresh

    off : (c : Ptr) (h : Handler Float) → r.server.handlers c ≡ some h → h.tid ≢ a.node
    off c h e = not_new r.server q.listed c h.tid a.node (r.begun c) (q.nodes c h e).1 k.fresh out

    -- A handler is the new one, or was there before.
    abbrev Which : Ptr → Handler Float → Type 0
    Which c h =
        (((c == a.at) ≡ true) × (h.tid ≡ a.node))
        ⊎ (((c == a.at) ≡ false) × (r.server.handlers c ≡ some h))

    which :
        (c : Ptr) (h : Handler Float)
        → (known r.server a fd blk closed).handlers c ≡ some h
        → Which c h
    which c h e = elim (Bool-cases (c == a.at)) [
      | inl i ↦
          let is : record { block = blk; tid = a.node } ≡ h = ground (arith, e, i) in
          inl (i, sym (ap (λ x. x.tid) is))
      | inr i ↦ inr (i, ground (arith, e, i))
    ]

    node_of :
        (early : Bool) (c : Ptr) (h : Handler Float)
        → Which c h
        → (h.tid ≢ null)
          × Owns (known r.server a fd blk closed) q.listed c h.tid (starts r.begun a.at early c)
    node_of early c h (inl (i, same)) =
        subst
          (λ t.
            (t ≢ null)
            × Owns (known r.server a fd blk closed) q.listed c t (starts r.begun a.at early c))
          (sym same)
          (
            k.node,
            loose a.datum out (update_self r.server.nodes.cells a.node _)
                (k.datum, ground (arith, i)),
          )
    node_of early c h (inr (i, at_c)) = (
      (q.nodes c h at_c).0,
      Owns-still r.server (known r.server a fd blk closed) q.before q.listed q.listed c h.tid
          (r.begun c) (starts r.begun a.at early c) q.linked refl refl
          (λ _. update_ne r.server.nodes.cells a.node _ h.tid (off c h at_c))
          (λ n here. ground (arith, unused h.tid n here)) (λ p. ground (arith, p, i))
          (q.nodes c h at_c).1,
    )

    apart_new : (c d : Ptr) (h m : Handler Float) → Which c h → Which d m → c ≢ d → h.tid ≢ m.tid
    apart_new c d h m (inl (i, x)) (inl (j, y)) ne p = ground (arith, i, j, ne)
    apart_new c d h m (inl (i, x)) (inr (j, y)) ne p = off d m y (sym p ∙ x)
    apart_new c d h m (inr (i, x)) (inl (j, y)) ne p = off c h x (p ∙ y)
    apart_new c d h m (inr (i, x)) (inr (j, y)) ne p = q.apart c d h m x y ne p

    -- A new client.
    pub known-Consistent :
        (early : Bool)
        → Consistent
            (record { server = known r.server a fd blk closed; begun = starts r.begun a.at early })
    known-Consistent early = record {
      before = q.before;
      listed = q.listed;
      linked = record {
        chain = frame-update cell a.node (some (cell null null a.datum)) q.linked.chain out;
        tail = q.linked.tail;
        list_len = q.linked.list_len;
      };
      first = q.first;
      nodes = λ c h e. node_of early c h (which c h e);
      apart = λ c d h m e f ne. apart_new c d h m (which c h e) (which d m f) ne;
      owners = λ c d e.
          let (o, h, at_o, mine) = q.owners c d e in (o, h, ground (arith, at_o, free), mine);
    }
