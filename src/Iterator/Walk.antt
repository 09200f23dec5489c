-- ===== src/Iterator/Walk.antt =====
-- Walks around the ring of libs/iterator.c.
use native.Mathlib.Nat.{zero-add, suc-add}
use concurrent_server.Base.{
  ℕ, zero, suc, ◌+◌, ◌≡◌, ◌≢◌, refl, ap, ◌∙◌, sym, some, List, [], ◌∷◌, ◌++◌, ok, length,
  length-append, arith, ne→==, map,
}
use concurrent_server.Heap.{Ptr, null, Store, Cmd, pure, ◌>>=◌, load-ok}
use concurrent_server.Base.State.{and_then_parts}
use concurrent_server.Heap.Seg.{Cells, Seg, last_addr, uncons, eq_of_nil}
use concurrent_server.Heap.Split.{split}
use concurrent_server.Iterator.{IterNode, Iterators, move_forward}
use concurrent_server.Iterator.Ring.{iter, IsRing}

-- Calls of `move_forward`, with what they return.
abbrev pub moves : ℕ → Iterators → Cmd IterNode (List Ptr × Iterators)
moves zero r = pure ([], r)
moves (suc n) r = do (p, r1) ← move_forward r; (ps, r2) ← moves n r1; pure (p ∷ ps, r2)

-- The addresses of the nodes, in order, and then `q`.
abbrev pub addresses : Cells → Ptr → List Ptr
addresses [] q = q ∷ []
addresses (x ∷ xs) q = x.0 ∷ addresses xs q

move_forward-ok :
    (s : Store IterNode) (r : Iterators) (prev p q v : ℕ)
    → r.forward_curr ≡ p
    → s.cells p ≡ some (iter prev q v)
    → p ≢ null
    → move_forward r s ≡ ok ((q, record r { forward_curr = q }), s)
unfolding move_forward
move_forward-ok s r prev p q v at here ne = rw (at, ne→== _ _ ne, load-ok s here ne)

-- From a node at the front of a segment to the node behind it.
along :
    (s : Store IterNode) (r : Iterators) (stop prev p a v : ℕ) (xs : Cells)
    → Seg iter s.cells stop prev p ((a, v) ∷ xs)
    → r.forward_curr ≡ p
    → moves (suc (length xs)) r s ≡ ok ((addresses xs stop, record r { forward_curr = stop }), s)
along s r stop prev p a v [] chain at =
    let f = uncons iter chain in
    let end : f.next ≡ stop = eq_of_nil iter f.rest in
    rw (move_forward-ok s r prev p f.next v at f.holds f.ne_null, end)
along s r stop prev p a v ((b, w) ∷ xs) chain at =
    let f = uncons iter chain in
    let g = uncons iter f.rest in
    rw (
      move_forward-ok s r prev p f.next v at f.holds f.ne_null,
      along s (record r { forward_curr = f.next }) stop p f.next b w xs f.rest refl,
      g.same,
    )

-- Two walks, one after the other.
moves-append :
    (m n : ℕ) (r r1 r2 : Iterators) (s s' s'' : Store IterNode) (ps qs : List Ptr)
    → moves m r s ≡ ok ((ps, r1), s')
    → moves n r1 s' ≡ ok ((qs, r2), s'')
    → moves (m + n) r s ≡ ok ((ps ++ qs, r2), s'')
moves-append zero n r r1 r2 s s' s'' ps qs e f =
    let same : ps ≡ [] = ground (arith, e) in
    let here : r1 ≡ r = ground (arith, e) in
    let now : s' ≡ s = ground (arith, e) in rw (zero-add, same, ← here, ← now) f
moves-append (suc m) n r r1 r2 s s' s'' ps qs e f =
    let ((p, q), t, e1, e2) = and_then_parts (move_forward r s) _ ((ps, r1), s') e in
    let ((ps', q'), t', e3, e4) = and_then_parts (moves m q t) _ ((ps, r1), s') e2 in
    let more = moves-append m n q q' r2 t t' s'' ps' qs e3 (ground (arith, e4, f)) in
    rw (suc-add) (ground (arith, e1, more, e4))

addresses-append :
    (xs : Cells) (q : Ptr) (zs : List Ptr) → addresses xs q ++ zs ≡ map (λ x. x.0) xs ++ q ∷ zs
addresses-append [] q zs = refl
addresses-append (x ∷ xs) q zs = ap (λ l. x.0 ∷ l) (addresses-append xs q zs)

addresses-map : (xs : Cells) (q : Ptr) → addresses xs q ≡ map (λ x. x.0) xs ++ q ∷ []
addresses-map [] q = refl
addresses-map (x ∷ xs) q = ap (λ l. x.0 ∷ l) (addresses-map xs q)

-- In a ring, as many calls of `move_forward` as it has nodes return every node once, in order from the
-- one behind the current node, and end where they started.
moves-around :
    (s : Store IterNode) (r : Iterators) (xs : Cells) (a v : ℕ) (ys : Cells)
    → IsRing s r (xs ++ (a, v) ∷ ys)
    → r.forward_curr ≡ a
    → moves (length (xs ++ (a, v) ∷ ys)) r s
      ≡ ok ((map (λ x. x.0) ys ++ (map (λ x. x.0) xs ++ a ∷ []), r), s)
moves-around s r [] a v ys is at =
    let f = uncons iter is.chain in
    let walk = along s r r.head null r.head a v ys is.chain (at ∙ sym f.same) in
    let start : r.head ≡ r.forward_curr = f.same ∙ sym at in
    walk
    ∙ ap (λ q. ok ((addresses ys q, record r { forward_curr = q }), s)) start
    ∙ ap (λ q. ok ((addresses ys q, r), s)) at
    ∙ ap (λ l. ok ((l, r), s)) (addresses-map ys a)
moves-around s r ((b, w) ∷ xs) a v ys is at =
    let k = split iter ((b, w) ∷ xs) ((a, v) ∷ ys) is.chain in
    let f = uncons iter k.front in
    let g = uncons iter k.back in
    let walk = along s r r.head (last_addr b xs) k.mid a v ys k.back (at ∙ sym g.same) in
    let r1 : Iterators = record r { forward_curr = r.head } in
    let rest = along s r1 k.mid null r.head b w xs k.front refl in
    let both = moves-append (suc (length ys)) (suc (length xs)) r r1 _ s s s _ _ walk rest in
    let count : length ((b, w) ∷ (xs ++ (a, v) ∷ ys)) ≡ suc (length ys) + suc (length xs) =
      omega (arith, length-append {0} xs ((a, v) ∷ ys)) in
    let visited : addresses ys r.head ++ addresses xs k.mid
        ≡ map (λ x. x.0) ys ++ (b ∷ (map (λ x. x.0) xs ++ a ∷ [])) =
      addresses-append ys r.head (addresses xs k.mid)
      ∙ ap (λ q. map (λ x. x.0) ys ++ q ∷ addresses xs k.mid) f.same
      ∙ ap (λ q. map (λ x. x.0) ys ++ b ∷ addresses xs q) g.same
      ∙ ap (λ l. map (λ x. x.0) ys ++ b ∷ l) (addresses-map xs a) in
    ap (λ n. moves n r s) count
    ∙ both
    ∙ ap (λ q. ok ((addresses ys r.head ++ addresses xs k.mid, record r { forward_curr = q }), s))
        (g.same ∙ sym at)
    ∙ ap (λ l. ok ((l, r), s)) visited
