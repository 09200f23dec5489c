-- ===== src/Iterator/Find.antt =====
-- The loop of `remove_iterator` of libs/iterator.c, which goes once around the ring.
use concurrent_server.Base.{
  ℕ, zero, suc, ◌+◌, ◌<◌, ◌≤◌, ◌≡◌, ◌≢◌, refl, ap, ◌∙◌, sym, false, some, [], ◌∷◌, ◌++◌, ok, length,
  length-append, arith, ne→==, eq→==,
}
use concurrent_server.Heap.{Ptr, null, Store, load-ok}
use concurrent_server.Heap.Seg.{Cells, has, has-append, last_addr, Seg, uncons, eq_of_nil}
use concurrent_server.Heap.Inside.{inside}
use concurrent_server.Iterator.{IterNode, Iterators, find_prev}
use concurrent_server.Iterator.Ring.{iter, IsRing}

module _ (s : Store IterNode) (node : Ptr) where
  -- A segment that lacks the node starts elsewhere.
  starts_elsewhere :
      (stop prev x : Ptr) (xs : Cells)
      → Seg iter s.cells stop prev x xs
      → has node xs ≡ false
      → stop ≢ node
      → x ≢ node
  starts_elsewhere stop prev x [] c out ne e = ne (sym (eq_of_nil iter c) ∙ e)
  starts_elsewhere stop prev x ((b, w) ∷ xs) c out ne e =
      ground (arith, e, (uncons iter c).same, out)

  -- The loop goes on where the next node is another one.
  goes_on :
      (fuel p prev q v : ℕ)
      → s.cells p ≡ some (iter prev q v)
      → p ≢ null
      → q ≢ node
      → find_prev (suc fuel) node p s ≡ find_prev fuel node q s
  unfolding find_prev
  goes_on fuel p prev q v here ne off = rw (load-ok s here ne, ne→== _ _ off)

  -- The loop passes over a segment that lacks the node.
  skip :
      (xs : Cells) (stop prev x fuel : ℕ)
      → Seg iter s.cells stop prev x xs
      → has node xs ≡ false
      → stop ≢ node
      → length xs ≤ fuel
      → (k : ℕ) × (k + length xs ≡ fuel) × (find_prev fuel node x s ≡ find_prev k node stop s)
  skip [] stop prev x fuel c out ne enough =
      (fuel, omega arith, ap (λ y. find_prev fuel node y s) (eq_of_nil iter c))
  skip ((b, w) ∷ xs) stop prev x zero c out ne enough = absurd (omega (arith, enough))
  skip ((b, w) ∷ xs) stop prev x (suc fuel) c out ne enough =
      let f = uncons iter c in
      let later : has node xs ≡ false = ground (arith, out) in
      let off = starts_elsewhere stop x f.next xs f.rest later ne in
      let (k, count, run) = skip xs stop x f.next fuel f.rest later ne (omega (arith, enough)) in
      (k, omega (arith, count), goes_on fuel x prev f.next w f.holds f.ne_null off ∙ run)

  stops :
      (fuel p prev v : ℕ)
      → 0 < fuel
      → s.cells p ≡ some (iter prev node v)
      → p ≢ null
      → find_prev fuel node p s ≡ ok (p, s)
  unfolding find_prev
  stops zero p prev v some_left here ne = absurd (omega arith)
  stops (suc fuel) p prev v some_left here ne = rw (load-ok s here ne, eq→== node node refl)

-- From any node of a ring the loop finds the node before it, with fuel for one round per node.
pub find_prev-before :
    (s : Store IterNode) (r : Iterators) (ps : Cells) (p u a v : ℕ) (post : Cells) (fuel : ℕ)
    → IsRing s r ((ps ++ (p, u) ∷ []) ++ (a, v) ∷ post)
    → length ((ps ++ (p, u) ∷ []) ++ (a, v) ∷ post) ≤ fuel
    → find_prev fuel a a s ≡ ok (p, s)
find_prev-before s r ps p u a v post zero is enough =
    absurd (omega (arith, enough, length-append {0} (ps ++ (p, u) ∷ []) ((a, v) ∷ post)))
find_prev-before s r ps p u a v post (suc fuel) is enough =
    let k = inside iter s.cells r.head null r.head ps p u a v post is.chain in
    let count = length-append {0} (ps ++ (p, u) ∷ []) ((a, v) ∷ post) in
    let count' = length-append {0} ps ((p, u) ∷ []) in
    let off : r.head ≢ a = λ e. k.a_start (sym e) in
    let (f1, left1, run1) =
      skip s a post r.head a k.next fuel k.back k.a_out off
        (omega (arith, enough, count, count')) in
    let ps_out : has a ps ≡ false = ground (arith, has-append a ps ((p, u) ∷ []), k.a_off) in
    let (f2, left2, run2) =
      skip s a ps p null r.head f1 k.before_p ps_out (λ e. k.a_p (sym e))
        (omega (arith, enough, count, count', left1)) in
    goes_on s a fuel a p k.next v k.at_a k.a_ne
      (starts_elsewhere s a r.head a k.next post k.back k.a_out off)
    ∙ run1
    ∙ run2
    ∙ stops s a f2 p (last_addr null ps) u (omega (arith, enough, count, count', left1, left2))
        k.at_p k.p_ne
