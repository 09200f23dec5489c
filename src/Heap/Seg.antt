-- ===== src/Heap/Seg.antt =====
-- Linked segments: chains of nodes in memory, singly or doubly linked. A node is made from the
-- addresses before and behind it and its datum by `cell`; a singly linked one ignores the first.
use mathlib.Core.Bool.{or_assoc}
use mathlib.Core.Path.{subst}
use concurrent_server.Base.{
  ℕ, ◌≡◌, ◌≢◌, refl, ap, ◌∙◌, sym, Bool, true, false, ◌||◌, Option, none, some, List, [], ◌∷◌, ◌++◌,
  ◌==◌, arith,
}
use concurrent_server.Heap.{Ptr, null, update, update_self, update_ne}

-- Address and datum of each node, in order.
abbrev pub Cells : Type 0
Cells = List (Ptr × ℕ)

abbrev pub data_of : Cells → List ℕ
data_of [] = []
data_of ((_, v) ∷ xs) = v ∷ data_of xs

-- The last address, or `p`.
abbrev pub last_addr : Ptr → Cells → Ptr
last_addr p [] = p
last_addr p ((q, _) ∷ xs) = last_addr q xs

-- Whether a node stands at the address.
abbrev pub has : Ptr → Cells → Bool
has q [] = false
has q ((p, datum) ∷ rest) = (q == p) || has q rest

pub ne_of_has : (a b : Ptr) (xs : Cells) → has a xs ≡ true → has b xs ≡ false → a ≢ b
ne_of_has a b xs i o e = cc (ap (λ x. has x xs) e, i, o)

pub has-append :
    (q : Ptr) (front back : Cells) → has q (front ++ back) ≡ (has q front || has q back)
has-append q [] back = refl
has-append q ((p, datum) ∷ front) back = rw (has-append q front back, or_assoc)

module _ {N : Type 0} (cell : Ptr → Ptr → ℕ → N) where
  -- From `p`, whose predecessor is `prev`, the nodes `xs` lead to `stop`.
  pub data Seg (h : Ptr → Option N) (stop : Ptr) : Ptr → Ptr → Cells → Type 0 where
    nil : {prev : Ptr} → Seg h stop prev stop []
    cons :
        {prev p q : Ptr} {v : ℕ} {xs : Cells}
        → p ≢ null
        → h p ≡ some (cell prev q v)
        → has p xs ≡ false
        → Seg h stop p q xs
        → Seg h stop prev p ((p, v) ∷ xs)

  -- A segment survives any change that spares its nodes.
  pub frame :
      {h g : Ptr → Option N} {stop prev p : Ptr} {xs : Cells}
      → Seg h stop prev p xs
      → ((a : Ptr) → has a xs ≡ true → g a ≡ h a)
      → Seg g stop prev p xs
  frame nil same = nil
  frame (cons {p} ne e out s) same =
      cons ne (same p (ground arith) ∙ e) out (frame s λ a i. same a (ground arith))

  pub frame-update :
      {h : Ptr → Option N} {stop prev p : Ptr} {xs : Cells} (a : Ptr) (c : Option N)
      → Seg h stop prev p xs
      → has a xs ≡ false
      → Seg (update h a c) stop prev p xs
  unfolding update
  frame-update a c s out = frame s (ground arith)

  -- An address that holds nothing is none of its nodes.
  pub not-has_of_none :
      {h : Ptr → Option N} {stop prev p : Ptr} {xs : Cells} (a : Ptr)
      → Seg h stop prev p xs
      → h a ≡ none
      → has a xs ≡ false
  not-has_of_none a nil unused = refl
  not-has_of_none a (cons ne e out s) unused = ground (arith, not-has_of_none a s unused)

  -- One more node at the end.
  pub snoc :
      {h : Ptr → Option N} {q t prev p : Ptr} {xs : Cells} (v : ℕ)
      → Seg h t prev p xs
      → t ≢ null
      → h t ≡ some (cell (last_addr prev xs) q v)
      → has t xs ≡ false
      → Seg h q prev p (xs ++ (t, v) ∷ [])
  snoc v nil ne e out = cons ne e refl nil
  snoc {t} v (cons {p} {xs} ne' e' out' s) ne e out =
      cons ne' e' (rw (has-append p xs ((t, v) ∷ []), out') (ground arith))
        (snoc v s ne e (ground arith))

  pub eq_of_nil : {h : Ptr → Option N} {stop prev p : Ptr} → Seg h stop prev p [] → p ≡ stop
  eq_of_nil nil = refl

  -- The first node, taken off.
  pub record First (h : Ptr → Option N) (stop prev p a : Ptr) (v : ℕ) (xs : Cells) : Type 0 where
    pub next : Ptr
    pub same : p ≡ a
    pub ne_null : p ≢ null
    pub holds : h p ≡ some (cell prev next v)
    pub out : has p xs ≡ false
    pub rest : Seg h stop p next xs

  pub uncons :
      {h : Ptr → Option N} {stop prev p a : Ptr} {v : ℕ} {xs : Cells}
      → Seg h stop prev p ((a, v) ∷ xs)
      → First h stop prev p a v xs
  uncons (cons {q} ne e out s) = record {
    next = q;
    same = refl;
    ne_null = ne;
    holds = e;
    out = out;
    rest = s;
  }

  -- A segment in a changed memory survives an earlier change elsewhere.
  pub frame-under :
      (h : Ptr → Option N) {stop prev p : Ptr} {xs : Cells} (a b : Ptr) (c d : Option N)
      → Seg (update h a c) stop prev p xs
      → has b xs ≡ false
      → Seg (update (update h b d) a c) stop prev p xs
  unfolding update
  frame-under h {xs} a b c d s out = frame s λ x i. ground (arith, ne_of_has x b xs i out)

  -- The first node with another predecessor.
  pub reprev :
      {h : Ptr → Option N} {stop prev p a : Ptr} {v : ℕ} {xs : Cells}
      → (f : First h stop prev p a v xs) → (prev' : Ptr)
      → Seg (update h p (some (cell prev' f.next v))) stop prev' p ((a, v) ∷ xs)
  reprev {h} {stop} {prev} {p} {a} {v} {xs} f prev' =
      let c = some (cell prev' f.next v) in
      subst (λ b. Seg (update h p c) stop prev' p ((b, v) ∷ xs)) f.same
        (cons f.ne_null (update_self h p c) f.out (frame-update p c f.rest f.out))

  -- The last node, taken off.
  pub record Last (h : Ptr → Option N) (stop prev p t : Ptr) (v : ℕ) (xs : Cells) : Type 0 where
    pub front : Seg h t prev p xs
    pub ne_null : t ≢ null
    pub holds : h t ≡ some (cell (last_addr prev xs) stop v)
    pub out : has t xs ≡ false

  end_of_chain :
      {h : Ptr → Option N} {stop prev p t : Ptr} {v : ℕ}
      → First h stop prev p t v []
      → Last h stop prev p t v []
  end_of_chain {h} {prev} {p} {v} f =
      let end = eq_of_nil f.rest in
      record {
        front = subst (λ q. Seg h q prev p []) f.same nil;
        ne_null = λ e. f.ne_null (f.same ∙ e);
        holds = ap h (sym f.same) ∙ f.holds ∙ ap (λ q. some (cell prev q v)) end;
        out = refl;
      }

  -- One more node at the front of what stands before the last.
  extend :
      {h : Ptr → Option N} {stop prev p a t : Ptr} {w v : ℕ} {xs : Cells}
      → (f : First h stop prev p a w (xs ++ (t, v) ∷ [])) → Last h stop p f.next t v xs
      → Last h stop prev p t v ((a, w) ∷ xs)
  extend {h} {stop} {prev} {p} {a} {t} {w} {v} {xs} f l =
      let split : (has p xs || ((p == t) || false)) ≡ false =
        sym (has-append p xs ((t, v) ∷ [])) ∙ f.out in
      record {
        front =
            subst (λ b. Seg h t prev p ((b, w) ∷ xs)) f.same
              (cons f.ne_null f.holds (ground arith) l.front);
        ne_null = l.ne_null;
        holds = subst (λ b. h t ≡ some (cell (last_addr b xs) stop v)) f.same l.holds;
        out = ground (arith, f.same, l.out);
      }

  pub unsnoc :
      {h : Ptr → Option N} {stop prev p : Ptr} (xs : Cells) (t : Ptr) (v : ℕ)
      → Seg h stop prev p (xs ++ (t, v) ∷ [])
      → Last h stop prev p t v xs
  unsnoc [] t v s = end_of_chain (uncons s)
  unsnoc {h} {stop} {prev} {p} ((a, w) ∷ xs) t v s =
      extend (uncons s) (unsnoc {prev = p} {p = (uncons s).next} xs t v (uncons s).rest)

pub last_addr-append :
    (p : Ptr) (xs : Cells) (t : Ptr) (v : ℕ) → last_addr p (xs ++ (t, v) ∷ []) ≡ t
last_addr-append p [] t v = refl
last_addr-append p (x ∷ xs) t v = last_addr-append x.0 xs t v

pub data_of-append : (xs ys : Cells) → data_of (xs ++ ys) ≡ data_of xs ++ data_of ys
data_of-append [] ys = refl
data_of-append (x ∷ xs) ys = ap (λ l. x.1 ∷ l) (data_of-append xs ys)

-- A new node `np` linked behind the last node `t`.
module _ {N : Type 0} (cell : Ptr → Ptr → ℕ → N) (h : Ptr → Option N) (xs : Cells) (t : Ptr)
    (v : ℕ) where
  module _ {prev p : Ptr} (s : Seg cell h null prev p (xs ++ (t, v) ∷ [])) where
    pub last_holds : h t ≡ some (cell (last_addr prev xs) null v)
    last_holds = (unsnoc cell xs t v s).holds

    pub last-ne-null : t ≢ null
    last-ne-null = (unsnoc cell xs t v s).ne_null

    module _ (np : Ptr) (ne : np ≢ null) (fresh : h np ≡ none) where
      pub last-ne-new : t ≢ np
      last-ne-new e = cc (last_holds, ap h e, fresh)

      pub link_behind :
          (w : ℕ)
          → Seg cell
              (update (update h np (some (cell t null w))) t (some (cell (last_addr prev xs) np v)))
              null
              prev
              p
              ((xs ++ (t, v) ∷ []) ++ (np, w) ∷ [])
      link_behind w =
          let l = unsnoc cell xs t v s in
          let h1 = update h np (some (cell t null w)) in
          let n' = some (cell (last_addr prev xs) np v) in
          let new = not-has_of_none cell np l.front fresh in
          let kept = frame-update cell t n' (frame-update cell np _ l.front new) l.out in
          let front = snoc cell v kept l.ne_null (update_self h1 t n') l.out in
          snoc cell w front ne
            (update_ne h1 t n' np (λ e. last-ne-new (sym e))
              ∙ update_self h np _
              ∙ ap (λ a. some (cell a null w)) (sym (last_addr-append prev xs t v)))
            (has-append np xs ((t, v) ∷ []) ∙ ground (arith, new, last-ne-new))
