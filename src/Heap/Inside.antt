-- ===== src/Heap/Inside.antt =====
-- A node `a` of a linked segment, behind another node `p`.
use mathlib.Core.Path.{subst}
use concurrent_server.Base.{
  ℕ, ◌≡◌, ◌≢◌, refl, ap, ◌∙◌, sym, Bool-cases, inl, inr, true, false, ◌||◌, Option, some, [], ◌∷◌,
  ◌++◌, arith, ◌==◌,
}
use concurrent_server.Heap.{Ptr, null, update}
use concurrent_server.Heap.Seg.{
  Cells, has, has-append, last_addr, Seg, uncons, unsnoc, snoc, last_addr-append, frame,
}
use concurrent_server.Heap.Split.{Apart, split}

module _ {N : Type 0} (cell : Ptr → Ptr → ℕ → N) where
  -- The first address of a segment is one of its nodes.
  head_is_node :
      {h : Ptr → Option N} {stop prev x : Ptr} (ps : Cells) (p u : ℕ)
      → Seg cell h stop prev x (ps ++ (p, u) ∷ [])
      → (x ≢ null) × (has x (ps ++ (p, u) ∷ []) ≡ true)
  head_is_node [] p u s = let f = uncons cell s in (f.ne_null, ground (arith, f.same))
  head_is_node ((c, w) ∷ ps) p u s = let f = uncons cell s in (f.ne_null, ground (arith, f.same))

  -- What the memory holds at the two nodes, and which addresses differ. `front` is the nodes up to `p`
  -- in a memory where `p` leads elsewhere.
  pub record Inside (h : Ptr → Option N) (stop before x : Ptr) (ps : Cells) (p u a v : ℕ)
      (post : Cells) : Type 0 where
    pub next : Ptr
    pub at_p : h p ≡ some (cell (last_addr before ps) a u)
    pub at_a : h a ≡ some (cell p next v)
    pub p_ne : p ≢ null
    pub a_ne : a ≢ null
    pub a_p : a ≢ p
    pub start_ne : x ≢ null
    pub a_start : a ≢ x
    pub p_in : has p (ps ++ (p, u) ∷ []) ≡ true
    pub p_out : has p ((a, v) ∷ post) ≡ false
    pub a_out : has a post ≡ false
    pub a_off : has a (ps ++ (p, u) ∷ []) ≡ false
    pub before_p : Seg cell h p before x ps
    pub back : Seg cell h stop a next post
    pub apart : Apart (ps ++ (p, u) ∷ []) ((a, v) ∷ post)
    pub front :
        (g : Ptr → Option N) (q : Ptr)
        → g p ≡ some (cell (last_addr before ps) q u)
        → ((c : Ptr) → c ≢ a → c ≢ p → has c (ps ++ (p, u) ∷ []) ≡ true → g c ≡ h c)
        → Seg cell g q before x (ps ++ (p, u) ∷ [])
    pub outside :
        (c : Ptr)
        → has c ((ps ++ (p, u) ∷ []) ++ (a, v) ∷ post) ≡ false
        → (c ≢ a) × (c ≢ p) × (has c post ≡ false)

  pub inside :
      (h : Ptr → Option N) (stop before x : Ptr) (ps : Cells) (p u a v : ℕ) (post : Cells)
      → Seg cell h stop before x ((ps ++ (p, u) ∷ []) ++ (a, v) ∷ post)
      → Inside h stop before x ps p u a v post
  inside h stop before x ps p u a v post s =
      let pre = ps ++ (p, u) ∷ [] in
      let k = split cell pre ((a, v) ∷ post) s in
      let n = uncons cell k.back in
      let j = unsnoc cell ps p u k.front in
      let (full, x_in) = head_is_node ps p u k.front in
      let p_in : has p pre ≡ true = has-append p ps ((p, u) ∷ []) ∙ ground arith in
      let p_out : has p ((a, v) ∷ post) ≡ false = k.apart p p_in in
      let a_off : has a pre ≡ false = elim (Bool-cases (has a pre)) [
        | inl i ↦ absurd (ground (arith, k.apart a i))
        | inr o ↦ o
      ] in
      record {
        next = n.next;
        at_p = j.holds ∙ ap (λ y. some (cell (last_addr before ps) y u)) n.same;
        at_a =
            ap h (sym n.same)
            ∙ n.holds
            ∙ ap (λ y. some (cell y n.next v)) (last_addr-append before ps p u);
        p_ne = j.ne_null;
        a_ne = λ e. n.ne_null (n.same ∙ e);
        a_p = λ e. ground (arith, e, p_out);
        start_ne = full;
        a_start = λ e. ground (arith, e, k.apart x x_in);
        p_in = p_in;
        p_out = p_out;
        a_out = subst (λ y. has y post ≡ false) n.same n.out;
        a_off = a_off;
        before_p = j.front;
        back = subst (λ y. Seg cell h stop y n.next post) n.same n.rest;
        apart = k.apart;
        front = λ g q there same.
            snoc cell u
              (frame cell j.front (λ c i.
                let within : has c pre ≡ true = has-append c ps ((p, u) ∷ []) ∙ ground (arith, i) in
                same c (λ e. ground (arith, e, k.apart c within)) (λ e. ground (arith, e, i, j.out))
                  within))
              j.ne_null there j.out;
        outside = λ c out.
            let both : (has c pre || ((c == a) || has c post)) ≡ false =
              sym (has-append c pre ((a, v) ∷ post)) ∙ out in
            (
              λ e. ground (arith, e, both),
              λ e. ground (arith, e, both, p_in),
              ground (arith, both),
            );
      }

-- Three writes, read elsewhere than at the first and the last.
pub only_middle :
    {N : Type 0} (h : Ptr → Option N) (p b a c : Ptr) (x y z : Option N)
    → c ≢ a
    → c ≢ p
    → update (update (update h p x) b y) a z c ≡ update h b y c
unfolding update
only_middle h p b a c x y z ca cp = ground (arith, ca, cp)

pub at_first :
    {N : Type 0} (h : Ptr → Option N) (p b a : Ptr) (x y z : Option N)
    → p ≢ a
    → p ≢ b
    → update (update (update h p x) b y) a z p ≡ x
unfolding update
at_first h p b a x y z pa pb = ground (arith, pa, pb)

pub at_none :
    {N : Type 0} (h : Ptr → Option N) (p b a c : Ptr) (x y z : Option N)
    → c ≢ a
    → c ≢ b
    → c ≢ p
    → update (update (update h p x) b y) a z c ≡ h c
unfolding update
at_none h p b a c x y z ca cb cp = ground (arith, ca, cb, cp)

pub last_addr-behind :
    (q : Ptr) (xs : Cells) (b w : ℕ) (zs : Cells) → last_addr q (xs ++ (b, w) ∷ zs) ≡ last_addr b zs
last_addr-behind q [] b w zs = refl
last_addr-behind q (x ∷ xs) b w zs = last_addr-behind x.0 xs b w zs

pub last_is_node : (b w : ℕ) (zs : Cells) → has (last_addr b zs) ((b, w) ∷ zs) ≡ true
last_is_node b w [] = ground arith
last_is_node b w ((c, v) ∷ zs) = ground (arith, last_is_node c v zs)

pub not_empty : (ps : Cells) (p u : ℕ) (ys : Cells) → (ps ++ (p, u) ∷ []) ++ ys ≢ []
not_empty [] p u ys e = cc e
not_empty (x ∷ ps) p u ys e = cc e
