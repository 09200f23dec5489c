-- ===== src/Heap/Split.antt =====
-- A linked segment taken apart between two nodes, and put together again.
use concurrent_server.Base.{ℕ, ◌≡◌, ◌∙◌, true, false, Option, [], ◌∷◌, ◌++◌, arith}
use concurrent_server.Heap.{Ptr}
use concurrent_server.Heap.Seg.{Cells, has, has-append, last_addr, Seg, nil, cons}

-- No node of the one is a node of the other.
abbrev pub Apart : Cells → Cells → Type 0
Apart xs ys = (c : Ptr) → has c xs ≡ true → has c ys ≡ false

module _ {N : Type 0} (cell : Ptr → Ptr → ℕ → N) where
  pub record Parts (h : Ptr → Option N) (stop prev p : Ptr) (xs ys : Cells) : Type 0 where
    pub mid : Ptr
    pub front : Seg cell h mid prev p xs
    pub back : Seg cell h stop (last_addr prev xs) mid ys
    pub apart : Apart xs ys

  pub split :
      {h : Ptr → Option N} {stop prev p : Ptr} (xs ys : Cells)
      → Seg cell h stop prev p (xs ++ ys)
      → Parts h stop prev p xs ys
  split {p} [] ys s = record { mid = p; front = nil; back = s; apart = λ c i. ground arith }
  split ((a, v) ∷ xs) ys (cons {q} ne e out s) =
      let k = split xs ys s in
      record {
        mid = k.mid;
        front = cons ne e (ground (arith, has-append a xs ys, out)) k.front;
        back = k.back;
        apart = λ c i. ground (arith, has-append a xs ys, out, k.apart c, i);
      }

  pub join :
      {h : Ptr → Option N} {stop mid prev p : Ptr} {xs : Cells} (ys : Cells)
      → Seg cell h mid prev p xs
      → Seg cell h stop (last_addr prev xs) mid ys
      → Apart xs ys
      → Seg cell h stop prev p (xs ++ ys)
  join ys nil t apart = t
  join ys (cons {p} {xs} ne e out s) t apart =
      cons ne e (has-append p xs ys ∙ ground (arith, out, apart p (ground arith)))
        (join ys s t (λ c i. apart c (ground (arith, i))))
