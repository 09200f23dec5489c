-- ===== src/AddrTable/Insert.antt =====
-- `insertInAddrTable` of data_structs/addr_table.c.
use concurrent_server.Base.{
  ℕ, zero, suc, ◌+◌, ◌-◌, ◌<◌, ◌≤◌, ◌≡◌, refl, sym, ap, append-nil, fault, ◌∙◌, List, [], ◌∷◌, ◌++◌,
  append_assoc, length, ltb, ok, arith, inl, inr, Bool-cases, length-append, get_elem?-lt,
  snoc_view, le→leb, pos,
}
use concurrent_server.AddrTable.{
  Addr, Entry, entry, Table, read, write, insert_loop, insert_in_addr_table, insert_at,
  max_addr_table_size,
}
use concurrent_server.AddrTable.Array.{read-append, write-append, write-snoc}
use mathlib.Core.Path.{subst}
use concurrent_server.AddrTable.Spec.{
  Above, zeros, Holds, insert, Absent, Above-insert, length-insert, Above-mid,
}

-- An insertion before the last entry.
insert-snoc_lt :
    (id : ℕ) (a : Addr) (pre : List Entry) (y : Entry)
    → id < y.userid
    → insert id a (pre ++ y ∷ []) ≡ insert id a pre ++ y ∷ []
unfolding insert
insert-snoc_lt id a [] y h = ground arith
insert-snoc_lt id a (x ∷ pre) y h = ground (arith, insert-snoc_lt id a pre y h)

-- An insertion behind the last entry.
insert-snoc_ge :
    (lo id : ℕ) (a : Addr) (pre : List Entry) (y : Entry)
    → Above lo (pre ++ y ∷ [])
    → y.userid ≤ id
    → insert id a (pre ++ y ∷ []) ≡ pre ++ y ∷ entry id a ∷ []
unfolding insert
insert-snoc_ge lo id a [] y s h = ground arith
insert-snoc_ge lo id a (x ∷ pre) y s h =
    ground (arith, Above-mid x.userid pre y [] s.1, insert-snoc_ge x.userid id a pre y s.1 h)

Above-front : (lo : ℕ) (pre : List Entry) (y : Entry) → Above lo (pre ++ y ∷ []) → Above lo pre
Above-front lo [] y s = tt
Above-front lo (x ∷ pre) y s = (s.0, Above-front x.userid pre y s.1)

-- One round of the loop, at the last entry `y` before the free field.
insert_round :
    (k : ℕ) (pre : List Entry) (y g : Entry) (post : List Entry) (id : ℕ) (a : Addr)
    → length pre ≡ k
    → k ≤ max_addr_table_size
    → Above 0 (pre ++ y ∷ [])
    → ((g : Entry) (post : List Entry)
        → insert_loop k (pre ++ g ∷ post) id a ≡ ok (insert id a pre ++ post))
    → insert_loop (suc k) ((pre ++ y ∷ []) ++ g ∷ post) id a
      ≡ ok (insert id a (pre ++ y ∷ []) ++ post)
unfolding insert_loop
insert_round k pre y g post id a l b s rest =
    rw (append_assoc pre (y ∷ []) (g ∷ post), le→leb _ _ b, read-append pre y (g ∷ post) k l)
      (elim (Bool-cases (ltb id y.userid)) [
        | inl less ↦ rw (
          less,
          write-snoc pre y g post y k l,
          rest y (y ∷ post),
          insert-snoc_lt id a pre y (ground arith),
          append_assoc (insert id a pre) (y ∷ []) post,
        )
        | inr more ↦ rw (
          more,
          write-snoc pre y g post (entry id a) k l,
          insert-snoc_ge 0 id a pre y s (ground arith),
          append_assoc pre (y ∷ entry id a ∷ []) post,
        )
      ])

-- The entries behind the place move up into the free field `g`, and nothing else changes.
insert_loop-insert :
    (k : ℕ) (pre : List Entry) (g : Entry) (post : List Entry) (id : ℕ) (a : Addr)
    → length pre ≡ k
    → k ≤ max_addr_table_size
    → Above 0 pre
    → insert_loop k (pre ++ g ∷ post) id a ≡ ok (insert id a pre ++ post)
unfolding insert_loop insert
insert_loop-insert zero [] g post id a l b s = write-append [] g post (entry id a) 0 refl
insert_loop-insert zero (x ∷ pre) g post id a l b s = absurd (omega arith)
insert_loop-insert (suc k) [] g post id a l b s = absurd (omega arith)
insert_loop-insert (suc k) (x ∷ xs) g post id a l b s =
    let (pre, y, e) = snoc_view x xs in
    let len : length pre ≡ k = omega (arith, ap length e, length-append {0} pre (y ∷ [])) in
    let s' : Above 0 (pre ++ y ∷ []) = rw (← e) s in
    let done = insert_round k pre y g post id a len (omega arith) s' λ g' post'.
      insert_loop-insert k pre g' post' id a len (omega arith) (Above-front 0 pre y s') in
    subst (λ t. insert_loop (suc k) (t ++ g ∷ post) id a ≡ ok (insert id a t ++ post)) (sym e) done

module _ {t : Table} {xs : List Entry} (h : Holds t xs) (id : ℕ) (a : Addr) where
  insert_run :
      (n : ℕ)
      → max_addr_table_size - length xs ≡ suc n
      → insert_in_addr_table t id a
        ≡ ok (record { len = pos (length xs + 1); addrs = insert id a xs ++ zeros n })
  unfolding insert_in_addr_table insert_at
  insert_run n more = rw (
    h.len,
    h.addrs,
    more,
    insert_loop-insert (length xs) xs (entry 0 0) (zeros n) id a refl (omega arith) h.sorted,
  )

  left_over :
      (n : ℕ)
      → max_addr_table_size - length xs ≡ suc n
      → n ≡ max_addr_table_size - length (insert id a xs)
  left_over n more = omega (arith, length-insert id a xs)

-- An insertion of a positive id that is not in the table, with a field to spare, succeeds. The
-- table then holds the one new entry besides the old ones, in the order of the ids, and the length
-- has grown by 1.
pub insert-Holds :
    {t : Table} {xs : List Entry} (h : Holds t xs) (id : ℕ) (a : Addr)
    → 0 < id
    → Absent id xs
    → length xs < max_addr_table_size
    → (t' : Table) × (insert_in_addr_table t id a ≡ ok t')
      × Holds t' (insert id a xs)
      × (t'.len ≡ pos (length xs + 1))
insert-Holds {t} {xs} h id a k out room =
    let n = max_addr_table_size - length xs - 1 in
    let more : max_addr_table_size - length xs ≡ suc n = omega arith in
    (
      record { len = pos (length xs + 1); addrs = insert id a xs ++ zeros n },
      insert_run h id a n more,
      record {
        len = rw (length-insert id a xs);
        addrs = ap (λ m. insert id a xs ++ zeros m) (left_over h id a n more);
        sorted = Above-insert 0 id a xs k h.sorted out;
      },
      refl,
    )

write-full : (arr : List Entry) (k : ℕ) (v : Entry) → length arr ≡ k → write arr k v ≡ fault
unfolding write
write-full arr k v e = ground (arith, e)

-- With the whole array in use the first write is already behind its end.
insert_loop-full :
    (k : ℕ) (arr : List Entry) (id : ℕ) (a : Addr) → length arr ≡ k → insert_loop k arr id a ≡ fault
unfolding insert_loop read
insert_loop-full zero arr id a e = write-full arr 0 (entry id a) e
insert_loop-full (suc k) arr id a e =
    let (y, got) = get_elem?-lt arr k (omega arith) in
    ground (arith, got, write-full arr (suc k) y e, write-full arr (suc k) (entry id a) e)

-- An insertion into a full table, of 100 entries or more, writes behind the end of the array.
pub insert-full :
    {t : Table} {xs : List Entry} (h : Holds t xs) (id : ℕ) (a : Addr)
    → max_addr_table_size ≤ length xs
    → insert_in_addr_table t id a ≡ fault
unfolding insert_in_addr_table insert_at
insert-full {t} {xs} h id a full =
    let none_left : max_addr_table_size - length xs ≡ 0 = omega arith in
    let whole : length t.addrs ≡ length xs =
      ap length (h.addrs ∙ ap (λ n. xs ++ zeros n) none_left ∙ append-nil xs) in
    rw (h.len, insert_loop-full (length xs) t.addrs id a whole)
