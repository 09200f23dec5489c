-- ===== src/AddrTable/Remove.antt =====
-- `removeFromAddrTable` of data_structs/addr_table.c.
use mathlib.Core.Path.{subst}
use native.Mathlib.Numerals.{add-one}
use concurrent_server.Base.{
  ℕ, suc, ◌+◌, ◌-◌, ◌^◌, ◌<◌, ◌≡◌, refl, ap, ◌∙◌, List, [], ◌∷◌, ◌++◌, append_assoc, length,
  last_or, ok, some, arith, length-append, pos, to_int,
}
use concurrent_server.AddrTable.{
  Entry, entry, Table, remove_loop, remove_from_addr_table, max_addr_table_size, binary_search,
}
use concurrent_server.AddrTable.Array.{read-append, read-snoc, write-append}
use concurrent_server.AddrTable.Search.{Found, missing, at, binary_search-Found}
use concurrent_server.AddrTable.Spec.{
  Above, zeros, Holds, lookup, erase, Above-erase, lookup-Absent, erase-Absent, lookup-split,
  erase-split,
}

-- The loop moves the entries `ys` down by one; the last of them then stands twice.
remove_loop-append :
    (ys pre : List Entry) (x : Entry) (rest : List Entry) (i : ℕ)
    → length pre ≡ i
    → remove_loop (length ys) (pre ++ x ∷ (ys ++ rest)) i ≡ ok (pre ++ (ys ++ last_or x ys ∷ rest))
unfolding remove_loop
remove_loop-append [] pre x rest i l = refl
remove_loop-append (y ∷ ys) pre x rest i l = rw (
  add-one,
  read-snoc pre x y (ys ++ rest) i l,
  write-append pre x (y ∷ (ys ++ rest)) y i l,
  ← append_assoc pre (y ∷ []) (y ∷ (ys ++ rest)),
  remove_loop-append ys (pre ++ y ∷ []) y rest (suc i)
      (omega (arith, length-append {0} pre (y ∷ []), l)),
  append_assoc pre (y ∷ []) (ys ++ last_or y ys ∷ rest),
)

abbrev zero_entry : Entry
zero_entry = entry 0 0

last_or-zeros :
    (x : Entry) (ys : List Entry) → last_or x (ys ++ zero_entry ∷ zero_entry ∷ []) ≡ zero_entry
last_or-zeros x [] = refl
last_or-zeros x (y ∷ ys) = last_or-zeros y ys

-- The array after the loop, started at the entry `e` with the rounds that the code makes.
remove_loop-zeros :
    (pre post : List Entry) (e : Entry) (m r : ℕ)
    → length post + 2 ≡ r
    → remove_loop r (pre ++ e ∷ (post ++ zeros (suc (suc m)))) (length pre)
      ≡ ok ((pre ++ post) ++ zeros (suc (suc (suc m))))
remove_loop-zeros pre post e m r l =
    let ys = post ++ zero_entry ∷ zero_entry ∷ [] in
    let len : length ys ≡ r =
      omega (arith, length-append {0} post (zero_entry ∷ zero_entry ∷ []), l) in
    subst
      (λ k.
        remove_loop k (pre ++ e ∷ (post ++ zeros (suc (suc m)))) (length pre)
        ≡ ok ((pre ++ post) ++ zeros (suc (suc (suc m)))))
      len
      (rw (
        ← append_assoc post (zero_entry ∷ zero_entry ∷ []) (zeros m),
        remove_loop-append ys pre e (zeros m) (length pre) refl,
        last_or-zeros e post,
        append_assoc post (zero_entry ∷ zero_entry ∷ []) (zero_entry ∷ zeros m),
        ← append_assoc pre post (zeros (suc (suc (suc m)))),
      ))

abbrev Removed : Table → List Entry → ℕ → Type 0
Removed t xs id =
    (t' : Table) × (remove_from_addr_table t id ≡ ok (lookup id xs, t')) × Holds t' (erase id xs)

module _ {t : Table} {xs : List Entry} (h : Holds t xs) (id : ℕ) where
  remove_at :
      (pre post : List Entry) (e : Entry) (m : ℕ)
      → xs ≡ pre ++ e ∷ post
      → e.userid ≡ id
      → binary_search t (to_int id) ≡ ok (some (length pre))
      → max_addr_table_size - length xs ≡ suc (suc m)
      → Removed t xs id
  unfolding remove_from_addr_table
  remove_at pre post e m sp q run more =
      let len : length xs ≡ length pre + suc (length post) =
        ap length sp ∙ length-append pre (e ∷ post) in
      let shape : t.addrs ≡ pre ++ e ∷ (post ++ zeros (suc (suc m))) =
        h.addrs
        ∙ ap (λ n. xs ++ zeros n) more
        ∙ ap (λ l. l ++ zeros (suc (suc m))) sp
        ∙ append_assoc pre (e ∷ post) (zeros (suc (suc m))) in
      let s : Above 0 (pre ++ e ∷ post) = subst (Above 0) sp h.sorted in
      let held : lookup id xs ≡ e.addr_ = rw (sp, ← q) (lookup-split 0 pre e post s) in
      let gone : erase id xs ≡ pre ++ post = rw (sp, ← q) (erase-split 0 pre e post s) in
      let moved = remove_loop-zeros pre post e m (length xs + 1 - length pre) (omega arith) in
      let room : max_addr_table_size - length (pre ++ post) ≡ suc (suc (suc m)) =
        omega (arith, length-append {0} pre post) in
      let fewer : length xs ≡ suc (length (pre ++ post)) =
        omega (arith, length-append {0} pre post) in
      (
        record {
          len = pos (length (pre ++ post));
          addrs = (pre ++ post) ++ zeros (suc (suc (suc m)));
        },
        rw (
          run,
          h.len,
          shape,
          read-append pre e (post ++ zeros (suc (suc m))) (length pre) refl,
          moved,
          fewer,
          held,
        ),
        record { len = rw gone; addrs = rw (gone, room); sorted = Above-erase 0 id xs h.sorted },
      )

  remove_of : length xs + 1 < max_addr_table_size → Found id xs t → Removed t xs id
  unfolding remove_from_addr_table
  remove_of room (missing out run) =
      (t, rw (run, lookup-Absent id xs out), rw (erase-Absent id xs out) h)
  remove_of room (at pre post e sp q run) =
      remove_at pre post e (max_addr_table_size - length xs - 2) sp q run (omega arith)

-- A removal from a table of at most 98 entries succeeds, for every id that is a positive `int`. It
-- returns the address of the id, or NULL, and the table then holds the other entries.
pub remove-Holds :
    {t : Table} {xs : List Entry} (h : Holds t xs) (id : ℕ)
    → 0 < id
    → id < 2 ^ 31
    → length xs + 1 < max_addr_table_size
    → (t' : Table) × (remove_from_addr_table t id ≡ ok (lookup id xs, t')) × Holds t' (erase id xs)
remove-Holds h id k s room = remove_of h id room (binary_search-Found h id k s (omega arith))
