-- ===== src/AddrTable/Limits.antt =====
-- The functions of data_structs/addr_table.c on every table, also on one with 99 or more entries.
use mathlib.Core.Path.{subst}
use concurrent_server.Base.{
  ℕ, zero, suc, ◌+◌, ◌-◌, ◌/◌, ◌^◌, ◌<◌, ◌≤◌, ◌≡◌, ◌≢◌, refl, ap, ◌∙◌, sym, Option, none, some,
  List, [], ◌∷◌, ◌++◌, length, ltb, pos, minus_one, to_unsigned, to_int, ok, fault, arith, ◌⊎◌, ℤ,
  negsuc, Bool-cases, inl, inr, get_elem?-lt, set, length-append, length-replicate, Outcome,
}
use concurrent_server.AddrTable.{
  Addr, Entry, entry, Table, max_addr_table_size, read, write, search_loop, search_from,
  binary_search, remove_loop, rounds_to, remove_from_addr_table, insert_in_addr_table,
}
use concurrent_server.AddrTable.Spec.{
  Holds, zeros, Absent, insert, erase, lookup, lookup-Absent, length-insert,
}
use concurrent_server.AddrTable.Insert.{insert-Holds, insert-full}
use concurrent_server.AddrTable.Remove.{remove-Holds}
use concurrent_server.AddrTable.Search.{missing, at, binary_search-Found}

-- The loop finds nothing at `top` or behind it.
search_loop-lt :
    (fuel : ℕ) (arr : List Entry) (key low top i : ℕ)
    → search_loop fuel arr key low top ≡ ok (some i)
    → i < top
unfolding search_loop read
search_loop-lt zero arr key low top i e = absurd (cc e)
search_loop-lt (suc fuel) arr key low top i e = ground (
  arith,
  e,
  search_loop-lt fuel arr key low ((low + (top - 1)) / 2) i,
  search_loop-lt fuel arr key ((low + (top - 1)) / 2 + 1) top i,
)

length-set : (xs : List Entry) (i : ℕ) (v : Entry) → length (set xs i v) ≡ length xs
length-set [] i v = refl
length-set (x ∷ xs) zero v = refl
length-set (x ∷ xs) (suc i) v = ap suc (length-set xs i v)

read-past : (arr : List Entry) (i : ℕ) → length arr ≤ i → read arr i ≡ fault
unfolding read
read-past [] i h = refl
read-past (x ∷ arr) zero h = absurd (omega arith)
read-past (x ∷ arr) (suc i) h = read-past arr i (omega arith)

-- A shift whose last round reads behind the array.
remove_loop-past :
    (rounds : ℕ) (arr : List Entry) (i : ℕ)
    → length arr ≤ suc rounds + i
    → remove_loop (suc rounds) arr i ≡ fault
unfolding remove_loop read write
remove_loop-past zero arr i h = ground (arith, read-past arr (i + 1) (omega arith))
remove_loop-past (suc rounds) arr i h = elim (Bool-cases (ltb (i + 1) (length arr))) [
  | inl inside ↦
      let (e, p) = get_elem?-lt arr (i + 1) (ground arith) in
      let rest =
        remove_loop-past rounds (set arr i e) (i + 1) (omega (arith, length-set arr i e, h)) in
      ground (arith, p, inside, rest)
  | inr outside ↦ ground (arith, read-past arr (i + 1) (ground arith))
]

module _ {t : Table} {xs : List Entry} (h : Holds t xs) where
  -- With 99 or more entries the array ends at most one field behind the last of them.
  array_end : max_addr_table_size ≤ length xs + 1 → length t.addrs ≤ length xs + 1
  array_end full =
      let m = max_addr_table_size - length xs in
      let whole : length t.addrs ≡ length (xs ++ zeros m) = ap length h.addrs in
      omega (arith, whole, length-append {0} xs (zeros m), length-replicate {0} m (entry 0 0), full)

  -- An entry found at `i` cannot be removed from such a table.
  remove-past :
      (id i : ℕ)
      → max_addr_table_size ≤ length xs + 1
      → binary_search t (to_int id) ≡ ok (some i)
      → i < length xs + 1
      → remove_from_addr_table t id ≡ fault
  unfolding remove_from_addr_table
  remove-past id i full run below =
      let r = length xs - i in
      let rounds : rounds_to t.len i ≡ suc r = ap (λ z. rounds_to z i) h.len ∙ omega arith in
      ground (arith, run, rounds, remove_loop-past r t.addrs i (omega (arith, array_end full)))

  binary_search-lt : (z : ℤ) (i : ℕ) → binary_search t z ≡ ok (some i) → i < length xs + 1
  unfolding binary_search search_from
  binary_search-lt (pos key) i run =
      search_loop-lt (length xs + 2) t.addrs key 0 (length xs + 1) i
        (rw (← ap (λ l. search_from l t.addrs key) h.len) run)
  binary_search-lt (negsuc key) i run = absurd (cc run)

  unchanged_by :
      (id a : ℕ) (t' : Table) (r : Outcome (Option ℕ))
      → max_addr_table_size ≤ length xs + 1
      → binary_search t (to_int id) ≡ r
      → remove_from_addr_table t id ≡ ok (a, t')
      → t' ≡ t
  unfolding remove_from_addr_table
  unchanged_by id a t' fault full found run = absurd (ground (arith, found, run))
  unchanged_by id a t' (ok none) full found run = ground (arith, found, run)
  unchanged_by id a t' (ok (some i)) full found run =
      absurd (cc (remove-past id i full found (binary_search-lt (to_int id) i found), run))

  -- A removal that succeeds leaves a table of the same kind: either nothing has changed, or the id is
  -- erased. Only a positive `int` can be in the table.
  pub remove-kept :
      (id a : ℕ) (t' : Table)
      → 0 < id
      → id < 2 ^ 31
      → remove_from_addr_table t id ≡ ok (a, t')
      → Holds t' xs ⊎ Holds t' (erase id xs)
  remove-kept id a t' k s run = elim (Bool-cases (ltb (length xs + 1) max_addr_table_size)) [
    | inl room ↦
        let (t1, run1, held) = remove-Holds h id k s (ground arith) in
        let same : t1 ≡ t' = ground (arith, run, run1) in
        inr (subst (λ u. Holds u (erase id xs)) same held)
    | inr full ↦
        inl (subst (λ u. Holds u xs) (sym (unchanged_by id a t' _ (ground arith) refl run)) h)
  ]

  -- A removal of a user who is in a table of 99 entries reads behind the end of the array.
  remove-full :
      (id : ℕ)
      → 0 < id
      → id < 2 ^ 31
      → length xs + 1 ≡ max_addr_table_size
      → lookup id xs ≢ 0
      → remove_from_addr_table t id ≡ fault
  remove-full id k s full there = elim (binary_search-Found h id k s (omega arith)) [
    | missing out run ↦ absurd (there (lookup-Absent id xs out))
    | at pre post e sp q run ↦
        remove-past id (length pre) (omega arith) run
          (binary_search-lt (to_int id) (length pre) run)
  ]

  -- What no test prevents from a table of 99 entries on: the removal of a user who is in it reads behind
  -- the end of the array; and one more user, who is not in it, still gets in, but the next insertion, of
  -- any user, writes behind the end.
  pub overruns_from_99 :
      (id new other : ℕ) (a b : Addr)
      → 0 < id
      → id < 2 ^ 31
      → 0 < new
      → length xs + 1 ≡ max_addr_table_size
      → lookup id xs ≢ 0
      → Absent new xs
      → (remove_from_addr_table t id ≡ fault)
        × ((t' : Table) × (insert_in_addr_table t new a ≡ ok t')
            × Holds t' (insert new a xs)
            × (insert_in_addr_table t' other b ≡ fault))
  overruns_from_99 id new other a b k s k' full there out =
      let (t', run, held, _) = insert-Holds h new a k' out (omega (arith, full)) in
      (
        remove-full id k s full there,
        (t', run, held, insert-full held other b (omega (arith, full, length-insert new a xs))),
      )

  -- An insertion that succeeds had room.
  pub insert-kept :
      (id : ℕ) (a : Addr) (t' : Table)
      → 0 < id
      → Absent id xs
      → insert_in_addr_table t id a ≡ ok t'
      → Holds t' (insert id a xs)
  insert-kept id a t' k out run = elim (Bool-cases (ltb (length xs) max_addr_table_size)) [
    | inl room ↦
        let (t1, run1, held, _) = insert-Holds h id a k out (ground arith) in
        let same : t1 ≡ t' = ground (arith, run, run1) in
        subst (λ u. Holds u (insert id a xs)) same held
    | inr full ↦ absurd (cc (insert-full h id a (ground arith), run))
  ]

-- The id of a block without a user is never found.
pub remove-minus_one : (t : Table) → remove_from_addr_table t (to_unsigned minus_one) ≡ ok (0, t)
unfolding remove_from_addr_table binary_search to_unsigned to_int
remove-minus_one t = refl
