-- ===== src/AddrTable/Search.antt =====
-- `binary_search` of data_structs/addr_table.c. It starts with `hi` at the length, one past the last
-- entry, so it may read the zero entry that stands there.
use concurrent_server.Base.{
  ℕ, zero, suc, ◌+◌, ◌-◌, ◌/◌, ◌<◌, ◌≤◌, ◌≡◌, ◌≢◌, refl, ap, ◌∙◌, append_assoc, Option, none, some,
  List, [], ◌∷◌, ◌++◌, length, get_elem?, ltb, ◌==◌, ◌^◌, to_int, get_elem?-split, to_int-pos, ok,
  arith, inl, inr, Bool-cases, length-append, length-replicate, get_elem?-lt,
}
use native.Mathlib.Decide.{dec_lt}
use concurrent_server.AddrTable.{
  Entry, entry, Table, search_loop, search_from, binary_search, get_addr_from_addr_table,
  max_addr_table_size,
}
use concurrent_server.AddrTable.Array.{read-append}
use mathlib.Core.Path.{subst}
use concurrent_server.AddrTable.Spec.{
  Above, zeros, Absent, Holds, lookup, lookup-Absent, lookup-split,
}

-- What a search of the positions from `low` up to `top` answers.
abbrev pub Answers : List Entry → ℕ → ℕ → ℕ → Option ℕ → Type 0
Answers arr key low top none =
    (i : ℕ) (e : Entry) → low ≤ i → i < top → get_elem? arr i ≡ some e → e.userid ≢ key
Answers arr key low top (some i) =
    (e : Entry) × (get_elem? arr i ≡ some e) × (e.userid ≡ key) × (i < top)

Above-get :
    (lo : ℕ) (xs zs : List Entry) (i : ℕ) (e : Entry)
    → Above lo xs
    → i < length xs
    → get_elem? (xs ++ zs) i ≡ some e
    → lo < e.userid
Above-get lo [] zs i e a h p = absurd (omega arith)
Above-get lo (x ∷ xs) zs zero e a h p = ground arith
Above-get lo (x ∷ xs) zs (suc i) e a h p =
    omega (arith, Above-get x.userid xs zs i e a.1 (omega arith) p)

-- Of two entries in the sorted part the earlier has the smaller id.
ordered :
    (lo : ℕ) (xs zs : List Entry) (i j : ℕ) (e f : Entry)
    → Above lo xs
    → i < j
    → j < length xs
    → get_elem? (xs ++ zs) i ≡ some e
    → get_elem? (xs ++ zs) j ≡ some f
    → e.userid < f.userid
ordered lo [] zs i j e f a h k p q = absurd (omega arith)
ordered lo (x ∷ xs) zs i zero e f a h k p q = absurd (omega arith)
ordered lo (x ∷ xs) zs zero (suc j) e f a h k p q =
    ground (arith, Above-get x.userid xs zs j f a.1 (omega arith) q)
ordered lo (x ∷ xs) zs (suc i) (suc j) e f a h k p q =
    ordered x.userid xs zs i j e f a.1 (omega arith) (omega arith) p q

-- What stands behind the sorted part is zero.
zero_tail :
    (xs : List Entry) (m i : ℕ) (e : Entry)
    → length xs ≤ i
    → get_elem? (xs ++ zeros m) i ≡ some e
    → e.userid ≡ 0
zero_tail [] zero i e h p = ground arith
zero_tail [] (suc m) zero e h p = ground arith
zero_tail [] (suc m) (suc i) e h p = zero_tail [] m i e (omega arith) p
zero_tail (x ∷ xs) m zero e h p = absurd (omega arith)
zero_tail (x ∷ xs) m (suc i) e h p = zero_tail xs m i e (omega arith) p

module _ (xs : List Entry) (m key : ℕ) (a : Above 0 xs) (k : 0 < key) (room : 0 < m) where
  abbrev arr : List Entry
  arr = xs ++ zeros m

  -- A smaller key is not at `mid` or behind it.
  go_left :
      (low mid top : ℕ) (e : Entry) (r : Option ℕ)
      → get_elem? arr mid ≡ some e
      → key < e.userid
      → mid < top
      → top ≤ length xs + 1
      → Answers arr key low mid r
      → Answers arr key low top r
  go_left low mid top e (some i) p h h' b (f, q, s, t) = (f, q, s, omega arith)
  go_left low mid top e none p h h' b c = λ i f l t q s. elim (dec_lt i mid) [
    | yes before ↦ c i f l before q s
    | no after ↦ elim (dec_lt i (length xs)) [
      | yes inside ↦ elim (dec_lt mid i) [
        | yes lt ↦ absurd (omega (arith, ordered 0 xs (zeros m) mid i e f a lt inside p q))
        | no eq ↦
            let same : i ≡ mid = omega arith in
            let q' : get_elem? arr mid ≡ some f = rw (← same) q in ground arith
      ]
      | no outside ↦ absurd (omega (arith, zero_tail xs m i f (omega arith) q))
    ]
  ]

  -- A greater key is not at `mid` or before it.
  go_right :
      (low mid top : ℕ) (e : Entry) (r : Option ℕ)
      → get_elem? arr mid ≡ some e
      → e.userid < key
      → low ≤ mid
      → (length xs ≤ mid → length xs ≤ low)
      → Answers arr key (mid + 1) top r
      → Answers arr key low top r
  go_right low mid top e (some i) p h l b c = c
  go_right low mid top e none p h l b c = λ i f l' t q s. elim (dec_lt mid i) [
    | yes after ↦ c i f (omega arith) t q s
    | no before ↦ elim (dec_lt mid (length xs)) [
      | yes inside ↦ elim (dec_lt i mid) [
        | yes lt ↦ absurd (omega (arith, ordered 0 xs (zeros m) i mid f e a lt inside q p))
        | no eq ↦
            let same : i ≡ mid = omega arith in
            let q' : get_elem? arr mid ≡ some f = rw (← same) q in ground arith
      ]
      | no outside ↦ absurd (omega (arith, b (omega arith), zero_tail xs m i f (omega arith) q))
    ]
  ]

  -- The loop ends, with no read out of the array, and answers for its interval.
  pub search_loop-Answers :
      (fuel low top : ℕ)
      → low ≤ top
      → top < fuel + low
      → top ≤ length xs + 1
      → (r : Option ℕ) × (search_loop fuel arr key low top ≡ ok r) × Answers arr key low top r
  unfolding search_loop
  search_loop-Answers zero low top l f b = absurd (omega arith)
  search_loop-Answers (suc fuel) low top l f b = elim (dec_lt low top) [
    | no empty ↦ (none, ground arith, λ i e l t. absurd (omega arith))
    | yes more ↦
        let mid = (low + (top - 1)) / 2 in
        let inside : mid < length arr =
          omega (arith, length-append {0} xs (zeros m), length-replicate {0} m (entry 0 0)) in
        let (e, p) = get_elem?-lt arr mid inside in
        let (r, run, ans) =
          search_loop-Answers fuel low mid (omega arith) (omega arith) (omega arith) in
        let (r', run', ans') =
          search_loop-Answers fuel (mid + 1) top (omega arith) (omega arith) b in
        elim (Bool-cases (e.userid == key)) [
          | inl hit ↦ (some mid, ground arith, (e, p, ground arith, omega arith))
          | inr miss ↦ elim (Bool-cases (ltb key e.userid)) [
            | inl less ↦
                (r, ground arith, go_left low mid top e r p (ground arith) (omega arith) b ans)
            | inr greater ↦ (
              r',
              ground arith,
              go_right low mid top e r' p (ground arith) (omega arith) (λ h. omega arith) ans',
            )
          ]
        ]
  ]

-- The two answers of a search of the whole table.
pub data Found (id : ℕ) (xs : List Entry) (t : Table) : Type 0 where
  missing : Absent id xs → binary_search t (to_int id) ≡ ok none → Found id xs t
  at :
      (pre post : List Entry) (e : Entry)
      → xs ≡ pre ++ e ∷ post
      → e.userid ≡ id
      → binary_search t (to_int id) ≡ ok (some (length pre))
      → Found id xs t

-- No entry at an index of the sorted part has the id, so none has.
missing-Absent :
    (id : ℕ) (xs zs : List Entry)
    → ((i : ℕ) (e : Entry) → i < length xs → get_elem? (xs ++ zs) i ≡ some e → e.userid ≢ id)
    → Absent id xs
missing-Absent id [] zs h = tt
missing-Absent id (x ∷ xs) zs h =
    (h 0 x (omega arith) refl, missing-Absent id xs zs λ i e l p. h (suc i) e (omega arith) p)

abbrev IsSearched : List Entry → Table → ℕ → Option ℕ → Type 0
IsSearched xs t id r =
    (binary_search t (to_int id) ≡ ok r)
    × Answers (xs ++ zeros (max_addr_table_size - length xs)) id 0 (length xs + 1) r

module _ {t : Table} {xs : List Entry} (h : Holds t xs) (id : ℕ) (k : 0 < id)
    (s : id < 2 ^ 31) where
  search_run : length xs < max_addr_table_size → (r : Option ℕ) × IsSearched xs t id r
  unfolding binary_search search_from
  search_run room =
      let (r, run, ans) =
        search_loop-Answers xs (max_addr_table_size - length xs) id h.sorted k (omega arith)
          (length xs + 2) 0 (length xs + 1) (omega arith) (omega arith) (omega arith) in
      (r, (rw (to_int-pos id s, h.len, h.addrs, run), ans))

  answer_of : (r : Option ℕ) → IsSearched xs t id r → Found id xs t
  answer_of none (run, ans) =
      missing
        (missing-Absent id xs (zeros (max_addr_table_size - length xs))
          λ i e l p. ans i e (omega arith) (omega arith) p)
        run
  answer_of (some i) (run, (e, p, q, l)) = elim (dec_lt i (length xs)) [
    | yes inside ↦
        let (pre, post, sp, len) =
          get_elem?-split xs (zeros (max_addr_table_size - length xs)) i e inside p in
        at pre post e sp q (run ∙ ap (λ n. ok (some n)) len)
    | no outside ↦
        absurd (omega (arith, zero_tail xs (max_addr_table_size - length xs) i e (omega arith) p))
  ]

  pub binary_search-Found : length xs < max_addr_table_size → Found id xs t
  binary_search-Found room = let (r, run) = search_run room in answer_of r run

  pub get-Found : Found id xs t → get_addr_from_addr_table t id ≡ ok (lookup id xs)
  unfolding get_addr_from_addr_table
  get-Found (missing out run) = rw (run, lookup-Absent id xs out)
  get-Found (at pre post e sp q run) =
      let zs = zeros (max_addr_table_size - length xs) in
      let shape : t.addrs ≡ pre ++ e ∷ (post ++ zs) =
        h.addrs ∙ ap (λ l. l ++ zs) sp ∙ append_assoc pre (e ∷ post) zs in
      let found : lookup e.userid (pre ++ e ∷ post) ≡ e.addr_ =
        lookup-split 0 pre e post (subst (Above 0) sp h.sorted) in
      let found' : lookup id xs ≡ e.addr_ = rw (sp, ← q) found in
      rw (run, shape, read-append pre e (post ++ zs) (length pre) refl, found')

-- A lookup in a table with room answers what the specification does, for every id that is a
-- positive `int`: the address of the id, or NULL where it has no entry.
pub get-lookup :
    {t : Table} {xs : List Entry} (h : Holds t xs) (id : ℕ)
    → 0 < id
    → id < 2 ^ 31
    → length xs < max_addr_table_size
    → get_addr_from_addr_table t id ≡ ok (lookup id xs)
get-lookup h id k s room = get-Found h id k s (binary_search-Found h id k s room)
