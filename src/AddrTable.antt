-- ===== src/AddrTable.antt =====
-- data_structs/addr_table.c: the table that maps the id of each user online to an address.
-- `addrs` is the static array and `len` the static `addrTable_len`, an `int`. An index out of the
-- array is a fault.
mod Array
pub mod Insert
pub mod Limits
pub mod Remove
pub mod Search
pub mod Spec
use concurrent_server.Base.{
  ℕ, zero, suc, ◌+◌, ◌-◌, ◌/◌, ◌≡◌, refl, Bool, ◌&&◌, Option, none, some, List, ◌∷◌, length,
  get_elem?, set, replicate, ltb, leb, ◌==◌, if◌then◌else◌, ℤ, pos, negsuc, dec, to_int, Outcome,
  ok, fault, ◌>>=◌,
}

abbrev pub max_addr_table_size : ℕ
max_addr_table_size = 100

-- An address; 0 is NULL.
abbrev pub Addr : Type 0
Addr = ℕ

pub record Entry : Type 0 where
  pub userid : ℕ
  pub addr_ : Addr

abbrev pub entry : ℕ → Addr → Entry
entry i a = record { userid = i; addr_ = a }

pub record Table : Type 0 where
  pub len : ℤ
  pub addrs : List Entry

-- The static initialisers: length 0 and an array of zeros.
abbrev pub initial : Table
initial = record { len = pos 0; addrs = replicate max_addr_table_size (entry 0 0) }

unfoldable pub read : List Entry → ℕ → Outcome Entry
read xs i = elim (get_elem? xs i) [ none ↦ fault | some e ↦ ok e ]

unfoldable pub write : List Entry → ℕ → Entry → Outcome (List Entry)
write xs i e = if ltb i (length xs) then ok (set xs i e) else fault

-- The `while` of `binary_search`; `top` is `hi + 1`, which is never negative, and the key is not
-- negative. `none` is the result -1.
unfoldable pub search_loop : ℕ → List Entry → ℕ → ℕ → ℕ → Outcome (Option ℕ)
unfolding read
search_loop zero xs key low top = fault
search_loop (suc fuel) xs key low top =
    let left = search_loop fuel xs key low ((low + (top - 1)) / 2) in
    let right = search_loop fuel xs key ((low + (top - 1)) / 2 + 1) top in
    if ltb low top
    then (do
      e ← read xs ((low + (top - 1)) / 2)
      if e.userid == key
          then ok (some ((low + (top - 1)) / 2))
          else if ltb key e.userid
          then left
          else right)
    else ok none

-- `hi` starts at `addrTable_len`; with a negative length the loop does not start.
unfoldable pub search_from : ℤ → List Entry → ℕ → Outcome (Option ℕ)
unfolding search_loop
search_from (pos n) xs key = search_loop (n + 2) xs key 0 (n + 1)
search_from (negsuc n) xs key = ok none

unfoldable pub binary_search : Table → ℤ → Outcome (Option ℕ)
unfolding search_from
binary_search t (pos key) = search_from t.len t.addrs key
binary_search t (negsuc k) = ok none

-- The `while` of `insertInAddrTable` and the two writes behind it; the argument is `k + 1`.
unfoldable pub insert_loop : ℕ → List Entry → ℕ → Addr → Outcome (List Entry)
unfolding read write
insert_loop zero xs id addr = write xs 0 (entry id addr)
insert_loop (suc k) xs id addr =
    if leb k max_addr_table_size
    then (do
      e ← read xs k
      if ltb id e.userid
          then (do xs' ← write xs (suc k) e; insert_loop k xs' id addr)
          else write xs (suc k) (entry id addr))
    else write xs (suc k) (entry id addr)

unfoldable pub insert_at : ℤ → List Entry → ℕ → Addr → Outcome Table
unfolding insert_loop
insert_at (pos n) xs id addr = do
  xs' ← insert_loop n xs id addr
  ok (record { len = pos (n + 1); addrs = xs' })
insert_at (negsuc n) xs id addr = fault

unfoldable pub insert_in_addr_table : Table → ℕ → Addr → Outcome Table
unfolding insert_at
insert_in_addr_table t id addr = insert_at t.len t.addrs id addr

unfoldable pub get_addr_from_addr_table : Table → ℕ → Outcome Addr
unfolding binary_search read
get_addr_from_addr_table t id = do
  ret ← binary_search t (to_int id)
  elim ret [ none ↦ ok 0 | some i ↦ do e ← read t.addrs i; ok e.addr_ ]

-- The `for` of `removeFromAddrTable`, with the rounds left.
pub remove_loop : ℕ → List Entry → ℕ → Outcome (List Entry)
unfolding read write
remove_loop zero xs i = ok xs
remove_loop (suc rounds) xs i = do
  e ← read xs (i + 1)
  xs' ← write xs i e
  remove_loop rounds xs' (i + 1)

-- The rounds of `for (i = at; i <= len; i++)`.
abbrev rounds_to : ℤ → ℕ → ℕ
rounds_to (pos n) at = n + 1 - at
rounds_to (negsuc n) at = 0

pub remove_from_addr_table : Table → ℕ → Outcome (Addr × Table)
unfolding binary_search read remove_loop
remove_from_addr_table t id = do
  ret ← binary_search t (to_int id)
  elim ret [
    | none ↦ ok (0, t)
    | some at ↦ (do
      hold ← read t.addrs at
      xs ← remove_loop (rounds_to t.len at) t.addrs at
      ok (hold.addr_, record { len = dec t.len; addrs = xs }))
  ]

pub get_addr_table_len : Table → ℤ
get_addr_table_len t = t.len
