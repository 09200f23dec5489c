-- ===== src/AddrTable/Spec.antt =====
-- The specification of the address table: a list of entries in the strict order of their ids, and
-- the lookup, insertion and removal that the functions of addr_table.c stand for.
use concurrent_server.Base.{
  ℕ, ◌+◌, ◌-◌, ◌<◌, ◌≤◌, ◌≡◌, ◌≢◌, refl, List, [], ◌∷◌, ◌++◌, length, replicate, ltb, ◌==◌,
  if◌then◌else◌, pos, All, arith,
}
use concurrent_server.AddrTable.{Addr, Entry, entry, Table, max_addr_table_size}

-- The ids ascend, and all are greater than `lo`.
abbrev pub Above : ℕ → List Entry → Type 0
Above lo [] = Unit
Above lo (e ∷ xs) = (lo < e.userid) × Above e.userid xs

abbrev pub zeros : ℕ → List Entry
zeros n = replicate n (entry 0 0)

-- The table holds the entries `xs`: they fill the front of the array, and zeros the rest.
pub record Holds (t : Table) (xs : List Entry) : Type 0 where
  pub len : t.len ≡ pos (length xs)
  pub addrs : t.addrs ≡ xs ++ zeros (max_addr_table_size - length xs)
  pub sorted : Above 0 xs

-- The address of an id, 0 where it has none.
unfoldable pub lookup : ℕ → List Entry → Addr
lookup id [] = 0
lookup id (e ∷ xs) = if e.userid == id then e.addr_ else lookup id xs

unfoldable pub insert : ℕ → Addr → List Entry → List Entry
insert id a [] = entry id a ∷ []
insert id a (e ∷ xs) = if ltb id e.userid then entry id a ∷ e ∷ xs else e ∷ insert id a xs

unfoldable pub erase : ℕ → List Entry → List Entry
erase id [] = []
erase id (e ∷ xs) = if e.userid == id then xs else e ∷ erase id xs

abbrev pub Absent : ℕ → List Entry → Type 0
Absent id = All (λ e. e.userid ≢ id)

pub Above-weaken : (lo lo' : ℕ) (xs : List Entry) → lo' ≤ lo → Above lo xs → Above lo' xs
Above-weaken lo lo' [] h a = tt
Above-weaken lo lo' (e ∷ xs) h a = (omega arith, a.1)

-- Every id behind a lower bound is greater than it.
pub Above-Absent : (lo id : ℕ) (xs : List Entry) → id ≤ lo → Above lo xs → Absent id xs
Above-Absent lo id [] h a = tt
Above-Absent lo id (e ∷ xs) h a = (omega arith, Above-Absent e.userid id xs (omega arith) a.1)

pub lookup-Absent : (id : ℕ) (xs : List Entry) → Absent id xs → lookup id xs ≡ 0
unfolding lookup
lookup-Absent id [] h = refl
lookup-Absent id (e ∷ xs) h = ground (arith, h.0, lookup-Absent id xs h.1)

pub erase-Absent : (id : ℕ) (xs : List Entry) → Absent id xs → erase id xs ≡ xs
unfolding erase
erase-Absent id [] h = refl
erase-Absent id (e ∷ xs) h = ground (arith, h.0, erase-Absent id xs h.1)

pub Above-mid :
    (lo : ℕ) (pre : List Entry) (e : Entry) (post : List Entry)
    → Above lo (pre ++ e ∷ post)
    → lo < e.userid
Above-mid lo [] e post a = a.0
Above-mid lo (x ∷ pre) e post a = omega (arith, Above-mid x.userid pre e post a.1)

-- The entry with the id is the only one.
pub lookup-split :
    (lo : ℕ) (pre : List Entry) (e : Entry) (post : List Entry)
    → Above lo (pre ++ e ∷ post)
    → lookup e.userid (pre ++ e ∷ post) ≡ e.addr_
unfolding lookup
lookup-split lo [] e post a = ground arith
lookup-split lo (x ∷ pre) e post a =
    ground (arith, Above-mid x.userid pre e post a.1, lookup-split x.userid pre e post a.1)

pub erase-split :
    (lo : ℕ) (pre : List Entry) (e : Entry) (post : List Entry)
    → Above lo (pre ++ e ∷ post)
    → erase e.userid (pre ++ e ∷ post) ≡ pre ++ post
unfolding erase
erase-split lo [] e post a = ground arith
erase-split lo (x ∷ pre) e post a =
    ground (arith, Above-mid x.userid pre e post a.1, erase-split x.userid pre e post a.1)

pub Above-erase : (lo id : ℕ) (xs : List Entry) → Above lo xs → Above lo (erase id xs)
unfolding erase
Above-erase lo id [] a = tt
Above-erase lo id (e ∷ xs) a =
    ground (arith, Above-weaken e.userid lo xs, Above-erase e.userid id xs a.1)

-- A fresh id keeps the order.
pub Above-insert :
    (lo id : ℕ) (a : Addr) (xs : List Entry)
    → lo < id
    → Above lo xs
    → Absent id xs
    → Above lo (insert id a xs)
unfolding insert
Above-insert lo id a [] h s f = (h, tt)
Above-insert lo id a (e ∷ xs) h s f = ground (arith, f.0, Above-insert e.userid id a xs)

pub length-insert : (id : ℕ) (a : Addr) (xs : List Entry) → length (insert id a xs) ≡ length xs + 1
unfolding insert
length-insert id a [] = omega arith
length-insert id a (e ∷ xs) = ground (arith, length-insert id a xs)

pub length-erase-le : (id : ℕ) (xs : List Entry) → length (erase id xs) ≤ length xs
unfolding erase
length-erase-le id [] = omega arith
length-erase-le id (e ∷ xs) = ground (arith, length-erase-le id xs)

pub lookup-insert :
    (lo id key : ℕ) (a : Addr) (xs : List Entry)
    → Above lo xs
    → Absent id xs
    → lookup key (insert id a xs) ≡ (if id == key then a else lookup key xs)
unfolding lookup insert
lookup-insert lo id key a [] s f = refl
lookup-insert lo id key a (e ∷ xs) s f =
    ground (arith, f.0, lookup-insert e.userid id key a xs s.1 f.1)

pub lookup-erase :
    (lo id key : ℕ) (xs : List Entry)
    → Above lo xs
    → lookup key (erase id xs) ≡ (if id == key then 0 else lookup key xs)
unfolding lookup erase
lookup-erase lo id key [] s = ground arith
lookup-erase lo id key (e ∷ xs) s = ground (
  arith,
  lookup-Absent e.userid xs (Above-Absent e.userid e.userid xs (omega arith) s.1),
  lookup-erase e.userid id key xs s.1,
)
