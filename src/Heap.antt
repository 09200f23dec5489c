-- ===== src/Heap.antt =====
-- The memory that the linked structures of libs/ live in: nodes of one type at addresses, and the
-- data handed to destructors so far. A command faults where the C code has undefined behaviour: a
-- read or write through NULL or at an address that holds no node.
pub mod Seg
pub mod Split
pub mod Inside
pub mod Datum
pub use concurrent_server.Base.State.{pure, and_then, ◌>>=◌, ◌>>◌}
use concurrent_server.Base.{
  ℕ, ◌≡◌, ◌≢◌, refl, Option, none, some, List, [], ◌∷◌, ◌++◌, ◌==◌, if◌then◌else◌, Outcome, ok,
  fault, arith,
}

abbrev pub Ptr : Type 0
Ptr = ℕ

abbrev pub null : Ptr
null = 0

pub record Store (N : Type 0) : Type 0 where
  pub cells : Ptr → Option N
  -- the arguments of the destructor calls, in order
  pub destroyed : List ℕ

abbrev pub Cmd : Type 0 → Type 0 → Type 0
Cmd N A = Store N → Outcome (A × Store N)

module _ {N : Type 0} where
  unfoldable pub update : (Ptr → Option N) → Ptr → Option N → Ptr → Option N
  update h p c a = if a == p then c else h a

  -- The memory with another content at one address.
  abbrev pub put : Store N → Ptr → Option N → Store N
  put s p c = record s { cells = update s.cells p c }

  -- `*p`
  unfoldable pub load : Ptr → Cmd N N
  load p s = if p == null then fault else elim (s.cells p) [ none ↦ fault | some n ↦ ok (n, s) ]

  -- A write of a member of `*p`.
  unfoldable pub modify : Ptr → (N → N) → Cmd N (Unit {0})
  unfolding load
  modify p f = do n ← load p; λ s. ok (tt, put s p (some (f n)))

  -- The node that `malloc` returned at `p`, with its members as they are written first.
  unfoldable pub alloc : Ptr → N → Cmd N (Unit {0})
  alloc p n s = ok (tt, put s p (some n))

  unfoldable pub free : Ptr → Cmd N (Unit {0})
  unfolding load
  free p = do n ← load p; λ s. ok (tt, put s p none)

  -- A call of the destructor.
  unfoldable pub dtor : ℕ → Cmd N (Unit {0})
  dtor d s = ok (tt, record s { destroyed = s.destroyed ++ d ∷ [] })

  module _ (s : Store N) {p : Ptr} {n : N} (e : s.cells p ≡ some n) (ne : p ≢ null) where
    pub load-ok : load p s ≡ ok (n, s)
    unfolding load
    load-ok = ground (arith, e, ne)

    pub modify-ok : (f : N → N) → modify p f s ≡ ok (tt, put s p (some (f n)))
    unfolding modify
    modify-ok f = ground (arith, e, ne)

    pub free-ok : free p s ≡ ok (tt, put s p none)
    unfolding free
    free-ok = ground (arith, e, ne)

  pub update_self : (h : Ptr → Option N) (p : Ptr) (c : Option N) → update h p c p ≡ c
  unfolding update
  update_self h p c = ground arith

  pub update_ne :
      (h : Ptr → Option N) (p : Ptr) (c : Option N) (a : Ptr) → a ≢ p → update h p c a ≡ h a
  unfolding update
  update_ne h p c a ne = ground arith
