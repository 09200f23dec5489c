-- ===== src/Recyclable/Laws.antt =====
-- What data_structs/recyclable_fields_array.c relies on: a `normal_queue` is a list of numbers, first in
-- first out.
use concurrent_server.Base.{
  ℕ, suc, ◌+◌, ◌<◌, ◌≡◌, true, false, some, List, [], ◌∷◌, ◌++◌, ◌==◌, if◌then◌else◌, arith,
}
use concurrent_server.Recyclable.{NormalQueue}

abbrev pub count : ℕ → List ℕ → ℕ
count x [] = 0
count x (y ∷ ys) = let rest = count x ys in if x == y then suc rest else rest

-- The list without the first `x`.
abbrev pub erase : ℕ → List ℕ → List ℕ
erase x [] = []
erase x (y ∷ ys) = let rest = erase x ys in if x == y then ys else y ∷ rest

abbrev pub once : ℕ → ℕ → ℕ
once x y = if x == y then 1 else 0

pub count-snoc : (x y : ℕ) (xs : List ℕ) → count x (xs ++ y ∷ []) ≡ count x xs + once x y
count-snoc x y [] = ground arith
count-snoc x y (z ∷ xs) = ground (arith, count-snoc x y xs)

pub count-erase :
    (x y : ℕ) (xs : List ℕ) → 0 < count y xs → count x (erase y xs) + once x y ≡ count x xs
count-erase x y [] some_y = absurd (ground (arith, some_y))
count-erase x y (z ∷ xs) some_y = ground (arith, some_y, count-erase x y xs)

-- The queue as a list, with the oldest number first.
pub record IsFifo (Q : NormalQueue) : Type 0 where
  pub view : Q.Queue → List ℕ
  pub created : view Q.create_normal_queue ≡ []
  pub enqueued : (q : Q.Queue) (x : ℕ) → view (Q.normal_enqueue q x) ≡ view q ++ x ∷ []
  pub removed : (q : Q.Queue) (x : ℕ) → view (Q.normal_remove_node q x).1 ≡ erase x (view q)
  pub empty : (q : Q.Queue) → view q ≡ [] → Q.normal_queue_isempty q ≡ true
  pub filled :
      (q : Q.Queue) (x : ℕ) (xs : List ℕ) → view q ≡ x ∷ xs → Q.normal_queue_isempty q ≡ false
  pub dequeued :
      (q : Q.Queue) (x : ℕ) (xs : List ℕ)
      → view q ≡ x ∷ xs
      → (n : Q.Node) × (q' : Q.Queue) × (Q.normal_dequeue q ≡ (some n, q'))
        × (Q.data_of n ≡ x)
        × (view q' ≡ xs)
