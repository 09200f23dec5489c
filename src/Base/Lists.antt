-- ===== src/Base/Lists.antt =====
-- Lists measured and indexed by native numbers, and predicates over their elements.
use Prim.Native.Nat.{ℕ, zero, suc, ◌+◌, ◌<◌}
use mathlib.Core.Path.{◌≡◌, refl, ap}
use mathlib.Core.List.{List, [], ◌∷◌, ◌++◌}
use mathlib.Core.Option.{Option, none, some}
use native.Mathlib.Omega.{arith}

module _ {ℓ} {A : Type ℓ} where
  abbrev pub length : List A → ℕ
  length [] = 0
  length (x ∷ xs) = suc (length xs)

  abbrev pub get_elem? : List A → ℕ → Option A
  get_elem? [] i = none
  get_elem? (x ∷ xs) zero = some x
  get_elem? (x ∷ xs) (suc i) = get_elem? xs i

  -- A write out of bounds changes nothing.
  abbrev pub set : List A → ℕ → A → List A
  set [] i v = []
  set (x ∷ xs) zero v = v ∷ xs
  set (x ∷ xs) (suc i) v = x ∷ set xs i v

  abbrev pub replicate : ℕ → A → List A
  replicate zero a = []
  replicate (suc n) a = a ∷ replicate n a

  abbrev pub take : ℕ → List A → List A
  take zero xs = []
  take (suc n) [] = []
  take (suc n) (x ∷ xs) = x ∷ take n xs

  abbrev pub drop : ℕ → List A → List A
  drop zero xs = xs
  drop (suc n) [] = []
  drop (suc n) (x ∷ xs) = drop n xs

  -- The last element, or `d`.
  abbrev pub last_or : A → List A → A
  last_or d [] = d
  last_or d (x ∷ xs) = last_or x xs

  pub length-append : (xs ys : List A) → length (xs ++ ys) ≡ length xs + length ys
  length-append [] ys = omega arith
  length-append (x ∷ xs) ys = omega (arith, length-append xs ys)

  pub length-replicate : (n : ℕ) (a : A) → length (replicate n a) ≡ n
  length-replicate zero a = refl
  length-replicate (suc n) a = ap suc (length-replicate n a)

module _ {ℓ} {A : Type ℓ} where
  -- An element behind a prefix stands at the prefix's length.
  pub get_elem?-append :
      (pre : List A) (x : A) (rest : List A) → get_elem? (pre ++ x ∷ rest) (length pre) ≡ some x
  get_elem?-append [] x rest = refl
  get_elem?-append (y ∷ pre) x rest = get_elem?-append pre x rest

  pub set-append :
      (pre : List A) (x : A) (rest : List A) (v : A)
      → set (pre ++ x ∷ rest) (length pre) v ≡ pre ++ v ∷ rest
  set-append [] x rest v = refl
  set-append (y ∷ pre) x rest v = ap (λ t. y ∷ t) (set-append pre x rest v)

module _ {ℓ κ} {A : Type ℓ} (P : A → Type κ) where
  abbrev pub All : List A → Type κ
  All [] = Unit
  All (x ∷ xs) = P x × All xs

  pub All-append : (xs ys : List A) → All xs → All ys → All (xs ++ ys)
  All-append [] ys hx hy = hy
  All-append (x ∷ xs) ys hx hy = (hx.0, All-append xs ys hx.1 hy)

module _ {ℓ} {A : Type ℓ} where
  -- A list that is not empty, as its front and its last element.
  pub snoc_view : (x : A) (xs : List A) → (ys : List A) × (y : A) × (x ∷ xs ≡ ys ++ y ∷ [])
  snoc_view x [] = ([], x, refl)
  snoc_view x (z ∷ xs) = let (ys, y, e) = snoc_view z xs in (x ∷ ys, y, ap (λ t. x ∷ t) e)

  -- An element in the front part, as a split of that part.
  pub get_elem?-split :
      (xs zs : List A) (i : ℕ) (e : A)
      → i < length xs
      → get_elem? (xs ++ zs) i ≡ some e
      → (pre : List A) × (post : List A) × (xs ≡ pre ++ e ∷ post) × (i ≡ length pre)
  get_elem?-split [] zs i e h g = absurd (omega arith)
  get_elem?-split (x ∷ xs) zs zero e h g = ([], xs, ground arith, refl)
  get_elem?-split (x ∷ xs) zs (suc i) e h g =
      let (pre, post, s, l) = get_elem?-split xs zs i e (omega arith) g in
      (x ∷ pre, post, ap (λ t. x ∷ t) s, ap suc l)

  pub get_elem?-lt : (xs : List A) (i : ℕ) → i < length xs → (e : A) × (get_elem? xs i ≡ some e)
  get_elem?-lt [] i h = absurd (omega arith)
  get_elem?-lt (x ∷ xs) zero h = (x, refl)
  get_elem?-lt (x ∷ xs) (suc i) h = get_elem?-lt xs i (omega arith)

  pub length-snoc : (xs : List A) (x : A) → length (xs ++ x ∷ []) ≡ suc (length xs)
  length-snoc [] x = refl
  length-snoc (y ∷ xs) x = ap suc (length-snoc xs x)
