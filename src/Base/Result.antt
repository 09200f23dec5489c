-- ===== src/Base/Result.antt =====
-- The outcome of C code: a result, or a fault, which stands for undefined behaviour (an access out
-- of an array's bounds, through a null or dangling pointer, or of memory never written).

pub data Outcome {ℓ} (A : Type ℓ) : Type ℓ where
  ok : A → Outcome A
  fault : Outcome A

infixl 5 ◌>>=◌
abbrev pub ◌>>=◌ {ℓ κ} : {A : Type ℓ} {B : Type κ} → Outcome A → (A → Outcome B) → Outcome B
ok a >>= f = f a
fault >>= f = fault
