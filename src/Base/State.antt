-- ===== src/Base/State.antt =====
-- Commands: functions of a state that give a result and the next state, or fault.
use mathlib.Core.Path.{◌≡◌, refl}
use concurrent_server.Base.Result.{Outcome, ok, fault}

module _ {S : Type 0} where
  abbrev pub pure : {A : Type 0} → A → S → Outcome (A × S)
  pure a s = ok (a, s)

  abbrev pub and_then :
      {A B : Type 0} → Outcome (A × S) → (A → S → Outcome (B × S)) → Outcome (B × S)
  and_then fault k = fault
  and_then (ok (a, s)) k = k a s

  infixl 5 ◌>>=◌ ◌>>◌
  abbrev pub ◌>>=◌ :
      {A B : Type 0} → (S → Outcome (A × S)) → (A → S → Outcome (B × S)) → S → Outcome (B × S)
  m >>= k = λ s. and_then (m s) k

  abbrev pub ◌>>◌ :
      {B : Type 0} → (S → Outcome (Unit {0} × S)) → (S → Outcome (B × S)) → S → Outcome (B × S)
  m >> k = m >>= λ _. k

  -- A fault in a command that ran outside the state.
  abbrev pub lift : {A : Type 0} → Outcome A → S → Outcome (A × S)
  lift (ok a) s = ok (a, s)
  lift fault s = fault

-- A sequence that succeeds does so in both parts.
pub and_then_parts :
    {S A B : Type 0} (r : Outcome (A × S)) (f : A → S → Outcome (B × S)) (x : B × S)
    → and_then r f ≡ ok x
    → (a : A) × (t : S) × (r ≡ ok (a, t)) × (f a t ≡ ok x)
and_then_parts fault f x e = absurd (cc e)
and_then_parts (ok (a, t)) f x e = (a, t, refl, e)
