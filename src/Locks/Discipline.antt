-- ===== src/Locks/Discipline.antt =====
-- Threads that use what the mutexes guard only under them, and have one at a time.
use concurrent_server.Base.{
  ℕ, ◌≡◌, ◌≢◌, inl, inr, refl, ap, ◌∙◌, sym, Bool-cases, true, Option, none, some, List, [], ◌∷◌,
  ◌==◌, if◌then◌else◌, arith, eq→==, ne→==,
}
use concurrent_server.Locks.{
  Mutex, table_mutex, list_mutex, queue_lock, same_mutex, Event, locks, unlocks, uses, Threads,
  goes_on, owned_by, Step, takes, works, leaves, Reach, here, next, guarded,
}

same_mutex_eq : (m n : Mutex) → same_mutex m n ≡ true → m ≡ n
same_mutex_eq table_mutex table_mutex e = refl
same_mutex_eq table_mutex list_mutex e = absurd (cc e)
same_mutex_eq table_mutex (queue_lock c) e = absurd (cc e)
same_mutex_eq list_mutex table_mutex e = absurd (cc e)
same_mutex_eq list_mutex list_mutex e = refl
same_mutex_eq list_mutex (queue_lock c) e = absurd (cc e)
same_mutex_eq (queue_lock b) table_mutex e = absurd (cc e)
same_mutex_eq (queue_lock b) list_mutex e = absurd (cc e)
same_mutex_eq (queue_lock b) (queue_lock c) e = ap queue_lock (ground (arith, e))

pub same_mutex_self : (m : Mutex) → same_mutex m m ≡ true
same_mutex_self table_mutex = refl
same_mutex_self list_mutex = refl
same_mutex_self (queue_lock b) = eq→== b b refl

-- What a thread that is guarded has when it comes to an event.
has_none :
    (h : Option Mutex) (m : Mutex) (rest : List Event)
    → guarded h (locks m ∷ rest) ≡ true
    → (h ≡ none) × (guarded (some m) rest ≡ true)
unfolding guarded
has_none none m rest e = (refl, e)
has_none (some n) m rest e = absurd (cc e)

has_used :
    (h : Option Mutex) (m : Mutex) (rest : List Event)
    → guarded h (uses m ∷ rest) ≡ true
    → (h ≡ some m) × (guarded h rest ≡ true)
unfolding guarded
has_used none m rest e = absurd (cc e)
has_used (some n) m rest e = (ap some (same_mutex_eq n m (ground (arith, e))), ground (arith, e))

has_left :
    (h : Option Mutex) (m : Mutex) (rest : List Event)
    → guarded h (unlocks m ∷ rest) ≡ true
    → (h ≡ some m) × (guarded none rest ≡ true)
unfolding guarded
has_left none m rest e = absurd (cc e)
has_left (some n) m rest e = (ap some (same_mutex_eq n m (ground (arith, e))), ground (arith, e))

-- Each thread has at most one mutex, which it owns, and is guarded with it.
pub record Disciplined (s : Threads) : Type 0 where
  pub held : ℕ → Option Mutex
  pub owns : (m : Mutex) (i : ℕ) → s.owner m ≡ some i → held i ≡ some m
  pub owned : (i : ℕ) (m : Mutex) → held i ≡ some m → s.owner m ≡ some i
  pub fine : (i : ℕ) → guarded (held i) (s.todo i) ≡ true

pub fine_at :
    (s : Threads) (d : Disciplined s) (i : ℕ) (es : List Event)
    → s.todo i ≡ es
    → guarded (d.held i) es ≡ true
fine_at s d i es e = ap (guarded (d.held i)) (sym e) ∙ d.fine i

-- No mutex is taken, and every thread leaves what it takes.
pub start-Disciplined :
    (s : Threads)
    → ((m : Mutex) → s.owner m ≡ none)
    → ((i : ℕ) → guarded none (s.todo i) ≡ true)
    → Disciplined s
start-Disciplined s free all = record {
  held = λ _. none;
  owns = λ m i e. absurd (cc (free m, e));
  owned = λ i m e. absurd (cc e);
  fine = all;
}

-- A mutex that the change at `m` leaves alone.
elsewhere : (s : Threads) (m n : Mutex) (o : Option ℕ) → n ≢ m → owned_by s m o n ≡ s.owner n
elsewhere s m n o ne = elim (Bool-cases (same_mutex n m)) [
  | inl q ↦ absurd (ne (same_mutex_eq n m q))
  | inr q ↦ rw q refl
]

at_self : (s : Threads) (m n : Mutex) (o : Option ℕ) → n ≡ m → owned_by s m o n ≡ o
at_self s m n o e = rw (ap (λ x. same_mutex x m) e ∙ same_mutex_self m) refl

pub some_eq : {A : Type 0} {x y : A} → some x ≡ some y → x ≡ y
some_eq {x = x} e = ap (λ o. elim o [ none ↦ x | some z ↦ z ]) e

module _ (s : Threads) (d : Disciplined s) (i : ℕ) (m : Mutex) (rest : List Event) where
  taken :
      s.todo i ≡ locks m ∷ rest
      → s.owner m ≡ none
      → Disciplined (record { owner = owned_by s m (some i); todo = goes_on s i rest })
  taken e free =
      let (no_other, later) = has_none (d.held i) m rest (fine_at s d i _ e) in
      record {
        held = λ j. if j == i then some m else d.held j;
        owns = λ n j p. elim (Bool-cases (same_mutex n m)) [
          | inl q ↦
              let same = same_mutex_eq n m q in
              let mine : j ≡ i = sym (some_eq (sym (at_self s m n (some i) same) ∙ p)) in
              rw (eq→== j i mine) (ap some (sym same))
          | inr q ↦
              let other : n ≢ m = λ x. cc (ap (λ y. same_mutex y m) x, same_mutex_self m, q) in
              let was = d.owns n j (sym (elsewhere s m n (some i) other) ∙ p) in
              rw (ne→== j i (λ x. cc (was, ap d.held x, no_other))) was
        ];
        owned = λ j n p. elim (Bool-cases (j == i)) [
          | inl q ↦
              let same : m ≡ n = some_eq (ground (arith, p, q)) in
              at_self s m n (some i) (sym same) ∙ ap some (ground (arith, q))
          | inr q ↦
              let was = d.owned j n (ground (arith, p, q)) in
              elsewhere s m n (some i) (λ x. cc (was, ap s.owner x, free)) ∙ was
        ];
        fine = λ j. elim (Bool-cases (j == i)) [ inl q ↦ rw q later | inr q ↦ rw q (d.fine j) ];
      }

  worked : s.todo i ≡ uses m ∷ rest → Disciplined (record s { todo = goes_on s i rest })
  worked e =
      let (_, later) = has_used (d.held i) m rest (fine_at s d i _ e) in
      record {
        held = d.held;
        owns = d.owns;
        owned = d.owned;
        fine = λ j. elim (Bool-cases (j == i)) [
          | inl q ↦ let here : j ≡ i = ground (arith, q) in rw (q, here) later
          | inr q ↦ rw q (d.fine j)
        ];
      }

  left :
      s.todo i ≡ unlocks m ∷ rest
      → Disciplined (record { owner = owned_by s m none; todo = goes_on s i rest })
  left e =
      let (mine, later) = has_left (d.held i) m rest (fine_at s d i _ e) in
      record {
        held = λ j. if j == i then none else d.held j;
        owns = λ n j p. elim (Bool-cases (same_mutex n m)) [
          | inl q ↦ absurd (cc (at_self s m n none (same_mutex_eq n m q), p))
          | inr q ↦
              let other : n ≢ m = λ x. cc (ap (λ y. same_mutex y m) x, same_mutex_self m, q) in
              let was = d.owns n j (sym (elsewhere s m n none other) ∙ p) in
              rw (ne→== j i (λ x. other (some_eq (sym was ∙ ap d.held x ∙ mine)))) was
        ];
        owned = λ j n p. elim (Bool-cases (j == i)) [
          | inl q ↦ absurd (ground (arith, p, q))
          | inr q ↦
              let was = d.owned j n (ground (arith, p, q)) in
              let off : j ≢ i = λ x. ground (arith, q, x) in
              elsewhere s m n none (λ x. off (some_eq (sym was ∙ ap s.owner x ∙ d.owned i m mine)))
              ∙ was
        ];
        fine = λ j. elim (Bool-cases (j == i)) [ inl q ↦ rw q later | inr q ↦ rw q (d.fine j) ];
      }

Step-Disciplined : {s t : Threads} → Step s t → Disciplined s → Disciplined t
Step-Disciplined {s} (takes i m rest e free) d = taken s d i m rest e free
Step-Disciplined {s} (works i m rest e) d = worked s d i m rest e
Step-Disciplined {s} (leaves i m rest e mine) d = left s d i m rest e

pub Reach-Disciplined : {s t : Threads} → Reach s t → Disciplined s → Disciplined t
Reach-Disciplined here d = d
Reach-Disciplined (next reach step) d = Step-Disciplined step (Reach-Disciplined reach d)

module _ (s : Threads) (d : Disciplined s) where
  -- What comes next is used under its mutex.
  pub uses_own :
      (i : ℕ) (m : Mutex) (rest : List Event) → s.todo i ≡ uses m ∷ rest → s.owner m ≡ some i
  uses_own i m rest e = d.owned i m (has_used (d.held i) m rest (fine_at s d i _ e)).0

  -- A thread that has a mutex can go on.
  holder_goes :
      (i : ℕ) (m : Mutex) (es : List Event)
      → s.todo i ≡ es
      → d.held i ≡ some m
      → (t : Threads) × Step s t
  unfolding guarded
  holder_goes i m [] e h = absurd (cc (ap (λ x. guarded x []) h, fine_at s d i _ e))
  holder_goes i m (locks n ∷ rest) e h =
      absurd (cc (h, (has_none (d.held i) n rest (fine_at s d i _ e)).0))
  holder_goes i m (uses n ∷ rest) e h = (_, works i n rest e)
  holder_goes i m (unlocks n ∷ rest) e h =
      let (mine, _) = has_left (d.held i) n rest (fine_at s d i _ e) in
      (_, leaves i n rest e (d.owned i n mine))

  taker_goes :
      (i : ℕ) (m : Mutex) (rest : List Event) (o : Option ℕ)
      → s.todo i ≡ locks m ∷ rest
      → s.owner m ≡ o
      → (t : Threads) × Step s t
  taker_goes i m rest none e free = (_, takes i m rest e free)
  taker_goes i m rest (some j) e busy = holder_goes j m (s.todo j) refl (d.owns m j busy)

  pub some_goes : (i : ℕ) (es : List Event) → s.todo i ≡ es → es ≢ [] → (t : Threads) × Step s t
  some_goes i [] e more = absurd (more refl)
  some_goes i (locks m ∷ rest) e more = taker_goes i m rest (s.owner m) e refl
  some_goes i (uses m ∷ rest) e more = (_, works i m rest e)
  some_goes i (unlocks m ∷ rest) e more =
      let (mine, _) = has_left (d.held i) m rest (fine_at s d i _ e) in
      (_, leaves i m rest e (d.owned i m mine))
