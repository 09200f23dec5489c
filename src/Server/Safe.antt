-- ===== src/Server/Safe.antt =====
-- The steps of the server before the shutdown, and what threads may rely on after them.
use mathlib.Core.Path.{subst}
use concurrent_server.Base.{
  ℕ, ◌≡◌, ◌⊎◌, inl, inr, refl, ap, ◌∙◌, sym, Bool, Bool-cases, true, Option, none, some, Outcome,
  ok, fault, arith,
}
use concurrent_server.Base.State.{◌>>=◌}
use concurrent_server.Heap.{Ptr, free}
use concurrent_server.ThreadBlock.{ThreadBlock}
use concurrent_server.Server.Accept.{
  Handler, Server, Accepting, get_handler, too_many, init_connection_handler, destroy_block,
  accept_round,
}
use concurrent_server.Server.Connecting.{Succeeds, known, accepted, overtaken}
use concurrent_server.Server.Rounds.{declined}
use concurrent_server.Server.Early.{lost_round, ended_round}
use concurrent_server.Server.Traffic.{
  Run, Lead, behind, ahead, over, has_begun, early_start, Step, connects, declines, registers,
  leaves, Reach, here, next,
}
use concurrent_server.Server.Consistent.{Consistent, destroy_block-Consistent}
use concurrent_server.Server.Coming.{starts, known-Consistent}
use concurrent_server.Server.Registering.{init_connection_handler-Consistent, same-Consistent}

-- A command has one result.
same_result :
    {S A : Type 0} {o : Outcome (A × S)} {x y : A} {s t : S} → o ≡ ok (x, s) → o ≡ ok (y, t) → s ≡ t
same_result {s = s} e f = ap (result s) (sym e ∙ f)
  where
    result : {S A : Type 0} → S → Outcome (A × S) → S
    result s fault = s
    result s (ok (_, t)) = t

present : {A : Type 0} (o : Option A) → (o ≡ none) ⊎ ((x : A) × (o ≡ some x))
present none = inl refl
present (some x) = inr (x, refl)

module _ {Float : Type 0} where
  module _ (max_conn : ℕ) where
    -- A round that starts a thread has one result.
    came :
        (lead : Lead) (s s' : Server Float) (a : Accepting Float) (fd : ℕ) (blk : ThreadBlock Float)
        (closed : Bool)
        → Succeeds s a fd blk closed
        → accept_round Float (early_start Float max_conn lead a.at) a s ≡ ok (true, s')
        → known s a fd blk closed ≡ s'
    came behind s s' a fd blk closed k run = same_result (accepted s a fd blk closed k) run
    came over s s' a fd blk closed k run =
        absurd (cc (ended_round max_conn s a fd blk closed k, run))
    came ahead s s' a fd blk closed k run =
        elim (Bool-cases (too_many Float max_conn s.threads.list_len)) [
          | inl crowded ↦ absurd (cc (lost_round max_conn s a fd blk closed k crowded, run))
          | inr fits ↦ same_result (overtaken s a fd blk closed max_conn k fits) run
        ]

    -- The handler that a command found.
    found :
        {A : Type 0} (s : Server Float) (b : Ptr)
        (f : Handler Float → Server Float → Outcome (A × Server Float)) (x : A) (s' : Server Float)
        → (get_handler Float b >>= f) s ≡ ok (x, s')
        → (h : Handler Float) × (s.handlers b ≡ some h)
    found s b f x s' e = elim (present (s.handlers b)) [
      | inl gone ↦ absurd (ground (arith, gone, e))
      | inr there ↦ there
    ]

    Step-Consistent : (r t : Run Float) → Step Float max_conn r t → Consistent r → Consistent t
    unfolding init_connection_handler destroy_block
    Step-Consistent r t (connects lead a fd blk closed s' k free unused run) q =
        subst
          (λ s. Consistent (record { server = s; begun = starts r.begun a.at (has_begun lead) }))
          (came lead r.server s' a fd blk closed k run)
          (known-Consistent r a fd blk closed q k free unused (has_begun lead))
    Step-Consistent r t (declines lead going a s' k run) q =
        let (threads, handlers, cells, serves) =
          declined (early_start Float max_conn lead) going r.server s' a k run in
        same-Consistent r q s' threads handlers cells serves
    Step-Consistent r t (registers b s' fresh run) q =
        let (h, at_b) = found r.server b _ tt s' run in
        let (s1, run1, fit) = init_connection_handler-Consistent r q b h at_b max_conn fresh in
        subst (λ s. Consistent (record { server = s; begun = starts r.begun b true }))
          (same_result run1 run) fit
    Step-Consistent r t (leaves b s' on run) q =
        let (h, at_b) = found r.server b _ tt s' run in
        let (s1, run1, _, fit) = destroy_block-Consistent r b h q at_b in
        subst (λ s. Consistent (record r { server = s })) (same_result run1 run) fit

    -- Before the shutdown, after any steps in any order from a state that is consistent, also after
    -- threads that started early or were too many: the list of thread ids is linked and counted, every
    -- handler has a node of its own, and this node is in the list or has no links. A round that faults
    -- is no step.
    pub Reach-Consistent :
        {r t : Run Float} → Reach Float max_conn r t → Consistent r → Consistent t
    Reach-Consistent here q = q
    Reach-Consistent (next {q = u} {t} reach step) q =
        Step-Consistent u t step (Reach-Consistent reach q)

    -- In every state that a consistent server reaches before the shutdown, for each handler that is
    -- there: its thread has begun or its `init_connection_handler` succeeds; and the part of its clean-up
    -- that works on the list of thread ids, with the end of the socket and of the block, succeeds and
    -- removes it. The part that works on the address table and on the queue is not in this.
    pub Reach-destroy_block :
        (r t : Run Float) (b : Ptr) (h : Handler Float)
        → Reach Float max_conn r t
        → Consistent r
        → t.server.handlers b ≡ some h
        → ((t.begun b ≡ true)
            ⊎ ((s' : Server Float) × (init_connection_handler Float max_conn b t.server
                  ≡ ok (tt, s'))))
          × ((s' : Server Float) × (destroy_block Float b t.server ≡ ok (tt, s'))
              × (s'.handlers b ≡ none))
    Reach-destroy_block r t b h reach q at_b =
        let fit = Reach-Consistent reach q in
        let (s', run, gone, _) = destroy_block-Consistent t b h fit at_b in
        (
          elim (Bool-cases (t.begun b)) [
            | inl on ↦ inl on
            | inr fresh ↦
                let (s1, run1, _) =
                  init_connection_handler-Consistent t fit b h at_b max_conn fresh in
                inr (s1, run1)
          ],
          (s', run, gone),
        )
