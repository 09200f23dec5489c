-- ===== src/Server/Ending.antt =====
-- The shutdown of a server after any clients have come and gone.
use mathlib.Core.Path.{subst}
use concurrent_server.Base.{
  ℕ, suc, ◌≡◌, ◌<◌, ◌⊎◌, ◌++◌, inl, inr, refl, ap, ◌∙◌, sym, Bool, some, [], ◌∷◌, ok, fault, arith,
  pos, length,
}
use concurrent_server.Heap.{Ptr}
use concurrent_server.Heap.Seg.{Cells}
use concurrent_server.Heap.Datum.{datum_of}
use concurrent_server.GenericList.Push.{IsLinked}
use concurrent_server.Server.Accept.{Handler, Server, shutdown_server}
use concurrent_server.Server.Traffic.{Run, Reach}
use concurrent_server.Server.Consistent.{Owns, listed, loose, Consistent}
use concurrent_server.Server.Safe.{Reach-Consistent}
use concurrent_server.Server.Shutdown.{Served, ShutDown, shutdown_server-ends}

module _ {Float : Type 0} where
  -- The thread whose node is first in the list serves the block whose handler owns the node.
  first_serves :
      (s : Server Float) (a v : ℕ) (xs : Cells) (b : Ptr) (h : Handler Float) (begun : Bool)
      → s.handlers b ≡ some h
      → h.tid ≡ a
      → Owns s ((a, v) ∷ xs) b h.tid begun
      → Served s ((a, v) ∷ xs)
  first_serves s a v xs b h begun at_b mine (listed d i (ne, on) _) =
      let same : v ≡ d = ground (arith, i, mine) in
      (
        λ z. ne (sym same ∙ z),
        (h, ap (λ x. s.handlers (s.serves x)) same ∙ ap s.handlers on ∙ at_b, mine),
      )
  first_serves s a v xs b h begun at_b mine (loose d out here own) =
      absurd (ground (arith, out, mine))

  all-Served : (r : Run Float) (q : Consistent r) (xs : Cells) → q.listed ≡ xs → Served r.server xs
  all-Served r q [] e = tt
  all-Served r q ((a, v) ∷ xs) e =
      let found : datum_of a ((a, v) ∷ xs) ≡ some v = ground arith in
      let (b, h, at_b, mine) = q.owners a v (ap (datum_of a) e ∙ found) in
      first_serves r.server a v xs b h (r.begun b) at_b mine
        (subst (λ ys. Owns r.server ys b h.tid (r.begun b)) e (q.nodes b h at_b).1)

  -- What a shutdown comes to: when no thread is counted it closes the socket on which the server listens
  -- and leaves the blocks alone, and otherwise it is a fault.
  abbrev pub Ends : ℕ → ℕ → Server Float → Type 0
  Ends fuel fd s =
      ((s.threads.list_len ≡ pos 0)
        × ((s' : Server Float) × (shutdown_server Float fuel fd s ≡ ok (tt, s'))
            × (s'.closed ≡ s.closed ++ fd ∷ [])
            × (s'.handlers ≡ s.handlers)))
      ⊎ ((n : ℕ) × (s.threads.list_len ≡ pos (suc n)) × (shutdown_server Float fuel fd s ≡ fault))

  Ends-by :
      (fuel fd : ℕ) (s : Server Float) (before : Ptr) (xs : Cells)
      → IsLinked before s.nodes s.threads xs
      → ShutDown fuel fd s xs
      → Ends fuel fd s
  Ends-by fuel fd s before [] is (s', run, closed, _, handlers) =
      inl (is.list_len, (s', run, closed, handlers))
  Ends-by fuel fd s before (x ∷ xs) is faults = inr (length xs, is.list_len, faults)

  -- After any steps in any order from a consistent state, the shutdown, with fuel for one round, ends
  -- cleanly exactly when the list counts no thread: with a thread in the list the clean-up of the first
  -- one reads the node that the shutdown has freed.
  pub Reach-shutdown_server :
      (max_conn fuel fd : ℕ) (r t : Run Float)
      → Reach Float max_conn r t
      → Consistent r
      → 0 < fuel
      → Ends fuel fd t.server
  Reach-shutdown_server max_conn fuel fd r t reach q some_fuel =
      let fit = Reach-Consistent max_conn reach q in
      Ends-by fuel fd t.server fit.before fit.listed fit.linked (
        shutdown_server-ends fuel fd t.server fit.before fit.listed some_fuel fit.linked
          (all-Served t fit fit.listed refl))
