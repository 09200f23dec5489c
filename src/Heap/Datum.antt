-- ===== src/Heap/Datum.antt =====
-- The datum of the node at an address, in a list of nodes.
use concurrent_server.Base.{
  ℕ, ◌≡◌, ◌≢◌, refl, ap, ◌∙◌, Bool-cases, inl, inr, true, false, Option, none, some, [], ◌∷◌, ◌++◌,
  ◌==◌, if◌then◌else◌, arith,
}
use concurrent_server.Heap.{Ptr}
use concurrent_server.Heap.Seg.{Cells, has, Seg, uncons}

abbrev pub datum_of : Ptr → Cells → Option ℕ
datum_of q [] = none
datum_of q ((p, v) ∷ rest) = let later = datum_of q rest in if q == p then some v else later

pub has-datum_of : (q : Ptr) (xs : Cells) (v : ℕ) → datum_of q xs ≡ some v → has q xs ≡ true
has-datum_of q [] v e = absurd (cc e)
has-datum_of q ((p, w) ∷ xs) v e = elim (Bool-cases (q == p)) [
  | inl i ↦ ground (arith, i)
  | inr i ↦ ground (arith, i, has-datum_of q xs v (ground (arith, e, i)))
]

pub datum_of-without :
    (c a v : ℕ) (xs ys : Cells) → c ≢ a → datum_of c (xs ++ ys) ≡ datum_of c (xs ++ (a, v) ∷ ys)
datum_of-without c a v [] ys ne = ground (arith, ne)
datum_of-without c a v ((b, w) ∷ xs) ys ne = rw (datum_of-without c a v xs ys ne) refl

pub datum_of-snoc :
    (c a v : ℕ) (xs : Cells) → c ≢ a → datum_of c (xs ++ (a, v) ∷ []) ≡ datum_of c xs
datum_of-snoc c a v [] ne = ground (arith, ne)
datum_of-snoc c a v ((b, w) ∷ xs) ne = rw (datum_of-snoc c a v xs ne) refl

pub datum_of-last :
    (a v : ℕ) (xs : Cells) → has a xs ≡ false → datum_of a (xs ++ (a, v) ∷ []) ≡ some v
datum_of-last a v [] out = ground arith
datum_of-last a v ((b, w) ∷ xs) out =
    rw (datum_of-last a v xs (ground (arith, out))) (ground (arith, out))

-- A node of a segment is in memory with its datum.
pub datum_of-holds :
    {N : Type 0} (cell : Ptr → Ptr → ℕ → N) (h : Ptr → Option N) (stop prev p : Ptr) (xs : Cells)
    (c v : ℕ)
    → Seg cell h stop prev p xs
    → datum_of c xs ≡ some v
    → (l : Ptr) × (n : Ptr) × (h c ≡ some (cell l n v))
datum_of-holds cell h stop prev p [] c v chain e = absurd (cc e)
datum_of-holds cell h stop prev p ((b, w) ∷ xs) c v chain e =
    let f = uncons cell chain in
    elim (Bool-cases (c == b)) [
      | inl i ↦
          let here : c ≡ p = ground (arith, i, f.same) in
          let same : w ≡ v = ground (arith, e, i) in
          (prev, f.next, ap h here ∙ f.holds ∙ ap (λ x. some (cell prev f.next x)) same)
      | inr i ↦ datum_of-holds cell h stop p f.next xs c v f.rest (ground (arith, e, i))
    ]
