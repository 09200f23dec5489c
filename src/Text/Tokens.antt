-- ===== src/Text/Tokens.antt =====
-- `strtok_r` on a text of fields with delimiters between them.
use concurrent_server.Base.{ℕ, ◌≡◌, ◌≢◌, refl, some, [], ◌∷◌, ◌++◌, arith, All}
use concurrent_server.Text.{Bytes, cut, strtok_r}

-- The text does not hold the byte.
abbrev pub Lacks : ℕ → Bytes → Type 0
Lacks d = All (λ c. c ≢ d)

cut-append : (d : ℕ) (w rest : Bytes) → Lacks d w → cut d (w ++ d ∷ rest) ≡ (w, rest)
unfolding cut
cut-append d [] rest h = ground arith
cut-append d (c ∷ w) rest h = ground (arith, h.0, cut-append d w rest h.1)

-- A field that is not empty and lacks the delimiter is the next token.
pub strtok_r-append :
    (d : ℕ) (w rest : Bytes) → w ≢ [] → Lacks d w → strtok_r d (w ++ d ∷ rest) ≡ some (w, rest)
unfolding strtok_r
strtok_r-append d [] rest ne h = absurd (ne refl)
strtok_r-append d (c ∷ w) rest ne h = ground (arith, h.0, cut-append d w rest h.1)

-- A delimiter in front is skipped.
pub strtok_r-skip : (d : ℕ) (s : Bytes) → strtok_r d (d ∷ s) ≡ strtok_r d s
unfolding strtok_r
strtok_r-skip d s = ground arith

cut-all : (d : ℕ) (w : Bytes) → Lacks d w → cut d w ≡ (w, [])
unfolding cut
cut-all d [] h = refl
cut-all d (c ∷ w) h = ground (arith, h.0, cut-all d w h.1)

-- A text that is not empty and lacks the delimiter is one token.
pub strtok_r-whole : (d : ℕ) (w : Bytes) → w ≢ [] → Lacks d w → strtok_r d w ≡ some (w, [])
unfolding strtok_r
strtok_r-whole d [] ne h = absurd (ne refl)
strtok_r-whole d (c ∷ w) ne h = ground (arith, h.0, cut-all d w h.1)
