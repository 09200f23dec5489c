-- ===== src/AddrTable/Array.antt =====
-- Reads and writes of the array `addrs` behind a known front part.
use concurrent_server.Base.{
  ℕ, suc, ◌<◌, ◌≡◌, sym, ap, ◌∙◌, List, [], ◌∷◌, ◌++◌, append_assoc, length, ok, arith,
  length-append, get_elem?, get_elem?-append, set-append, lt→ltb,
}
use concurrent_server.AddrTable.{Entry, read, write}

pub read-append :
    (pre : List Entry) (y : Entry) (post : List Entry) (k : ℕ)
    → length pre ≡ k
    → read (pre ++ y ∷ post) k ≡ ok y
unfolding read
read-append pre y post k l =
    ground (arith, ap (λ n. get_elem? (pre ++ y ∷ post) n) l, get_elem?-append pre y post)

pub write-append :
    (pre : List Entry) (y : Entry) (post : List Entry) (v : Entry) (k : ℕ)
    → length pre ≡ k
    → write (pre ++ y ∷ post) k v ≡ ok (pre ++ v ∷ post)
unfolding write
write-append pre y post v k l =
    let inside : length pre < length (pre ++ y ∷ post) =
      omega (arith, length-append {0} pre (y ∷ post)) in
    rw (← l, lt→ltb _ _ inside, set-append pre y post v)

pub read-snoc :
    (pre : List Entry) (y z : Entry) (post : List Entry) (k : ℕ)
    → length pre ≡ k
    → read (pre ++ y ∷ z ∷ post) (suc k) ≡ ok z
read-snoc pre y z post k l =
    ap (λ t. read t (suc k)) (sym (append_assoc pre (y ∷ []) (z ∷ post)))
    ∙ read-append (pre ++ y ∷ []) z post (suc k) (omega (arith, length-append {0} pre (y ∷ [])))

pub write-snoc :
    (pre : List Entry) (y z : Entry) (post : List Entry) (v : Entry) (k : ℕ)
    → length pre ≡ k
    → write (pre ++ y ∷ z ∷ post) (suc k) v ≡ ok (pre ++ y ∷ v ∷ post)
write-snoc pre y z post v k l =
    ap (λ t. write t (suc k) v) (sym (append_assoc pre (y ∷ []) (z ∷ post)))
    ∙ write-append (pre ++ y ∷ []) z post v (suc k) (omega (arith, length-append {0} pre (y ∷ [])))
    ∙ ap ok (append_assoc pre (y ∷ []) (v ∷ post))
