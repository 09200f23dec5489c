-- ===== src/Text/Decimal.antt =====
-- `atoi` reads back what `%d` prints.
use mathlib.Core.List.{cons-ne-nil, concat-ne-nil}
use native.Mathlib.Nat.{pow-suc}
use native.Mathlib.Numerals.{add-one}
use concurrent_server.Base.{
  ℕ, zero, suc, ◌+◌, ◌*◌, ◌/◌, ◌%◌, ◌^◌, ◌<◌, ◌≤◌, ◌≡◌, ◌≢◌, refl, sym, ap, ◌∙◌, true, false, [],
  ◌∷◌, ◌++◌, append_assoc, append-nil, arith, ltb, inl, inr, Bool-cases, ℤ, pos, negsuc, IsInt, All,
  All-append,
}
use concurrent_server.Text.Tokens.{Lacks}
use concurrent_server.Text.{Bytes, digits, print_int, read_digits, saturate, as_int, atoi}

abbrev pub IsDigit : ℕ → Type 0
IsDigit c = (b'0' ≤ c) × (c ≤ b'9')

pub digits-IsDigit : (f n : ℕ) → All IsDigit (digits f n)
unfolding digits
digits-IsDigit zero n = tt
digits-IsDigit (suc f) n = elim (Bool-cases (ltb n 10)) [
  | inl last ↦ rw last (ground arith)
  | inr more ↦ rw more (
      All-append IsDigit (digits f (n / 10)) ((b'0' + n % 10) ∷ []) (digits-IsDigit f (n / 10))
        (omega arith))
]

-- Reading the digits of a number in front of a text leaves the number accumulated.
pub read_digits-digits :
    (f n : ℕ) (rest : Bytes) → n < 10 ^ f → read_digits 0 (digits f n ++ rest) ≡ read_digits n rest
unfolding digits read_digits
read_digits-digits zero n rest h = let e : n ≡ 0 = omega arith in rw e
read_digits-digits (suc f) n rest h = elim (Bool-cases (ltb n 10)) [
  | inl last ↦ rw last (ground arith)
  | inr more ↦
      let p : 10 ^ suc f ≡ 10 ^ f * 10 = pow-suc 10 f in
      let ih = read_digits-digits f (n / 10) ((b'0' + n % 10) ∷ rest) (omega arith) in
      rw (more, append_assoc (digits f (n / 10)) ((b'0' + n % 10) ∷ []) rest, ih) (ground arith)
]

digits-ne-nil : (f n : ℕ) → digits (suc f) n ≢ []
unfolding digits
digits-ne-nil f n = elim (Bool-cases (ltb n 10)) [
  | inl last ↦ rw last (cons-ne-nil (b'0' + n) [])
  | inr more ↦ rw more (concat-ne-nil (b'0' + n % 10) (digits f (n / 10)))
]

-- A text of digits is read with no sign.
atoi-digits :
    (w : Bytes) → w ≢ [] → All IsDigit w → atoi w ≡ as_int (saturate false (read_digits 0 w))
unfolding atoi
atoi-digits [] ne h = absurd (ne refl)
atoi-digits (c ∷ w) ne h = ground (arith, h.0)

pub read_digits-all : (n : ℕ) → n < 10 ^ 10 → read_digits 0 (digits 10 n) ≡ n
read_digits-all n h =
    ap (read_digits 0) (sym (append-nil (digits 10 n)))
    ∙ read_digits-digits 10 n [] h
    ∙ unfold read_digits in refl

as_int-saturate_pos : (n : ℕ) → n < 2 ^ 31 → as_int (saturate false n) ≡ pos n
unfolding as_int
as_int-saturate_pos n h = ground arith

as_int-saturate_neg : (n : ℕ) → n < 2 ^ 31 → as_int (saturate true (n + 1)) ≡ negsuc n
unfolding as_int
as_int-saturate_neg n h = rw add-one (ground arith)

atoi-minus : (w : Bytes) → atoi (b'-' ∷ w) ≡ as_int (saturate true (read_digits 0 w))
unfolding atoi
atoi-minus w = refl

-- `atoi` reads every `int` back from its decimal print.
pub atoi-print_int : (z : ℤ) → IsInt z → atoi (print_int z) ≡ z
unfolding print_int
atoi-print_int (pos n) h =
    rw
      (
        atoi-digits (digits 10 n) (digits-ne-nil 9 n) (digits-IsDigit 10 n),
        read_digits-all n (omega arith),
      )
      (as_int-saturate_pos n h)
atoi-print_int (negsuc n) h =
    atoi-minus (digits 10 (n + 1))
    ∙ rw (read_digits-all (n + 1) (omega arith)) (as_int-saturate_neg n h)

-- A printed number is not empty, and holds digits and a minus sign only.
pub print_int-ne-nil : (z : ℤ) → print_int z ≢ []
unfolding print_int
print_int-ne-nil (pos n) = digits-ne-nil 9 n
print_int-ne-nil (negsuc n) = cons-ne-nil b'-' (digits 10 (n + 1))

IsDigit-Lacks : (d : ℕ) (w : Bytes) → b'9' < d → All IsDigit w → Lacks d w
IsDigit-Lacks d [] h a = tt
IsDigit-Lacks d (c ∷ w) h a = (omega (arith, a.0), IsDigit-Lacks d w h a.1)

pub print_int-Lacks : (z : ℤ) (d : ℕ) → b'9' < d → Lacks d (print_int z)
unfolding print_int
print_int-Lacks (pos n) d h = IsDigit-Lacks d (digits 10 n) h (digits-IsDigit 10 n)
print_int-Lacks (negsuc n) d h =
    (omega arith, IsDigit-Lacks d (digits 10 (n + 1)) h (digits-IsDigit 10 (n + 1)))
