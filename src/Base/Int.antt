-- ===== src/Base/Int.antt =====
-- Signed numbers, and the 32-bit readings of a C `int` and `unsigned`.
use Prim.Native.Nat.{ℕ, zero, suc, ◌-◌, ◌%◌, ◌^◌, ◌<◌}
use mathlib.Core.Path.{◌≡◌}
use mathlib.Core.Bool.{Bool, true, false}
use native.Mathlib.Omega.{arith}
use concurrent_server.Base.Tests.{ltb, ◌==◌, if◌then◌else◌}

-- `negsuc n` is -(n + 1).
pub data ℤ : Type 0 where
  pos : ℕ → ℤ
  negsuc : ℕ → ℤ

abbrev pub minus_one : ℤ
minus_one = negsuc 0

abbrev pub eqb : ℤ → ℤ → Bool
eqb (pos a) (pos b) = a == b
eqb (pos a) (negsuc b) = false
eqb (negsuc a) (pos b) = false
eqb (negsuc a) (negsuc b) = a == b

-- `a < b`
abbrev pub lt_int : ℤ → ℤ → Bool
lt_int (pos a) (pos b) = ltb a b
lt_int (pos a) (negsuc b) = false
lt_int (negsuc a) (pos b) = true
lt_int (negsuc a) (negsuc b) = ltb b a

-- The `int` with the bits of an `unsigned`.
unfoldable pub to_int : ℕ → ℤ
to_int n = if ltb n (2 ^ 31) then pos n else negsuc (2 ^ 32 - 1 - n)

-- The `unsigned` that an integer is converted to: its value modulo 2^32.
unfoldable pub to_unsigned : ℤ → ℕ
to_unsigned (pos n) = n % 2 ^ 32
to_unsigned (negsuc n) = 2 ^ 32 - 1 - n % 2 ^ 32

-- The values of a C `int`.
abbrev pub IsInt : ℤ → Type 0
IsInt (pos n) = n < 2 ^ 31
IsInt (negsuc n) = n < 2 ^ 31

pub to_unsigned-to_int : (n : ℕ) → n < 2 ^ 32 → to_unsigned (to_int n) ≡ n
unfolding to_int to_unsigned
to_unsigned-to_int n h = ground arith

pub to_int-to_unsigned : (z : ℤ) → IsInt z → to_int (to_unsigned z) ≡ z
unfolding to_int to_unsigned
to_int-to_unsigned (pos n) h = ground arith
to_int-to_unsigned (negsuc n) h = ground arith

pub to_int-IsInt : (n : ℕ) → n < 2 ^ 32 → IsInt (to_int n)
unfolding to_int
to_int-IsInt n h = ground arith

pub to_int-pos : (n : ℕ) → n < 2 ^ 31 → to_int n ≡ pos n
unfolding to_int
to_int-pos n h = ground arith

-- `z + 1` and `z - 1`
abbrev pub inc : ℤ → ℤ
inc (pos n) = pos (suc n)
inc (negsuc zero) = pos 0
inc (negsuc (suc n)) = negsuc n

abbrev pub dec : ℤ → ℤ
dec (pos zero) = negsuc 0
dec (pos (suc n)) = pos n
dec (negsuc n) = negsuc (suc n)
