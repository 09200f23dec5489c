-- ===== src/Text.antt =====
-- The functions of the C library on texts that the sources call: `strtok_r` with one delimiter,
-- `atoi`, the conversions `%d` and `%s` of `sprintf`, `snprintf`, `strcpy` and `strncpy`. A text is
-- the list of its bytes, less the zero byte that ends it.
pub mod Decimal
pub mod Printf
pub mod Tokens
use Prim.Native.Char.{code}
use Prim.Native.String.{String}
use concurrent_server.Base.{
  ℕ, zero, suc, ◌+◌, ◌-◌, ◌*◌, ◌/◌, ◌%◌, ◌^◌, Bool, true, false, ◌&&◌, ◌||◌, Option, none, some,
  List, [], ◌∷◌, ◌++◌, length, take, ltb, leb, ◌==◌, if◌then◌else◌, ℤ, pos, negsuc, to_int,
  to_unsigned, Outcome, ok, fault,
}

abbrev pub Bytes : Type 0
Bytes = List ℕ

-- The bytes of a literal.
abbrev pub codes : String → Bytes
codes String.[] = []
codes (String.◌∷◌ c s) = code c ∷ codes s

-- The decimal digits, at most as many as the fuel; ten are enough for a C `int`.
pub digits : ℕ → ℕ → Bytes
digits zero n = []
digits (suc fuel) n =
    let front = digits fuel (n / 10) in
    if ltb n 10 then (b'0' + n) ∷ [] else front ++ (b'0' + n % 10) ∷ []

-- `%d`
unfoldable pub print_int : ℤ → Bytes
unfolding digits
print_int (pos n) = digits 10 n
print_int (negsuc n) = b'-' ∷ digits 10 (n + 1)

pub is_digit : ℕ → Bool
is_digit c = leb b'0' c && leb c b'9'

pub is_space : ℕ → Bool
is_space c = c == 32 || (leb 9 c && leb c 13)

pub read_digits : ℕ → Bytes → ℕ
unfolding is_digit
read_digits acc [] = acc
read_digits acc (c ∷ s) =
    let rest = read_digits (acc * 10 + (c - b'0')) s in if is_digit c then rest else acc

-- `strtol` stops at the ends of a 64-bit `long`, and the conversion to `int` wraps around.
pub saturate : Bool → ℕ → ℤ
saturate false n = pos (if ltb n (2 ^ 63) then n else 2 ^ 63 - 1)
saturate true zero = pos 0
saturate true (suc n) = negsuc (if ltb n (2 ^ 63) then n else 2 ^ 63 - 1)

pub as_int : ℤ → ℤ
unfolding saturate to_int to_unsigned
as_int z = to_int (to_unsigned z)

read_sign : Bytes → ℤ
unfolding read_digits as_int
read_sign [] = pos 0
read_sign (c ∷ s) =
    if c == b'-'
    then as_int (saturate true (read_digits 0 s))
    else if c == b'+'
    then as_int (saturate false (read_digits 0 s))
    else as_int (saturate false (read_digits 0 (c ∷ s)))

unfoldable pub atoi : Bytes → ℤ
unfolding read_sign is_space
atoi [] = pos 0
atoi (c ∷ s) = let rest = atoi s in if is_space c then rest else read_sign (c ∷ s)

-- The token up to the next delimiter, and the text behind that.
pub cut : ℕ → Bytes → Bytes × Bytes
cut d [] = ([], [])
cut d (c ∷ s) = let (w, r) = cut d s in if c == d then ([], s) else (c ∷ w, r)

-- `strtok_r`: it skips the delimiters in front; `none` is NULL. The second part of the result is
-- what the save pointer then points to.
unfoldable pub strtok_r : ℕ → Bytes → Option (Bytes × Bytes)
unfolding cut
strtok_r d [] = none
strtok_r d (c ∷ s) = let rest = strtok_r d s in if c == d then rest else some (cut d (c ∷ s))

-- `snprintf(str, size, …)` keeps `size - 1` bytes of the text.
abbrev pub snprintf : ℕ → Bytes → Bytes
snprintf size s = take (size - 1) s

-- `strcpy` and `sprintf` into a buffer of `size` bytes, with room for the zero byte or a fault.
unfoldable pub strcpy : ℕ → Bytes → Outcome Bytes
strcpy size s = if ltb (length s) size then ok s else fault

-- `strncpy(dest, s, size)` into a buffer of `size` bytes that is then read as a text: a text that
-- fills the buffer is left with no zero byte, and the read runs over its end.
unfoldable pub strncpy : ℕ → Bytes → Outcome Bytes
strncpy size s = if ltb (length s) size then ok s else fault
