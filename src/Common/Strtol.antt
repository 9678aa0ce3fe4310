-- ===== src/Common/Strtol.antt =====
-- `strtol` and `strtoul` of the C library with base 0, where a `long` has 64 bits: white space, a
-- sign, and a decimal, octal (`0…`) or hexadecimal (`0x…`) number.
use Prim.Native.Nat.{ℕ, ◌+◌, ◌-◌, ◌*◌, ◌%◌, ◌^◌, min}
use mathlib.Core.Bool.{Bool, true, false, ◌&&◌, ◌||◌}
use mathlib.Core.List.{[], ◌∷◌}
use mathlib.Core.Option.{Option, none, some}
use uarch_configure.Common.Tests.{ltb, leb, ◌==◌, if◌then◌else◌}
use uarch_configure.Common.Text.{Text, is_digit, skip_space}

unfoldable pub digit_of : ℕ → ℕ
unfolding is_digit
digit_of c =
    if is_digit c
    then c - b'0'
    else if leb b'a' c && leb c b'z'
    then c - b'a' + 10
    else if leb b'A' c && leb c b'Z'
    then c - b'A' + 10
    else 36

-- The longest run of digits, and the text behind it.
unfoldable pub digits_in : ℕ → ℕ → Text → ℕ × Text
unfolding digit_of
digits_in base acc [] = (acc, [])
digits_in base acc (c ∷ s) =
    let rest = digits_in base (acc * base + digit_of c) s in
    if ltb (digit_of c) base then rest else (acc, c ∷ s)

unfoldable pub number_after_zero : Text → ℕ × Text
unfolding digits_in
number_after_zero [] = (0, [])
number_after_zero (x ∷ []) = digits_in 8 0 (x ∷ [])
number_after_zero (x ∷ h ∷ s) =
    if (x == b'x' || x == b'X') && ltb (digit_of h) 16
    then digits_in 16 0 (h ∷ s)
    else digits_in 8 0 (x ∷ h ∷ s)

-- The magnitude and the text behind the number; `none` where there is no number.
unfoldable pub magnitude : Text → Option (ℕ × Text)
unfolding number_after_zero digits_in is_digit
magnitude [] = none
magnitude (c ∷ s) =
    if c == b'0'
    then some (number_after_zero s)
    else if is_digit c
    then some (digits_in 10 0 (c ∷ s))
    else none

unfoldable pub signed_magnitude : Text → Option (Bool × ℕ × Text)
unfolding magnitude
signed_magnitude [] = none
signed_magnitude (c ∷ s) =
    if c == b'-'
    then elim (magnitude s) [ none ↦ none | some (n, rest) ↦ some (true, n, rest) ]
    else elim (magnitude (if c == b'+' then s else c ∷ s)) [
      | none ↦ none
      | some (n, rest) ↦ some (false, n, rest)
    ]

-- `(unsigned int)strtoul(s, &end, 0)` and `end`; `none` where nothing was converted (`end == s`).
unfoldable pub strtoul : Text → Option (ℕ × Text)
unfolding signed_magnitude skip_space
strtoul s = elim (signed_magnitude (skip_space s)) [
  | none ↦ none
  | some (minus, n, rest) ↦
      if ltb n (2 ^ 64)
      then some ((if minus then (2 ^ 64 - n) % 2 ^ 32 else n % 2 ^ 32), rest)
      else some (2 ^ 32 - 1, rest)
]

-- `(int)strtol(s, &end, 0)` and `end`. Without a conversion the value is 0 and `end` is `s`.
unfoldable pub strtol : Text → ℕ × Text
unfolding signed_magnitude skip_space
strtol s = elim (signed_magnitude (skip_space s)) [
  | none ↦ (0, s)
  | some (minus, n, rest) ↦
      if minus
      then ((2 ^ 64 - min n (2 ^ 63)) % 2 ^ 32, rest)
      else (min n (2 ^ 63 - 1) % 2 ^ 32, rest)
]
