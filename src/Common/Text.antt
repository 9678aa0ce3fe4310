-- ===== src/Common/Text.antt =====
-- C strings as lists of bytes, and what the C library does with them: `isspace`, `isdigit`,
-- `strchr` and `strpbrk`, `atoi`, and `printf`'s `%d`. An `int` is its 32-bit pattern.
use Prim.Native.Nat.{ℕ, zero, suc, ◌+◌, ◌-◌, ◌*◌, ◌/◌, ◌%◌, ◌^◌}
use mathlib.Core.Bool.{Bool, true, false, ◌&&◌, ◌||◌}
use Prim.Native.Char.{code}
use Prim.Native.String.{String}
use mathlib.Core.List.{List, [], ◌∷◌, ◌++◌}
use mathlib.Core.Option.{Option, none, some}
use uarch_configure.Common.Tests.{ltb, leb, ◌==◌, if◌then◌else◌}

abbrev pub Text : Type 0
Text = List ℕ

unfoldable pub is_space : ℕ → Bool
is_space c = c == b' ' || (leb 9 c && leb c 13)

unfoldable pub is_digit : ℕ → Bool
is_digit c = leb b'0' c && leb c b'9'

-- What stands before the first NUL.
unfoldable pub c_string : Text → Text
c_string [] = []
c_string (c ∷ s) = if c == 0 then [] else c ∷ c_string s

-- The text before the first byte that passes the test, and the text after that byte; `none` where
-- no byte passes.
unfoldable pub cut_at : (ℕ → Bool) → Text → Option (Text × Text)
cut_at test [] = none
cut_at test (c ∷ s) =
    if test c
    then some ([], s)
    else elim (cut_at test s) [ none ↦ none | some (front, rest) ↦ some (c ∷ front, rest) ]

unfoldable pub skip_space : Text → Text
skip_space [] = []
skip_space (c ∷ s) = if is_space c then skip_space s else c ∷ s

-- `*s`; 0 at the end of the text.
abbrev pub first : Text → ℕ
first [] = 0
first (c ∷ s) = c

unfoldable pub digits_value : ℕ → Text → ℕ
digits_value acc [] = acc
digits_value acc (c ∷ s) = if is_digit c then digits_value (acc * 10 + (c - b'0')) s else acc

abbrev pub negate32 : ℕ → ℕ
negate32 n = (2 ^ 32 - n % 2 ^ 32) % 2 ^ 32

atoi_signed : Text → ℕ
atoi_signed [] = 0
atoi_signed (c ∷ s) =
    if c == b'-'
    then negate32 (digits_value 0 s)
    else if c == b'+'
    then digits_value 0 s % 2 ^ 32
    else digits_value 0 (c ∷ s) % 2 ^ 32

-- Where the value does not fit an `int` C leaves the result open; here it wraps.
unfoldable pub atoi : Text → ℕ
unfolding atoi_signed skip_space is_space digits_value is_digit
atoi s = atoi_signed (skip_space s)

-- The decimal digits of a number below 10 ^ fuel.
unfoldable pub digits_of : ℕ → ℕ → Text
digits_of zero n = []
digits_of (suc fuel) n =
    let front = digits_of fuel (n / 10) in
    if ltb n 10 then (b'0' + n) ∷ [] else front ++ ((b'0' + n % 10) ∷ [])

-- `%u`: ten digits hold every number of 32 bits.
unfoldable pub print_unsigned : ℕ → Text
unfolding digits_of
print_unsigned n = digits_of 10 n

-- `%d`
unfoldable pub print_int : ℕ → Text
unfolding print_unsigned
print_int n = if ltb n (2 ^ 31) then print_unsigned n else b'-' ∷ print_unsigned (2 ^ 32 - n)

-- A string literal of the source, as its bytes.
abbrev pub codes : String → Text
codes String.[] = []
codes (String.◌∷◌ c s) = code c ∷ codes s

unfoldable pub to_lower : ℕ → ℕ
to_lower c = if leb b'A' c && leb c b'Z' then c + 32 else c

-- `!strcasecmp(a, b)`
unfoldable pub same_text : Text → Text → Bool
unfolding to_lower
same_text [] [] = true
same_text [] (d ∷ t) = false
same_text (c ∷ s) [] = false
same_text (c ∷ s) (d ∷ t) = to_lower c == to_lower d && same_text s t

-- `strcmp(s, t) == 0`
unfoldable pub equal_text : Text → Text → Bool
equal_text [] [] = true
equal_text [] (d ∷ t) = false
equal_text (c ∷ s) [] = false
equal_text (c ∷ s) (d ∷ t) = c == d && equal_text s t
