-- ===== src/Rapl/Scan/Processors.antt =====
-- What `detect_cpu` of rapl-read/rapl-read.c finds in the /proc/cpuinfo of an Intel machine.
use uarch_configure.Common.{
  ℕ, suc, ◌+◌, ◌/◌, ◌%◌, ◌^◌, ◌<◌, ◌≡◌, refl, sym, ap, ◌∙◌, arith, ltb, lt→ltb, ltb→lt, Bool-cases,
  inl, inr, true, false, some, [], ◌∷◌, ◌++◌, All,
}
use uarch_configure.Common.Text.{
  Text, codes, is_space, is_digit, skip_space, atoi, digits_of, print_unsigned, print_int,
}
use uarch_configure.Common.Digits.{IsDigit, digits_of-IsDigit, atoi-print_int}
use uarch_configure.Rapl.{intel}
use uarch_configure.Rapl.Scan.{scan_int, Cpu}

abbrev pub found : ℕ → Cpu
found m = record {
  vendor_string = some (codes "GenuineIntel");
  vendor = intel;
  family = some 6;
  model = some m;
}

-- A text that begins with a digit.
StartsWithDigit : Text → Type 0
StartsWithDigit s = (c : ℕ) × (rest : Text) × (s ≡ c ∷ rest) × IsDigit c

StartsWithDigit-snoc :
    (s : Text) (d : ℕ) → All IsDigit s → IsDigit d → StartsWithDigit (s ++ (d ∷ []))
unfolding StartsWithDigit
StartsWithDigit-snoc [] d h e = (d, [], refl, e)
StartsWithDigit-snoc (c ∷ s) d h e = (c, s ++ (d ∷ []), refl, h.0)

digits_of-StartsWithDigit : (fuel n : ℕ) → StartsWithDigit (digits_of (suc fuel) n)
unfolding digits_of
digits_of-StartsWithDigit fuel n = elim (Bool-cases (ltb n 10)) [
  | inl small ↦ rw small (
      unfold StartsWithDigit in (48 + n, [], refl, (omega arith, omega (arith, ltb→lt n 10 small))))
  | inr large ↦ rw large (
      StartsWithDigit-snoc (digits_of fuel (n / 10)) (48 + n % 10) (digits_of-IsDigit fuel (n / 10))
        (omega arith, omega arith))
]

print_int-StartsWithDigit : (m : ℕ) → m < 2 ^ 31 → StartsWithDigit (print_int m)
unfolding print_int print_unsigned
print_int-StartsWithDigit m h = rw (lt→ltb m (2 ^ 31) h) (digits_of-StartsWithDigit 9 m)

digit_tests : (c : ℕ) → IsDigit c → (is_space c ≡ false) × (is_digit c ≡ true)
unfolding is_space is_digit
digit_tests c h = (ground arith, ground arith)

scan_int-digit :
    (c : ℕ) (rest : Text) → IsDigit c → scan_int (b' ' ∷ c ∷ rest) ≡ some (atoi (c ∷ rest))
unfolding scan_int skip_space is_space
scan_int-digit c rest h = let (no_space, digit) = digit_tests c h in rw (no_space, digit) refl

pub scan_int-print_int : (m : ℕ) → m < 2 ^ 31 → scan_int (b' ' ∷ print_int m) ≡ some m
unfolding StartsWithDigit
scan_int-print_int m h =
    let (c, rest, shape, digit) = print_int-StartsWithDigit m h in
    ap (λ s. scan_int (b' ' ∷ s)) shape
    ∙ scan_int-digit c rest digit
    ∙ ap some (ap atoi (sym shape) ∙ atoi-print_int m h)
