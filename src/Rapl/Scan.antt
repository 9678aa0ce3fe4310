-- ===== src/Rapl/Scan.antt =====
-- How `detect_cpu` of rapl-read/rapl-read.c reads /proc/cpuinfo.
pub mod Cpuinfo
pub mod Processors
use uarch_configure.Common.{
  ℕ, zero, suc, ◌==◌, ◌&&◌, ◌||◌, if◌then◌else◌, Bool, true, false, Option, none, some, List, [],
  ◌∷◌,
}
use uarch_configure.Common.Text.{Text, codes, is_space, is_digit, skip_space, first, atoi}
use uarch_configure.Rapl.{Vendor, intel, amd, other, Msrs, no_msrs, select_model}

-- `!strncmp(s, prefix, strlen(prefix))`
unfoldable pub starts_with : Text → Text → Bool
starts_with [] s = true
starts_with (p ∷ prefix) [] = false
starts_with (p ∷ prefix) (c ∷ s) = p == c && starts_with prefix s

-- The bytes up to white space, and what stands from there on.
unfoldable pub word : Text → Text × Text
unfolding is_space
word [] = ([], [])
word (c ∷ s) = let (w, rest) = word s in if is_space c then ([], c ∷ s) else (c ∷ w, rest)

-- `%*s`, `n` times: what is left, `none` where the text ends before a word.
unfoldable pub skip_words : ℕ → Text → Option Text
unfolding skip_space word
skip_words zero s = some s
skip_words (suc n) s = elim (skip_space s) [
  | [] ↦ none
  | c ∷ rest ↦ skip_words n (word (c ∷ rest)).1
]

-- `%d`: `none` where no number stands there.
abbrev pub starts_int : Text → Bool
starts_int [] = false
starts_int (c ∷ s) = is_digit c || ((c == b'-' || c == b'+') && is_digit (first s))

unfoldable pub scan_int : Text → Option ℕ
scan_int s = if starts_int (skip_space s) then some (atoi (skip_space s)) else none

-- `sscanf` with words that are skipped and then `%d`; the variable stays where it fails.
unfoldable pub scan_number : ℕ → Text → Option ℕ → Option ℕ
scan_number skipped s old = elim (skip_words skipped s) [
  | none ↦ old
  | some rest ↦ elim (scan_int rest) [ none ↦ old | some n ↦ some n ]
]

-- `%*s%*s%s`
unfoldable pub scan_vendor : Text → Option Text → Option Text
scan_vendor s old = elim (skip_words 2 s) [
  | none ↦ old
  | some rest ↦ elim (skip_space rest) [ [] ↦ old | c ∷ cs ↦ some (word (c ∷ cs)).0 ]
]

-- `vendor_string` and `family` are `none` as long as they were not written; `model` is -1 then.
pub record Cpu : Type 0 where
  pub vendor_string : Option Text
  pub vendor : Vendor
  pub family : Option ℕ
  pub model : Option ℕ

abbrev pub no_cpu : Cpu
no_cpu = record { vendor_string = none; vendor = other; family = none; model = none }

-- `none` where the text that is compared was never written.
unfoldable pub vendor_line : Text → Cpu → Option Cpu
unfolding starts_with
vendor_line s c = elim (scan_vendor s c.vendor_string) [
  | none ↦ none
  | some v ↦ some (record c {
    vendor_string = some v;
    vendor =
        if starts_with (codes "AuthenticAMD") v
        then amd
        else if starts_with (codes "GenuineIntel") v
        then intel
        else c.vendor;
  })
]

-- The three tests on a line.
unfoldable pub scan_line : Text → Cpu → Option Cpu
scan_line s c = elim (if starts_with (codes "vendor_i") s then vendor_line s c else some c) [
  | none ↦ none
  | some d ↦ some (record d {
    family = if starts_with (codes "cpu family") s then scan_number 3 s d.family else d.family;
    model = if starts_with (codes "model") s then scan_number 2 s d.model else d.model;
  })
]

unfoldable pub scan_lines : List Text → Cpu → Option Cpu
scan_lines [] c = some c
scan_lines (s ∷ ss) c = elim (scan_line s c) [ none ↦ none | some d ↦ scan_lines ss d ]

-- `fault`: a variable that was never written is used.
pub data Detected : Type 0 where
  fault : Detected
  returns : Option ℕ × Msrs → Detected

-- `family` is looked at for the two vendors only.
unfoldable pub finish_detect : Cpu → Detected
unfolding select_model
finish_detect c = elim c.family [
  | some f ↦ returns (select_model c.vendor f c.model)
  | none ↦ elim c.vendor [ other ↦ returns (select_model other 0 c.model) | _ ↦ fault ]
]

-- The lines are what `fgets` gives; `none` where the file does not open.
unfoldable pub detect_cpu : Option (List Text) → Detected
unfolding scan_lines finish_detect
detect_cpu none = returns (none, no_msrs)
detect_cpu (some ss) = elim (scan_lines ss no_cpu) [ none ↦ fault | some c ↦ finish_detect c ]
