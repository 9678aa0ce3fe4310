-- ===== src/Prefetch/Cores.antt =====
-- The four functions of intel-prefetch/intel-prefetch-disable.c that turn the prefetchers off and
-- on, and the CPU models that choose between them.
use uarch_configure.Common.{
  one_of, ℕ, zero, suc, ◌+◌, ◌-◌, ◌%◌, ◌^◌, ◌==◌, if◌then◌else◌, Bool, true, false, Option, none,
  some,
}
use uarch_configure.Common.{[], ◌∷◌, bit_and, bit_or}
use uarch_configure.Common.Text.{Text}
use uarch_configure.Prefetch.{M, returns, ◌>>=◌, ◌>>◌, open_msr, read_msr, write_msr, report}

abbrev pub core2_prefetch_msr : ℕ
core2_prefetch_msr = 0x1a0

abbrev pub nhm_prefetch_msr : ℕ
nhm_prefetch_msr = 0x1a4

-- `result & (1 << bit) ? 'N' : 'Y'`
abbrev pub flag : ℕ → ℕ → ℕ
flag result bit = if bit_and result (2 ^ bit) == 0 then b'Y' else b'N'

abbrev pub nhm_flags : ℕ → Text
nhm_flags r = flag r 0 ∷ flag r 1 ∷ flag r 2 ∷ flag r 3 ∷ []

abbrev pub core2_flags : ℕ → Text
core2_flags r = flag r 9 ∷ flag r 19 ∷ flag r 37 ∷ flag r 39 ∷ []

-- `(1ULL<<9)|(1ULL<<19)|(1ULL<<37)|(1ULL<<39)` and its complement
abbrev pub core2_mask : ℕ
core2_mask = bit_or (bit_or (bit_or (2 ^ 9) (2 ^ 19)) (2 ^ 37)) (2 ^ 39)

abbrev pub core2_unmask : ℕ
core2_unmask = 2 ^ 64 - 1 - core2_mask

-- One round of a loop: report, write, read back, report.
unfoldable pub change_core : ℕ → (ℕ → Text) → (ℕ → ℕ) → ℕ → M (Unit {0})
change_core which flags new core = do
  open_msr core
  old ← read_msr core which
  report core (flags old)
  write_msr core which (new old)
  now ← read_msr core which
  report core (flags now)

-- `for (c = begin; c <= end; c++)`, with the number of rounds.
unfoldable pub change_cores : ℕ → ℕ → (ℕ → M (Unit {0})) → M (Unit {0})
change_cores zero c body = λ m. returns tt m
change_cores (suc rounds) c body = do body c; change_cores rounds (c + 1) body

-- From core 0 to core 1024 where no core is given (-1), else that core alone.
unfoldable pub for_cores : Option ℕ → (ℕ → M (Unit {0})) → M (Unit {0})
unfolding change_cores
for_cores none body = change_cores 1025 0 body
for_cores (some core) body = change_cores 1 core body

-- `result` is an `int` here, the low 32 bits of the register.
unfoldable pub disable_prefetch_nhm : Option ℕ → M (Unit {0})
disable_prefetch_nhm core =
    for_cores core (change_core nhm_prefetch_msr (λ r. nhm_flags (r % 2 ^ 32)) (λ _. 0xf))

unfoldable pub enable_prefetch_nhm : Option ℕ → M (Unit {0})
enable_prefetch_nhm core =
    for_cores core (change_core nhm_prefetch_msr (λ r. nhm_flags (r % 2 ^ 32)) (λ _. 0x0))

unfoldable pub disable_prefetch_core2 : Option ℕ → M (Unit {0})
disable_prefetch_core2 core =
    for_cores core (change_core core2_prefetch_msr core2_flags (λ r. bit_or r core2_mask))

unfoldable pub enable_prefetch_core2 : Option ℕ → M (Unit {0})
enable_prefetch_core2 core =
    for_cores core (change_core core2_prefetch_msr core2_flags (λ r. bit_and r core2_unmask))

-- The `switch` of `detect_cpu`: `some true` for a Core 2, `some false` for the newer ones.
unfoldable pub is_core2 : ℕ → Option Bool
is_core2 model =
    if one_of model (
      26 ∷ 30 ∷ 31 ∷ 46 ∷ 37 ∷ 44 ∷ 47 ∷ 42 ∷ 45 ∷ 58 ∷ 62 ∷ 60 ∷ 69 ∷ 70 ∷ 63 ∷ 61 ∷ 71 ∷ 86 ∷ 79
      ∷ 78 ∷ 94 ∷ 85 ∷ 142 ∷ 158 ∷ [])
    then some false
    else if one_of model (15 ∷ 22 ∷ 23 ∷ 29 ∷ [])
    then some true
    else none

-- What `main` does with the options `-c`, `-d` and `-e` and the detected model. `none` is its
-- return of -1 for an unsupported model.
unfoldable pub run_prefetch : Bool → Option ℕ → Option Bool → M (Option (Unit {0}))
run_prefetch disable core none = λ m. returns none m
run_prefetch disable core (some core2) = do
  if disable
      then (if core2 then disable_prefetch_core2 core else disable_prefetch_nhm core)
      else (if core2 then enable_prefetch_core2 core else enable_prefetch_nhm core)
  λ m. returns (some tt) m
