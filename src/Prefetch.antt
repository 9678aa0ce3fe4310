-- ===== src/Prefetch.antt =====
-- intel-prefetch/intel-prefetch-disable.c: the machine as the program meets it through
-- /dev/cpu/N/msr, and the calls that open, read and write such a file.
pub mod Cores
pub mod Bits
pub mod Loops
pub mod Core2
pub mod Start
mod Examples
use uarch_configure.Common.{ℕ, ◌==◌, ◌≡◌, if◌then◌else◌, Bool, true, false, Option, none, some}
use uarch_configure.Common.{List, [], ◌∷◌, ◌++◌, get_elem?, set}
use uarch_configure.Common.Text.{Text}

-- The `errno` of a failed `open`.
pub data OpenError : Type 0 where
  enxio eio other : OpenError

-- A core whose file opens: whether `pread` and `pwrite` of eight bytes succeed, and its registers.
pub record Core : Type 0 where
  pub readable : Bool
  pub writable : Bool
  pub regs : ℕ → ℕ

-- What the `printf` of a core shows: 'N' or 'Y' for each prefetcher.
pub record Report : Type 0 where
  pub core : ℕ
  pub flags : Text

-- The cores by number; `missing` is what opening any other file gives.
pub record Machine : Type 0 where
  pub cores : List Core
  pub missing : OpenError
  pub reports : List Report

pub data Outcome {ℓ} (A : Type ℓ) : Type ℓ where
  returns : A → Machine → Outcome A
  exits : ℕ → Machine → Outcome A

abbrev pub M {ℓ} : Type ℓ → Type ℓ
M A = Machine → Outcome A

infixl 5 ◌>>=◌ ◌>>◌
abbrev pub ◌>>=◌ {ℓ κ} : {A : Type ℓ} {B : Type κ} → M A → (A → M B) → M B
◌>>=◌ m f s = elim (m s) [ returns a s' ↦ f a s' | exits code s' ↦ exits code s' ]

abbrev pub ◌>>◌ {ℓ κ} : {A : Type ℓ} {B : Type κ} → M A → M B → M B
m >> k = m >>= λ _. k

abbrev pub exit_code : OpenError → ℕ
exit_code enxio = 2
exit_code eio = 3
exit_code other = 127

-- `open_msr`: it exits where `open` fails.
unfoldable pub open_msr : ℕ → M Core
open_msr core m = elim (get_elem? m.cores core) [
  | none ↦ exits (exit_code m.missing) m
  | some c ↦ returns c m
]

unfoldable pub read_msr : ℕ → ℕ → M ℕ
unfolding open_msr
read_msr core which = do
  c ← open_msr core
  if c.readable then (λ m. returns (c.regs which) m) else (λ m. exits 127 m)

abbrev pub store : ℕ → ℕ → Core → Core
store which value c = record c { regs = λ r. if r == which then value else c.regs r }

unfoldable pub write_msr : ℕ → ℕ → ℕ → M (Unit {0})
unfolding open_msr
write_msr core which value = do
  c ← open_msr core
  if c.writable
      then (λ m. returns tt (record m { cores = set m.cores core (store which value c) }))
      else (λ m. exits 127 m)

abbrev pub report : ℕ → Text → M (Unit {0})
report core flags m =
    returns tt (record m { reports = m.reports ++ (record { core = core; flags = flags } ∷ []) })
