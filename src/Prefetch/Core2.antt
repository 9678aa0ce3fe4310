-- ===== src/Prefetch/Core2.antt =====
-- The earlier programs core2-prefetch/disable_core2_prefetch.c and enable_core2_prefetch.c, which
-- are one program but for the new value. A file is opened anew to write.
pub mod Same
use uarch_configure.Common.{
  ℕ, zero, suc, ◌+◌, if◌then◌else◌, Bool, true, false, Option, none, some, bit_and, bit_or,
  get_elem?, set,
}
use uarch_configure.Prefetch.{
  Core, OpenError, enxio, eio, other, Machine, M, returns, exits, ◌>>=◌, ◌>>◌, exit_code, store,
}
use uarch_configure.Prefetch.Cores.{core2_mask, core2_unmask}

abbrev pub max_cpus : ℕ
max_cpus = 32

-- Whether `pread` and `pwrite` set `errno` to `EIO` where they fail.
abbrev pub transfer_exit : Bool → ℕ
transfer_exit is_eio = if is_eio then 4 else 127

-- What is done where a file does not open to read: `none` is the `continue`.
abbrev pub open_failed : OpenError → Option ℕ
open_failed enxio = none
open_failed eio = some 3
open_failed other = some 127

-- The read, the change and the write for a core whose file opens.
unfoldable pub change_cpu : Bool → (ℕ → ℕ) → ℕ → Core → M (Unit {0})
change_cpu is_eio new cpu c m =
    if c.readable
    then (if c.writable
        then returns tt (record m { cores = set m.cores cpu (store 0x1a0 (new (c.regs 0x1a0)) c) })
        else exits (transfer_exit is_eio) m)
    else exits (transfer_exit is_eio) m

-- The body of the loop.
unfoldable pub visit_cpu : Bool → (ℕ → ℕ) → ℕ → M (Unit {0})
visit_cpu is_eio new cpu m = elim (get_elem? m.cores cpu) [
  | some c ↦ change_cpu is_eio new cpu c m
  | none ↦ elim (open_failed m.missing) [ none ↦ returns tt m | some code ↦ exits code m ]
]

-- The loop, with the number of rounds that are left.
unfoldable pub visit_cpus : ℕ → ℕ → Bool → (ℕ → ℕ) → M (Unit {0})
visit_cpus zero cpu is_eio new = λ m. returns tt m
visit_cpus (suc rounds) cpu is_eio new = do
  visit_cpu is_eio new cpu
  visit_cpus rounds (cpu + 1) is_eio new

-- `main` of disable_core2_prefetch.c
unfoldable pub disable_core2_prefetch : Bool → M (Unit {0})
disable_core2_prefetch is_eio = visit_cpus max_cpus 0 is_eio (λ data'. bit_or data' core2_mask)

-- `main` of enable_core2_prefetch.c
unfoldable pub enable_core2_prefetch : Bool → M (Unit {0})
enable_core2_prefetch is_eio = visit_cpus max_cpus 0 is_eio (λ data'. bit_and data' core2_unmask)
