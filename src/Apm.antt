-- ===== src/Apm.antt =====
-- amd-apm-read/apm-read.c: the power accumulator and the TDP of AMD processors. A `long long` is
-- its 64-bit pattern, an `unsigned int` a number below 2 ^ 32. A read of a register that fails gives
-- -1, and stands for that pattern.
pub mod Word
pub mod Power
pub mod Tdp
pub mod Run
mod Examples
use uarch_configure.Common.{
  ℕ, ◌+◌, ◌-◌, ◌*◌, ◌/◌, ◌%◌, ◌^◌, ◌==◌, ltb, leb, if◌then◌else◌, ◌&&◌, Bool, true, false, Option,
  none, some, bit_and, bit_or,
}
use uarch_configure.Common.Text.{Text}

-- `main`: the signature of CPUID leaf 1.
unfoldable pub cpu_stepping : ℕ → ℕ
cpu_stepping eax = bit_and eax 0xf

unfoldable pub cpu_model : ℕ → ℕ
cpu_model eax = bit_and (eax / 2 ^ 4) 0xf + bit_and (eax / 2 ^ 16) 0xf * 2 ^ 4

unfoldable pub cpu_family : ℕ → ℕ
cpu_family eax = bit_and (eax / 2 ^ 8) 0xf + bit_and (eax / 2 ^ 20) 0xff

-- Whether `main` goes on, and then whether the processor is an Excavator. `amd` says that the
-- vendor string is "AuthenticAMD".
unfoldable pub select_processor : Bool → ℕ → Option Bool
unfolding cpu_family cpu_model
select_processor amd eax =
    if amd
    then (if ltb (cpu_family eax) 0x15
        then none
        else some (cpu_family eax == 0x15 && leb 0x60 (cpu_model eax)))
    else none
