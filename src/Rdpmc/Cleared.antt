-- ===== src/Rdpmc/Cleared.antt =====
-- The registers that rdpmc-bench/rdpmc-module.c leaves, and the costs that it prints.
use uarch_configure.Common.{ℕ, ◌==◌, ◌||◌, ◌&&◌, not, if◌then◌else◌, Bool}
use uarch_configure.Rdpmc.{Setup, MsrIndex, Registers, put_msr}

abbrev write_unless : ℕ → ℕ → Registers → Registers
write_unless msr val r = if msr == 0 then r else put_msr msr val r

abbrev fixed : MsrIndex → Setup → Registers → Registers
fixed x s r = if s.is_core2 then put_msr x.core_perf_fixed_ctr_ctrl 0 r else r

-- Whether the module writes to a register.
abbrev pub is_used : MsrIndex → Setup → ℕ → Bool
is_used x s k =
    (not (s.msr_evntsel0 == 0) && k == s.msr_evntsel0)
    || (not (s.msr_perfctr0 == 0) && k == s.msr_perfctr0)
    || (not (s.msr_cccr == 0) && k == s.msr_cccr)
    || (s.is_core2 && k == x.core_perf_fixed_ctr_ctrl)

-- The value of a register after the benchmarks: which of the four writes reach it, and the value before.
abbrev after : Bool → Bool → Bool → Bool → ℕ → ℕ → ℕ → ℕ
after c e p f cccr_val evntsel n =
    if f then 0 else if c then cccr_val else if e then evntsel else if p then 0 else n
