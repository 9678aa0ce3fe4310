-- ===== src/Rdpmc.antt =====
-- rdpmc-bench/rdpmc-module.c: a kernel module that measures what accesses of the counters cost. What the
-- time stamp counter shows is an argument, and so are the numbers of the registers that the kernel's
-- headers give.
pub mod Cleared
mod Examples
use uarch_configure.Common.{
  ℕ, ◌+◌, ◌-◌, ◌*◌, ◌/◌, ◌%◌, ◌^◌, ◌==◌, not, if◌then◌else◌, Bool, true, false, Option, none, some,
  List, [], ◌∷◌, ◌++◌, bit_or,
}

-- What `run` is called with.
pub data Benchmark : Type 0 where
  rdtsc rdcr4 wrcr4 sync_core empty_loop : Benchmark
  rdpmc rdmsr : ℕ → Benchmark
  wrmsr : ℕ → ℕ → Benchmark

-- The arguments of `measure_overheads`.
pub record Setup : Type 0 where
  pub msr_evntsel0 : ℕ
  pub evntsel0 : ℕ
  pub msr_perfctr0 : ℕ
  pub msr_cccr : ℕ
  pub cccr_val : ℕ
  pub is_core2 : Bool

-- The numbers of registers from the kernel's headers.
pub record MsrIndex : Type 0 where
  pub p6_evntsel0 : ℕ
  pub p6_perfctr0 : ℕ
  pub p4_cru_escr0 : ℕ
  pub p4_iq_cccr0 : ℕ
  pub k7_evntsel0 : ℕ
  pub k7_perfctr0 : ℕ
  pub core_perf_fixed_ctr_ctrl : ℕ

abbrev pub when : ℕ → Benchmark → Option Benchmark
when n b = if n == 0 then none else some b

abbrev pub core2_pmc_fixed_ctr0 : ℕ
core2_pmc_fixed_ctr0 = bit_or (2 ^ 30) 0

-- `ticks[0]` to `ticks[13]` in order, `none` where 0 is stored without a run.
unfoldable pub benchmarks : MsrIndex → Setup → List (Option Benchmark)
benchmarks x s =
    some rdtsc
    ∷ some (rdpmc 1)
    ∷ when s.msr_perfctr0 (rdmsr s.msr_perfctr0)
    ∷ when s.msr_evntsel0 (rdmsr s.msr_evntsel0)
    ∷ when s.msr_perfctr0 (wrmsr s.msr_perfctr0 0)
    ∷ when s.msr_evntsel0 (wrmsr s.msr_evntsel0 s.evntsel0)
    ∷ some rdcr4
    ∷ some wrcr4
    ∷ when s.msr_cccr (rdpmc 0x80000001)
    ∷ when s.msr_cccr (rdmsr s.msr_cccr)
    ∷ when s.msr_cccr (wrmsr s.msr_cccr s.cccr_val)
    ∷ some sync_core
    ∷ (if s.is_core2 then some (rdpmc core2_pmc_fixed_ctr0) else none)
    ∷ (if s.is_core2 then some (wrmsr x.core_perf_fixed_ctr_ctrl 0) else none)
    ∷ []

-- The registers by their numbers.
abbrev pub Registers : Type 0
Registers = ℕ → ℕ

abbrev pub put_msr : ℕ → ℕ → Registers → Registers
put_msr msr val r k = if k == msr then val else r k

-- `if( msr ) wrmsr(msr, 0, 0);`
abbrev pub clear_msr : ℕ → Registers → Registers
clear_msr msr r = if msr == 0 then r else put_msr msr 0 r

-- What the loop of a benchmark leaves; each round of `do_wrmsr` writes the same.
unfoldable pub after_run : Option Benchmark → Registers → Registers
after_run (some (wrmsr msr val)) r = put_msr msr val r
after_run _ r = r

unfoldable pub after_runs : List (Option Benchmark) → Registers → Registers
after_runs [] r = r
after_runs (b ∷ bs) r = after_runs bs (after_run b r)

-- `stop - start` of `run`, for the time stamps that `rdtsc_low` shows.
abbrev pub elapsed : ℕ × ℕ → ℕ
elapsed (start, stop) = (2 ^ 32 + stop - start) % 2 ^ 32

abbrev pub ticks_of : (Benchmark → ℕ × ℕ) → Option Benchmark → ℕ
ticks_of clock none = 0
ticks_of clock (some b) = elapsed (clock b)

abbrev pub niter : ℕ
niter = 64

-- `((ticks[i] - loop) * 10) / NITER`
unfoldable pub cost : ℕ → ℕ → ℕ
cost ticks loop = (2 ^ 32 + ticks - loop) % 2 ^ 32 * 10 % 2 ^ 32 / niter

-- A printed line: the place of the benchmark, the cost with one digit behind the point, and the total.
pub record CostLine : Type 0 where
  pub index : ℕ
  pub whole : ℕ
  pub tenth : ℕ
  pub total : ℕ

unfoldable pub cost_lines : ℕ → ℕ → List ℕ → List CostLine
cost_lines loop i [] = []
cost_lines loop i (t ∷ ts) =
    let rest = cost_lines loop (i + 1) ts in
    if t == 0
    then rest
    else record { index = i; whole = cost t loop / 10; tenth = cost t loop % 10; total = t } ∷ rest

-- The registers at the end of `measure_overheads`.
unfoldable pub measure_overheads : MsrIndex → Setup → Registers → Registers
measure_overheads x s r = clear_msr s.msr_cccr (
    clear_msr s.msr_evntsel0
      (after_runs (benchmarks x s) (clear_msr s.msr_cccr (clear_msr s.msr_evntsel0 r))))

abbrev pub all_ticks : (Benchmark → ℕ × ℕ) → List (Option Benchmark) → List ℕ
all_ticks clock [] = []
all_ticks clock (b ∷ bs) = ticks_of clock b ∷ all_ticks clock bs

-- What `measure_overheads` prints.
unfoldable pub overhead_lines : MsrIndex → Setup → (Benchmark → ℕ × ℕ) → List CostLine
overhead_lines x s clock =
    cost_lines (elapsed (clock empty_loop)) 0 (all_ticks clock (benchmarks x s))

pub data CpuVendor : Type 0 where
  amd intel other_vendor : CpuVendor

abbrev pub setup : ℕ → ℕ → ℕ → ℕ → ℕ → Bool → Setup
setup msr_evntsel0 evntsel0 msr_perfctr0 msr_cccr cccr_val is_core2 = record {
  msr_evntsel0 = msr_evntsel0;
  evntsel0 = evntsel0;
  msr_perfctr0 = msr_perfctr0;
  msr_cccr = msr_cccr;
  cccr_val = cccr_val;
  is_core2 = is_core2;
}

abbrev pub p6_evntsel0_val : ℕ
p6_evntsel0_val = bit_or (bit_or 0xC0 (3 * 2 ^ 16)) (2 ^ 22)

-- The choice of `mymodule_init`, by the vendor and the model.
unfoldable pub mymodule_init : MsrIndex → CpuVendor → ℕ → Setup
mymodule_init x amd model = setup x.k7_evntsel0 p6_evntsel0_val x.k7_perfctr0 0 0 false
mymodule_init x other_vendor model = setup 0 0 0 0 0 false
mymodule_init x intel model =
    if model == 5
    then setup 0x11 (bit_or 0x16 (3 * 2 ^ 6)) 0x12 0 0 false
    else if model == 6
    then setup x.p6_evntsel0 p6_evntsel0_val x.p6_perfctr0 0 0 false
    else if model == 15
    then setup x.p4_cru_escr0 (bit_or (bit_or (2 * 2 ^ 25) (2 ^ 9)) (3 * 2 ^ 2)) 0x30C x.p4_iq_cccr0
        (bit_or (bit_or (3 * 2 ^ 16) (4 * 2 ^ 13)) (2 ^ 12)) false
    else setup x.p6_evntsel0 p6_evntsel0_val x.p6_perfctr0 0 0 true
