-- ===== src/Arm.antt =====
-- The kernel modules that change and show control registers of ARM processors: cortex-a9-cache,
-- cortex-a9-config, cortex-a9-prefetch, rasp-pi-brpred and rasp-pi2-cortexA7-disable. The registers
-- themselves are the state; an `int` is its pattern of 32 bits.
pub mod Changed
pub mod Level2
mod Examples
use uarch_configure.Common.{
  ℕ, ◌-◌, ◌*◌, ◌/◌, ◌^◌, ◌==◌, not, if◌then◌else◌, Bool, List, [], ◌∷◌, bit_and, bit_or,
}
use uarch_configure.Common.Registers.{bits_at, flag_at}

-- The registers `c1, c0, 0` (SCTLR, on the ARM1176 the control register) and `c1, c0, 1` (ACTLR).
pub record Cp15 : Type 0 where
  pub control : ℕ
  pub aux : ℕ

-- `r |= m` and `r &= ~m`
abbrev pub set_bits : ℕ → ℕ → ℕ
set_bits m r = bit_or r m

abbrev pub clear_bits : ℕ → ℕ → ℕ
clear_bits m r = bit_and r (2 ^ 32 - 1 - m)

unfoldable pub cortex_a9_cache_rr_init : Cp15 → Cp15
cortex_a9_cache_rr_init r = record r { control = set_bits (2 ^ 14) r.control }

unfoldable pub cortex_a9_cache_rr_exit : Cp15 → Cp15
cortex_a9_cache_rr_exit r = record r { control = clear_bits (2 ^ 14) r.control }

unfoldable pub cortex_a9_prefetch_init : Cp15 → Cp15
cortex_a9_prefetch_init r = record r { aux = set_bits 0x2 (set_bits 0x4 r.aux) }

unfoldable pub cortex_a9_prefetch_exit : Cp15 → Cp15
cortex_a9_prefetch_exit r = record r { aux = clear_bits 0x2 (clear_bits 0x4 r.aux) }

-- And `saved_control`.
unfoldable pub rasp_pi_brpred_disable_init : Cp15 → Cp15 × ℕ
rasp_pi_brpred_disable_init r = (
  record {
    control = clear_bits (2 ^ 11) r.control;
    aux = clear_bits 0x1 (clear_bits 0x2 (clear_bits 0x4 r.aux));
  },
  r.control,
)

-- And `saved_aux`.
unfoldable pub cortex_a7_disable_init : Cp15 → Cp15 × ℕ
cortex_a7_disable_init r = (record r { aux = clear_bits (3 * 2 ^ 13) r.aux }, r.aux)

-- The exits of these two only read and print.
abbrev pub brpred_exit : Cp15 → Cp15
brpred_exit r = r

abbrev pub cortex_a7_disable_exit : Cp15 → Cp15
cortex_a7_disable_exit r = r

unfoldable pub tlb_size : ℕ → ℕ
tlb_size v =
    if v == 0 then 64 else if v == 1 then 128 else if v == 2 then 256 else if v == 3 then 512 else 0

-- What cortex-a9-config shows of the TLB register, and of ACTLR; cortex-a9-l1-prefetch shows the latter too.
pub record TlbInfo : Type 0 where
  pub ilock : ℕ
  pub dlock : ℕ
  pub entries : ℕ
  pub unified : Bool

unfoldable pub tlb_info : ℕ → TlbInfo
tlb_info r = record {
  ilock = bits_at r 16 8;
  dlock = bits_at r 8 8;
  entries = tlb_size (bits_at r 1 2);
  unified = not (flag_at r 0);
}

pub record ActlrInfo : Type 0 where
  pub parity : ℕ
  pub alloc_in_one_way : ℕ
  pub exclusive_cache : ℕ
  pub smp : ℕ
  pub line_of_zeros : ℕ
  pub l1_prefetch : ℕ
  pub l2_prefetch : ℕ
  pub tlb_maint_broadcast : ℕ

unfoldable pub actlr_info : ℕ → ActlrInfo
actlr_info r = record {
  parity = bits_at r 9 1;
  alloc_in_one_way = bits_at r 8 1;
  exclusive_cache = bits_at r 7 1;
  smp = bits_at r 6 1;
  line_of_zeros = bits_at r 3 1;
  l1_prefetch = bits_at r 2 1;
  l2_prefetch = bits_at r 1 1;
  tlb_maint_broadcast = bits_at r 0 1;
}

-- What rasp-pi-brpred shows.
pub record BrpredInfo : Type 0 where
  pub brpred : Bool
  pub folding : Bool
  pub static_prediction : Bool
  pub dynamic_prediction : Bool
  pub return_stack : Bool

unfoldable pub brpred_info : Cp15 → BrpredInfo
brpred_info r = record {
  brpred = flag_at r.control 11;
  folding = flag_at r.aux 3;
  static_prediction = flag_at r.aux 2;
  dynamic_prediction = flag_at r.aux 1;
  return_stack = flag_at r.aux 0;
}

-- What cortexA7-detect shows; the field of two bits is masked before it is shifted.
pub record CortexA7Info : Type 0 where
  pub icache : Bool
  pub brpred : Bool
  pub cache : Bool
  pub align : Bool
  pub mmu : Bool
  pub dual_issue : Bool
  pub l1_data_prefetch : ℕ
  pub l1d_read_allocate : Bool
  pub l2d_read_allocate : Bool
  pub optimized_mem_barrier : Bool
  pub smp : Bool

unfoldable pub cortex_a7_info : Cp15 → CortexA7Info
cortex_a7_info r = record {
  icache = flag_at r.control 12;
  brpred = flag_at r.control 11;
  cache = flag_at r.control 2;
  align = flag_at r.control 1;
  mmu = flag_at r.control 0;
  dual_issue = flag_at r.aux 28;
  l1_data_prefetch = bit_and r.aux (3 * 2 ^ 13) / 2 ^ 13;
  l1d_read_allocate = flag_at r.aux 12;
  l2d_read_allocate = flag_at r.aux 11;
  optimized_mem_barrier = flag_at r.aux 10;
  smp = flag_at r.aux 6;
}
