-- ===== src/Arm/Changed.antt =====
-- Which bits the kernel modules for ARM change, and what the reports show of it.
use uarch_configure.Common.{
  ℕ, ◌-◌, ◌^◌, ◌<◌, ◌≡◌, arith, ◌==◌, ==→eq, if◌then◌else◌, true, List, [], ◌∷◌, one_of,
  passes_below, passes_below-at,
}
use uarch_configure.Common.Bits.{bit, bit-le-one, bit-bit_and, bit-bit_or, bit-complement}
use uarch_configure.Arm.{
  Cp15, set_bits, clear_bits, cortex_a9_cache_rr_init, cortex_a9_cache_rr_exit,
  cortex_a9_prefetch_init, cortex_a9_prefetch_exit, rasp_pi_brpred_disable_init,
  cortex_a7_disable_init,
}

-- The changes of the modules, at their start and at their end.
pub data Change : Type 0 where
  cache_init cache_exit prefetch_init prefetch_exit brpred_init cortex_a7_init : Change

abbrev pub changed : Change → Cp15 → Cp15
changed cache_init r = cortex_a9_cache_rr_init r
changed cache_exit r = cortex_a9_cache_rr_exit r
changed prefetch_init r = cortex_a9_prefetch_init r
changed prefetch_exit r = cortex_a9_prefetch_exit r
changed brpred_init r = (rasp_pi_brpred_disable_init r).0
changed cortex_a7_init r = (cortex_a7_disable_init r).0

-- The numbers of the bits that each writes, in the two registers, and what it writes there.
abbrev pub control_bits : Change → List ℕ
control_bits cache_init = 14 ∷ []
control_bits cache_exit = 14 ∷ []
control_bits brpred_init = 11 ∷ []
control_bits _ = []

abbrev pub aux_bits : Change → List ℕ
aux_bits prefetch_init = 2 ∷ 1 ∷ []
aux_bits prefetch_exit = 2 ∷ 1 ∷ []
aux_bits brpred_init = 2 ∷ 1 ∷ 0 ∷ []
aux_bits cortex_a7_init = 14 ∷ 13 ∷ []
aux_bits _ = []

abbrev pub value : Change → ℕ
value cache_init = 1
value prefetch_init = 1
value _ = 0

abbrev pub HasBits : ℕ → List ℕ → Type 0
HasBits m ks = passes_below 32 (λ k. bit m k == (if one_of k ks then 1 else 0)) ≡ true

mask-at :
    (m : ℕ) (ks : List ℕ)
    → HasBits m ks
    → (k : ℕ) → k < 32
    → bit m k ≡ (if one_of k ks then 1 else 0)
mask-at m ks table k h = ==→eq _ _ (passes_below-at 32 _ table k h)

pub bit-set_bits :
    (m r : ℕ) (ks : List ℕ)
    → HasBits m ks
    → (k : ℕ) → k < 32
    → bit (set_bits m r) k ≡ (if one_of k ks then 1 else bit r k)
bit-set_bits m r ks table k h =
    ground (arith, bit-bit_or r m k, mask-at m ks table k h, bit-le-one r k)

pub bit-clear_bits :
    (m r : ℕ) (ks : List ℕ)
    → m < 2 ^ 32
    → HasBits m ks
    → (k : ℕ) → k < 32
    → bit (clear_bits m r) k ≡ (if one_of k ks then 0 else bit r k)
bit-clear_bits m r ks small table k h = ground (
  arith,
  bit-bit_and r (2 ^ 32 - 1 - m) k,
  bit-complement 32 m k small h,
  mask-at m ks table k h,
  bit-le-one r k,
)
