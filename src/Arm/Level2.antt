-- ===== src/Arm/Level2.antt =====
-- cortex-a9-prefetch/cortex-a9-l2-prefetch-main.c: turns the prefetchers of the PL310 second level cache
-- off and on. The calls of the secure monitor and the writes of the register are a sequence of steps.
use uarch_configure.Common.{
  ℕ, ◌^◌, ◌<◌, ◌≡◌, refl, arith, ◌==◌, if◌then◌else◌, Bool, true, false, List, [], ◌∷◌, one_of,
  passes_below,
}
use uarch_configure.Common.Bits.{bit}
use uarch_configure.Common.Registers.{bits_at}
use uarch_configure.Arm.Changed.{bit-set_bits, bit-clear_bits}
use uarch_configure.Arm.{set_bits, clear_bits}

-- `smc` is `omap_smc1` and `write_aux` the `writel` of the auxiliary control register.
pub data Step : Type 0 where
  flush_cache flush_outer : Step
  smc : ℕ → ℕ → Step
  write_aux : ℕ → Step

-- The value of the register, as both the monitor and `writel` write it.
unfoldable pub l2_aux_off : ℕ → ℕ
l2_aux_off aux = clear_bits (2 ^ 28) (clear_bits (2 ^ 29) aux)

unfoldable pub l2_aux_on : ℕ → ℕ
l2_aux_on aux = set_bits (2 ^ 28) (set_bits (2 ^ 29) aux)

unfoldable pub l2_prefetch_init : ℕ → List Step
l2_prefetch_init aux =
    flush_cache
    ∷ flush_outer
    ∷ smc 0x102 0
    ∷ smc 0x109 (l2_aux_off aux)
    ∷ write_aux (l2_aux_off aux)
    ∷ smc 0x102 1
    ∷ []

unfoldable pub l2_prefetch_exit : ℕ → List Step
l2_prefetch_exit aux =
    flush_cache ∷ flush_outer ∷ smc 0x102 0 ∷ smc 0x109 (l2_aux_on aux) ∷ smc 0x102 1 ∷ []

-- The fields that the start shows, in order.
unfoldable pub l2_fields : ℕ → List ℕ
l2_fields aux =
    bits_at aux 29 1
    ∷ bits_at aux 28 1
    ∷ bits_at aux 27 1
    ∷ bits_at aux 26 1
    ∷ bits_at aux 23 2
    ∷ bits_at aux 22 1
    ∷ bits_at aux 21 1
    ∷ bits_at aux 20 1
    ∷ bits_at aux 17 3
    ∷ bits_at aux 16 1
    ∷ bits_at aux 12 1
    ∷ bits_at aux 6 3
    ∷ bits_at aux 3 3
    ∷ bits_at aux 0 3
    ∷ []

-- The controller, as the comment in the source quotes its manual: call 0x102 turns it on and off, call
-- 0x109 and `writel` write its register, and a write while it is on is an error (`ok` is false then).
pub record Pl310 : Type 0 where
  pub is_on : Bool
  pub aux : ℕ
  pub ok : Bool

abbrev pub write : ℕ → Pl310 → Pl310
write v c = if c.is_on then record c { ok = false } else record c { aux = v }

abbrev pub step : Step → Pl310 → Pl310
step flush_cache c = c
step flush_outer c = c
step (write_aux v) c = write v c
step (smc f v) c =
    if f == 0x102
    then record c { is_on = if v == 0 then false else true }
    else if f == 0x109
    then write v c
    else c

abbrev pub steps : List Step → Pl310 → Pl310
steps [] c = c
steps (s ∷ ss) c = steps ss (step s c)

-- On a controller that is on, the start and the end of the module write the register only while it is
-- off, leave it on, and change bits 28 and 29 of the register and no other: the start clears them and
-- the end sets them.
pub l2_prefetch-guarded :
    (aux k : ℕ)
    → k < 32
    → let c : Pl310 = record { is_on = true; aux = aux; ok = true } in
      let off = steps (l2_prefetch_init aux) c in
      let on = steps (l2_prefetch_exit aux) c in
      (off.ok ≡ true)
      × (off.is_on ≡ true)
      × (bit off.aux k ≡ (if one_of k (28 ∷ 29 ∷ []) then 0 else bit aux k))
      × (on.ok ≡ true)
      × (on.is_on ≡ true)
      × (bit on.aux k ≡ (if one_of k (28 ∷ 29 ∷ []) then 1 else bit aux k))
unfolding passes_below l2_prefetch_init l2_prefetch_exit l2_aux_off l2_aux_on
l2_prefetch-guarded aux k h = (
  refl,
  refl,
  ground (
    arith,
    bit-clear_bits (2 ^ 28) (clear_bits (2 ^ 29) aux) (28 ∷ []) (omega arith) refl k h,
    bit-clear_bits (2 ^ 29) aux (29 ∷ []) (omega arith) refl k h,
  ),
  refl,
  refl,
  ground (
    arith,
    bit-set_bits (2 ^ 28) (set_bits (2 ^ 29) aux) (28 ∷ []) refl k h,
    bit-set_bits (2 ^ 29) aux (29 ∷ []) refl k h,
  ),
)
