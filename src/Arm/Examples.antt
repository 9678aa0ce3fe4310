-- ===== src/Arm/Examples.antt =====
-- The theorems on the kernel modules for ARM at concrete registers.
use uarch_configure.Common.{◌≡◌, arith, true}
use uarch_configure.Common.Bits.{bit}
use uarch_configure.Arm.{Cp15}
use uarch_configure.Arm.Level2.{
  Pl310, steps, l2_prefetch_init, l2_prefetch_exit, l2_prefetch-guarded,
}

abbrev arm1176 : Cp15
arm1176 = record { control = 0x00C5387D; aux = 0x7 }

abbrev running : Pl310
running = record { is_on = true; aux = 0x7E470000; ok = true }

l2_prefetch-guarded_example :
    ((steps (l2_prefetch_init 0x7E470000) running).ok ≡ true)
    × ((steps (l2_prefetch_init 0x7E470000) running).is_on ≡ true)
    × (bit (steps (l2_prefetch_init 0x7E470000) running).aux 29 ≡ 0)
    × ((steps (l2_prefetch_exit 0x7E470000) running).ok ≡ true)
    × ((steps (l2_prefetch_exit 0x7E470000) running).is_on ≡ true)
    × (bit (steps (l2_prefetch_exit 0x7E470000) running).aux 29 ≡ 1)
l2_prefetch-guarded_example = l2_prefetch-guarded 0x7E470000 29 (omega arith)
