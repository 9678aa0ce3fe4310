-- ===== src/Prefetch/Examples.antt =====
-- The theorems on intel-prefetch/intel-prefetch-disable.c at concrete inputs.
use uarch_configure.Common.{◌++◌, ◌≡◌, refl, true, some, none, [], ◌∷◌}
use uarch_configure.Prefetch.{Core, Machine, enxio, returns}
use uarch_configure.Common.Text.{codes, is_space, atoi}
use uarch_configure.Rapl.Scan.{starts_with}
use uarch_configure.Rapl.Scan.Cpuinfo.{Processor}
use uarch_configure.Prefetch.Start.{opt_core, choose_options, prefetch_main}
use uarch_configure.Prefetch.Start.Whole.{vendor_line_of, prefetch_main-foreign}

-- A core whose registers all hold 5, and a machine with two of them.
abbrev core_five : Core
core_five = record { readable = true; writable = true; regs = λ _. 5 }

abbrev two_cores : Machine
two_cores = record { cores = core_five ∷ core_five ∷ []; missing = enxio; reports = [] }

abbrev core2_processor : Processor
core2_processor = record {
  before = codes "processor\t: 0\n" ∷ [];
  name = codes "Intel(R) Core(TM)2 CPU 6600 @ 2.40GHz\n";
  after = codes "stepping\t: 6\n" ∷ codes "\n" ∷ [];
}

-- An AMD processor, with core 1 chosen.
prefetch_main-foreign_example :
    prefetch_main
      (opt_core (codes "1") ∷ [])
      (some (core2_processor.before ++ (vendor_line_of (codes "AuthenticAMD") ∷ [])))
      two_cores
    ≡ some (returns none two_cores)
unfolding starts_with choose_options
prefetch_main-foreign_example =
    prefetch_main-foreign (opt_core (codes "1") ∷ []) true (some 1) core2_processor.before [] b'A'
      (codes "uthenticAMD") two_cores (unfold atoi in refl) ((refl, refl, refl), tt)
      (unfold is_space in
        (
          refl,
          (
            refl,
            (refl, (refl, (refl, (refl, (refl, (refl, (refl, (refl, (refl, (refl, tt)))))))))),
          ),
        ))
      refl
