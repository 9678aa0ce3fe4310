-- ===== src/Pmu/Examples.antt =====
-- A run of the model of rasp-pi-pmu/rasp-pi-pmu.c in which the counter of cycles turns over.
use uarch_configure.Common.{arith, [], ◌∷◌, map}
use uarch_configure.Pmu.{Reading, rasp_pi_pmu_init, updates}
use uarch_configure.Pmu.Counts.{Shows, shown, last, zero_counts, updates-counts}

abbrev half_way : Reading
half_way = record { cycles = 3000000000; count1 = 5; count2 = 1000 }

abbrev at_end : Reading
at_end = record { cycles = 6000000000; count1 = 5; count2 = 4294967296 }

updates-counts_example :
    Shows
      (last zero_counts (half_way ∷ at_end ∷ []))
      (updates (rasp_pi_pmu_init 5 7) (map shown (half_way ∷ at_end ∷ [])))
updates-counts_example = updates-counts 5 7 (half_way ∷ at_end ∷ []) (
  (omega arith, omega arith),
  (
    (omega arith, omega arith),
    (
      (omega arith, omega arith),
      ((omega arith, omega arith), ((omega arith, omega arith), ((omega arith, omega arith), tt))),
    ),
  ),
)
