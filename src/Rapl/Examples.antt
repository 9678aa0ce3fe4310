-- ===== src/Rapl/Examples.antt =====
-- The theorems on rapl-read/rapl-read.c at concrete inputs.
use uarch_configure.Common.{
  ℕ, ◌+◌, ◌*◌, ◌==◌, if◌then◌else◌, ◌≡◌, refl, true, false, none, some, [], ◌∷◌,
}
use uarch_configure.Common.Text.{codes}
use uarch_configure.Rapl.Fields.{PowerLimit, PowerInfo}
use uarch_configure.Rapl.Sysfs.{Powercap, rapl_sysfs}
use uarch_configure.Rapl.Sysfs.Lines.{listing, rapl_sysfs-listing}
use uarch_configure.Rapl.Choice.{Forced, Ways, no_options}
use uarch_configure.Rapl.Plot.{Available, Reading}
use uarch_configure.Rapl.Scan.Cpuinfo.{Processor}

abbrev limits : PowerLimit
limits = record {
  limit_1 = record { power = 520; enabled = true; clamped = false; window = 110 };
  limit_2 = record { power = 650; enabled = true; clamped = true; window = 33 };
  locked = true;
}

abbrev info : PowerInfo
info = record { thermal_spec_power = 520; minimum_power = 200; maximum_power = 0; time_window = 18 }

-- One package with a DRAM domain.
abbrev powercap : Powercap
powercap = record {
  name = λ j i.
      if i == 0 then some (codes "package-0") else if i == 2 then some (codes "dram") else none;
  energy = λ j i. some (100 + i);
}

rapl_sysfs-listing_example :
    rapl_sysfs 1 powercap (λ j i. some (300 + i))
    ≡ some (listing 0 1 powercap.name powercap.energy (λ j i. some (300 + i)))
rapl_sysfs-listing_example =
    rapl_sysfs-listing 1 powercap (λ j i. some (300 + i)) ((codes "package-0", refl), tt)

-- With -p, where perf_event fails.
abbrev with_p : Forced
with_p = record no_options { force_perf_event = true }

abbrev msr_only : Ways
msr_only = record { sysfs = true; perf_event = false; msr = true }

abbrev package_and_dram : Available
package_and_dram = record {
  package_bit = true;
  cores_bit = false;
  uncore_bit = false;
  dram_bit = true;
  psys_bit = false;
}

abbrev reading : ℕ → ℕ → Reading
reading t n = record {
  ct = t;
  energies = record {
    package_energy = λ j. n;
    cores_energy = λ j. 0;
    uncore_energy = λ j. 0;
    dram_energy = λ j. 3 * n;
    psys_energy = λ j. 0;
  };
}

abbrev processor : Processor
processor = record {
  before = codes "processor\t: 0\n" ∷ [];
  name = codes "Intel(R) Core(TM) i5-3210M CPU @ 2.50GHz\n";
  after = codes "stepping\t: 9\n" ∷ codes "\n" ∷ [];
}
