-- ===== src/Apm/Examples.antt =====
-- The theorem on amd-apm-read/apm-read.c at a concrete input.
use uarch_configure.Common.{◌^◌, ◌≡◌, refl, arith, true, some, [], ◌∷◌}
use uarch_configure.Packages.{detect_packages, detect_loop, place}
use uarch_configure.Apm.{select_processor, cpu_family}
use uarch_configure.Apm.Power.{Apm, init_apm_pwr_reporting}
use uarch_configure.Apm.Tdp.{test_tdp_reporting}
use uarch_configure.Apm.Run.{measured, ApmSystem, finished, apm_main}
use uarch_configure.Apm.Run.Averages.{Interval, measurement, apm_main-averages}

abbrev blank : Apm
blank = record {
  n = 0;
  j_max = 0;
  tx = 0;
  jx = 0;
  ty = 0;
  jy = 0;
  j_delta = 0;
  t_delta = 0;
  tsc_size = 0;
}

-- The accumulator turns over in the first interval.
abbrev asleep : Interval
asleep = record { start = record { power = 900; time = 100 }; power_gained = 200; time_gained = 50 }

abbrev busy : Interval
busy = record { start = record { power = 150; time = 400 }; power_gained = 800; time_gained = 100 }

-- An Excavator of family 0x15 and model 0x60.
abbrev carrizo : ApmSystem
carrizo = record {
  is_amd = true;
  signature = 0x00660f01;
  packages = 0 ∷ 0 ∷ [];
  tdp_edx = 2 ^ 9;
  running_avg = some 0;
  limit3 = some 0;
  processor_tdp = some 0;
  cpuid = record {
    ecx_80000007 = 10;
    edx_80000007 = 2 ^ 12;
    ecx_80000001 = 2 ^ 27;
    ecx_80000008 = 0;
  };
  j_max = some 1000;
  sleeping = measurement 1000 (2 ^ 40) asleep;
  calculating = measurement 1000 (2 ^ 40) busy;
}

apm_main-averages_example :
    apm_main carrizo blank
    ≡ finished (test_tdp_reporting true (2 ^ 9) (some 0) (some 0) (some 0)) (measured 40 80)
unfolding select_processor cpu_family detect_packages detect_loop place init_apm_pwr_reporting
apm_main-averages_example =
    apm_main-averages carrizo blank (record blank { n = 10; j_max = 1000; tsc_size = 40 }) true _
      asleep busy refl refl refl (omega arith) (omega arith) (omega arith)
      (record {
        power_lt = omega arith;
        gained_lt = omega arith;
        time_lt = omega arith;
        gone_lt = omega arith;
        time_goes = omega arith;
        fits = omega arith;
      })
      (record {
        power_lt = omega arith;
        gained_lt = omega arith;
        time_lt = omega arith;
        gone_lt = omega arith;
        time_goes = omega arith;
        fits = omega arith;
      })
      refl refl
