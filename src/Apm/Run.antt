-- ===== src/Apm/Run.antt =====
-- main of amd-apm-read/apm-read.c and its two measurements of power, on what CPUID, the files and the
-- registers give.
pub mod Averages
use uarch_configure.Common.{ℕ, Bool, Option, none, some, List, []}
use uarch_configure.Packages.{Packages, detect_packages}
use uarch_configure.Apm.{select_processor, cpu_family}
use uarch_configure.Apm.Power.{
  Apm, Cpuid, init_apm_pwr_reporting, start_apm_pwr_reporting, stop_apm_pwr_reporting,
}
use uarch_configure.Apm.Tdp.{TdpReport, test_tdp_reporting}

-- What the power accumulator and the time stamp counter give.
pub record ApmReading : Type 0 where
  pub power : ℕ
  pub time : ℕ

-- One measurement: the readings when it starts and when it stops.
abbrev pub Measurement : Type 0
Measurement = ApmReading × ApmReading

unfoldable pub measure : ℕ → Measurement → Apm → Option (ℕ × Apm)
measure family (started, stopped) s =
    stop_apm_pwr_reporting family stopped.power stopped.time
      (start_apm_pwr_reporting started.power started.time s)

-- `refused` is the return of a negative number; `fault` a division by zero or a shift that is too wide.
pub data Tested : Type 0 where
  refused fault : Tested
  measured : (sleeping calculating : ℕ) → Tested

abbrev pub second_average : ℕ → Option (ℕ × Apm) → Tested
second_average first none = fault
second_average first (some (second, s)) = measured first second

abbrev pub first_average : Option (ℕ × Apm) → (Apm → Option (ℕ × Apm)) → Tested
first_average none next = fault
first_average (some (first, s)) next = second_average first (next s)

abbrev pub both_averages : Option Apm → (Apm → Option (ℕ × Apm)) → (Apm → Option (ℕ × Apm)) → Tested
both_averages none first second = refused
both_averages (some s) first second = first_average (first s) second

unfoldable pub test_apm_pwr_reporting :
    ℕ → Cpuid → Option ℕ → Measurement → Measurement → Apm → Tested
test_apm_pwr_reporting family cpuid j_max sleeping calculating s =
    both_averages (init_apm_pwr_reporting cpuid j_max s) (measure family sleeping)
      (measure family calculating)

-- All that `main` asks for. `packages` are the numbers of the topology files, and the reads for the TDP
-- are those of `test_tdp_reporting`.
pub record ApmSystem : Type 0 where
  pub is_amd : Bool
  pub signature : ℕ
  pub packages : List ℕ
  pub tdp_edx : ℕ
  pub running_avg : Option ℕ
  pub limit3 : Option ℕ
  pub processor_tdp : Option ℕ
  pub cpuid : Cpuid
  pub j_max : Option ℕ
  pub sleeping : Measurement
  pub calculating : Measurement

-- `out_of_bounds`: a package behind `package_map`.
pub data ApmRun : Type 0 where
  unsupported out_of_bounds : ApmRun
  finished : TdpReport → Tested → ApmRun

abbrev pub run_supported : ApmSystem → Apm → Bool → Option Packages → ApmRun
run_supported y s excavator none = out_of_bounds
run_supported y s excavator (some p) =
    finished (test_tdp_reporting excavator y.tdp_edx y.running_avg y.limit3 y.processor_tdp)
      (test_apm_pwr_reporting (cpu_family y.signature) y.cpuid y.j_max y.sleeping y.calculating s)

abbrev pub run_selected : ApmSystem → Apm → Option Bool → ApmRun
run_selected y s none = unsupported
run_selected y s (some excavator) = run_supported y s excavator (detect_packages y.packages)

unfoldable pub apm_main : ApmSystem → Apm → ApmRun
apm_main y s = run_selected y s (select_processor y.is_amd y.signature)
