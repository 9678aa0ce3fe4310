-- ===== src/Apm/Run/Averages.antt =====
-- The averages that a run of amd-apm-read/apm-read.c shows.
use uarch_configure.Common.{ℕ, ◌*◌, ◌/◌, ◌^◌, ◌<◌, ◌≡◌, ap, ◌∙◌, Bool, some}
use uarch_configure.Packages.{Packages, detect_packages}
use uarch_configure.Apm.{select_processor, cpu_family}
use uarch_configure.Apm.Power.{
  Apm, init_apm_pwr_reporting, start_apm_pwr_reporting, later, time_turn, stop_apm_average,
}
use uarch_configure.Apm.Tdp.{test_tdp_reporting}
use uarch_configure.Apm.Run.{
  ApmReading, Measurement, measure, measured, first_average, second_average, both_averages,
  test_apm_pwr_reporting, ApmSystem, finished, apm_main,
}

-- The readings at the start of an interval, and what the counters gain in it.
pub record Interval : Type 0 where
  pub start : ApmReading
  pub power_gained : ℕ
  pub time_gained : ℕ

-- The counters turn over at `m` and at `turn`, once at most.
abbrev pub measurement : ℕ → ℕ → Interval → Measurement
measurement m turn i = (
  i.start,
  record {
    power = later m i.start.power i.power_gained;
    time = later turn i.start.time i.time_gained;
  },
)

pub record IsInterval (n m turn : ℕ) (i : Interval) : Type 0 where
  pub power_lt : i.start.power < m
  pub gained_lt : i.power_gained < m
  pub time_lt : i.start.time < turn
  pub gone_lt : i.time_gained < turn
  pub time_goes : 0 < i.time_gained
  pub fits : n * i.power_gained < 2 ^ 63

abbrev pub average : ℕ → Interval → ℕ
average n i = n * i.power_gained / i.time_gained

-- The variables behind a measurement.
abbrev after : ℕ → Apm → Interval → Apm
after family s i = record s {
  jx = i.start.power;
  tx = i.start.time;
  jy = later s.j_max i.start.power i.power_gained;
  ty = later (time_turn family s.tsc_size) i.start.time i.time_gained;
  j_delta = i.power_gained;
  t_delta = i.time_gained;
}

-- A measurement shows the average.
measure-average :
    (family : ℕ) (s : Apm) (i : Interval)
    → s.j_max < 2 ^ 62
    → s.tsc_size < 64
    → time_turn family s.tsc_size < 2 ^ 62
    → IsInterval s.n s.j_max (time_turn family s.tsc_size) i
    → measure family (measurement s.j_max (time_turn family s.tsc_size) i) s
      ≡ some (average s.n i, after family s i)
unfolding measure start_apm_pwr_reporting
measure-average family s i hj hw ht w =
    stop_apm_average family i.power_gained i.time_gained
      (record s { jx = i.start.power; tx = i.start.time }) hj w.power_lt w.gained_lt ht hw w.time_lt
      w.gone_lt w.time_goes w.fits

both-averages :
    (family : ℕ) (s : Apm) (a b : Interval)
    → s.j_max < 2 ^ 62
    → s.tsc_size < 64
    → time_turn family s.tsc_size < 2 ^ 62
    → IsInterval s.n s.j_max (time_turn family s.tsc_size) a
    → IsInterval s.n s.j_max (time_turn family s.tsc_size) b
    → both_averages
        (some s)
        (measure family (measurement s.j_max (time_turn family s.tsc_size) a))
        (measure family (measurement s.j_max (time_turn family s.tsc_size) b))
      ≡ measured (average s.n a) (average s.n b)
both-averages family s a b hj hw ht wa wb =
    let turn = time_turn family s.tsc_size in
    ap (λ x. first_average x (measure family (measurement s.j_max turn b)))
      (measure-average family s a hj hw ht wa)
    ∙ ap (second_average (average s.n a)) (measure-average family (after family s a) b hj hw ht wb)

-- On a supported AMD processor whose packages fit the map and that has the accumulator and the counter,
-- both measurements show the average power of their interval, `n` times the power gained by the time gone:
-- where in each interval some time goes by, the accumulator and the counter turn over once at most, their
-- turns are below 2 ^ 62, and the product is below 2 ^ 63.
pub apm_main-averages :
    (y : ApmSystem) (s s0 : Apm) (excavator : Bool) (p : Packages) (a b : Interval)
    → select_processor y.is_amd y.signature ≡ some excavator
    → detect_packages y.packages ≡ some p
    → init_apm_pwr_reporting y.cpuid y.j_max s ≡ some s0
    → s0.j_max < 2 ^ 62
    → s0.tsc_size < 64
    → time_turn (cpu_family y.signature) s0.tsc_size < 2 ^ 62
    → IsInterval s0.n s0.j_max (time_turn (cpu_family y.signature) s0.tsc_size) a
    → IsInterval s0.n s0.j_max (time_turn (cpu_family y.signature) s0.tsc_size) b
    → y.sleeping ≡ measurement s0.j_max (time_turn (cpu_family y.signature) s0.tsc_size) a
    → y.calculating ≡ measurement s0.j_max (time_turn (cpu_family y.signature) s0.tsc_size) b
    → apm_main y s
      ≡ finished
          (test_tdp_reporting excavator y.tdp_edx y.running_avg y.limit3 y.processor_tdp)
          (measured (average s0.n a) (average s0.n b))
unfolding apm_main test_apm_pwr_reporting
apm_main-averages y s s0 excavator p a b e q i hj hw ht wa wb ea eb =
    rw (e, q, i, ea, eb)
      (ap (finished (test_tdp_reporting excavator y.tdp_edx y.running_avg y.limit3 y.processor_tdp))
        (both-averages (cpu_family y.signature) s0 a b hj hw ht wa wb))
