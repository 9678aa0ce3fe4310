-- ===== src/Prefetch/Start.antt =====
-- main of intel-prefetch/intel-prefetch-disable.c from its options and /proc/cpuinfo on. Its detect_cpu
-- reads the lines as that of rapl-read/rapl-plot.c does, statement by statement.
pub mod Whole
use uarch_configure.Common.{
  ℕ, ◌-◌, ◌^◌, ◌==◌, if◌then◌else◌, Bool, true, false, Option, none, some, List, [], ◌∷◌,
}
use uarch_configure.Common.Text.{Text, atoi}
use uarch_configure.Rapl.Plot.Cpu.{PlotScan, unset, rejected, scanned, no_plot_cpu, plot_scan_lines}
use uarch_configure.Prefetch.{Machine, Outcome, returns, exits}
use uarch_configure.Prefetch.Cores.{is_core2, run_prefetch}

-- What a call of `getopt` gives; `unknown` is any other option, also one without its argument.
pub data PrefetchOpt : Type 0 where
  opt_core : Text → PrefetchOpt
  opt_disable opt_enable opt_help unknown : PrefetchOpt

-- The variables behind the options, or the status of `exit`. `core` is `none` for -1; another negative
-- number is its pattern of 32 bits, and no core has it.
pub data Chosen : Type 0 where
  stops : ℕ → Chosen
  chosen : (disable : Bool) (core : Option ℕ) → Chosen

abbrev pub core_of : ℕ → Option ℕ
core_of n = if n == 2 ^ 32 - 1 then none else some n

unfoldable pub choose_options : List PrefetchOpt → Bool → Option ℕ → Chosen
unfolding atoi
choose_options [] disable core = chosen disable core
choose_options (opt_core arg ∷ opts) disable core = choose_options opts disable (core_of (atoi arg))
choose_options (opt_disable ∷ opts) disable core = choose_options opts true core
choose_options (opt_enable ∷ opts) disable core = choose_options opts false core
choose_options (opt_help ∷ opts) disable core = stops 0
choose_options (unknown ∷ opts) disable core = stops 255

-- What `detect_cpu` returns: `none` for -1, else whether it is a Core 2.
pub data PrefetchCpu : Type 0 where
  undefined : PrefetchCpu
  detected : Option Bool → PrefetchCpu

abbrev pub core2_of : Option ℕ → Option Bool
core2_of none = none
core2_of (some model) = is_core2 model

abbrev pub finish_prefetch_cpu : PlotScan → PrefetchCpu
finish_prefetch_cpu unset = undefined
finish_prefetch_cpu rejected = detected none
finish_prefetch_cpu (scanned c) = detected (core2_of c.model)

unfoldable pub prefetch_detect_cpu : Option (List Text) → PrefetchCpu
prefetch_detect_cpu none = detected none
prefetch_detect_cpu (some ss) = finish_prefetch_cpu (plot_scan_lines ss no_plot_cpu)

-- `none` where a variable is used that was never written.
abbrev pub run_detected :
    Bool → Option ℕ → PrefetchCpu → Machine → Option (Outcome (Option (Unit {0})))
run_detected disable core undefined m = none
run_detected disable core (detected core2) m = some (run_prefetch disable core core2 m)

abbrev pub run_chosen : Chosen → Option (List Text) → Machine → Option (Outcome (Option (Unit {0})))
run_chosen (stops code) info m = some (exits code m)
run_chosen (chosen disable core) info m = run_detected disable core (prefetch_detect_cpu info) m

unfoldable pub prefetch_main :
    List PrefetchOpt → Option (List Text) → Machine → Option (Outcome (Option (Unit {0})))
prefetch_main opts info m = run_chosen (choose_options opts true none) info m
