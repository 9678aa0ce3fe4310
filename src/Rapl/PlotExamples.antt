-- ===== src/Rapl/PlotExamples.antt =====
-- The theorems on detect_cpu of rapl-read/rapl-plot.c and on the perf_event interface at concrete inputs.
use uarch_configure.Common.{ℕ, ◌≡◌, ◌⊎◌, refl, ◌==◌, if◌then◌else◌, true, none, some, List, [], ◌∷◌}
use uarch_configure.Common.Text.{Text, codes, is_space, is_digit, skip_space, atoi}
use uarch_configure.Rapl.{Msrs}
use uarch_configure.Rapl.Scan.{
  starts_with, word, skip_words, scan_int, scan_number, scan_vendor, fault, returns, detect_cpu,
}
use uarch_configure.Rapl.Plot.Cpu.{
  after, plot_vendor, plot_family, plot_scan_line, plot_scan_lines, plot_select, finish_plot,
  detected, plot_detect_cpu,
}
use uarch_configure.Rapl.Plot.Cpu.Same.{plot_detect_cpu-detect_cpu}
use uarch_configure.Rapl.Perf.{
  PerfFiles, OpenResult, opened, failed, error_opening, gave_up, configs, rapl_perf,
}
use uarch_configure.Rapl.Perf.Files.{rapl_perf-Ends}

abbrev haswell : List Text
haswell =
    codes "vendor_id\t: GenuineIntel\n" ∷ codes "cpu family\t: 6\n" ∷ codes "model\t\t: 60\n" ∷ []

haswell_detected : plot_detect_cpu (some haswell) ≡ detected (some 60)
unfolding plot_detect_cpu plot_scan_lines plot_scan_line plot_vendor plot_family after finish_plot
    plot_select starts_with scan_vendor scan_number scan_int skip_words word skip_space is_space
    is_digit atoi
haswell_detected = refl

plot_detect_cpu-detect_cpu_example :
    (detect_cpu (some haswell) ≡ fault)
    ⊎ ((msrs : Msrs) × (detect_cpu (some haswell) ≡ returns (some 60, msrs)))
plot_detect_cpu-detect_cpu_example = plot_detect_cpu-detect_cpu (some haswell) 60 haswell_detected

-- Two events, of which the second does not open on the second package.
abbrev events_files : PerfFiles
events_files = record {
  type_opens = true;
  config = some 1 ∷ none ∷ some 2 ∷ none ∷ none ∷ [];
  stale = 0 ∷ 0 ∷ 0 ∷ 0 ∷ 0 ∷ [];
  paranoid = none;
}

abbrev open_event : ℕ → ℕ → OpenResult
open_event c core = if core == 0 then opened c else if c == 1 then opened 9 else failed

rapl_perf-Ends_example :
    rapl_perf events_files open_event (λ fd. fd) (0 ∷ 4 ∷ [])
    ≡ gave_up (1 ∷ 2 ∷ 9 ∷ []) error_opening
unfolding configs
rapl_perf-Ends_example = rapl_perf-Ends events_files open_event (λ fd. fd) (0 ∷ 4 ∷ []) refl
