-- ===== src/Rapl/Plot/Cpu.antt =====
-- detect_cpu, rapl_detect_msr and rapl_msr of rapl-read/rapl-plot.c: the processors that it knows, and
-- the registers that it reads of them.
pub mod Same
pub mod Columns
use uarch_configure.Common.{
  ℕ, ◌==◌, if◌then◌else◌, Bool, true, false, Option, none, some, List, [], ◌∷◌, ◌++◌, one_of,
}
use uarch_configure.Common.Text.{Text, codes}
use uarch_configure.Rapl.Scan.{starts_with, scan_number, scan_vendor}
use uarch_configure.Rapl.Reads.{when, on_each}
use uarch_configure.Rapl.Plot.{Available}

-- The variables of `detect_cpu`; `vendor` and `family` are `none` as long as they were not written, and
-- `model` is -1 then.
pub record PlotCpu : Type 0 where
  pub vendor : Option Text
  pub family : Option ℕ
  pub model : Option ℕ

abbrev pub no_plot_cpu : PlotCpu
no_plot_cpu = record { vendor = none; family = none; model = none }

-- `unset`: a variable that was never written is compared. `rejected` is a return of -1 in the loop.
pub data PlotScan : Type 0 where
  unset rejected : PlotScan
  scanned : PlotCpu → PlotScan

unfoldable pub after : PlotScan → (PlotCpu → PlotScan) → PlotScan
after unset next = unset
after rejected next = rejected
after (scanned c) next = next c

unfoldable pub plot_vendor : Option Text → PlotCpu → PlotScan
plot_vendor none c = unset
plot_vendor (some v) c =
    if starts_with (codes "GenuineIntel") v
    then scanned (record c { vendor = some v })
    else rejected

unfoldable pub plot_family : Option ℕ → PlotCpu → PlotScan
plot_family none c = unset
plot_family (some f) c = if f == 6 then scanned (record c { family = some f }) else rejected

-- The three tests on a line.
unfoldable pub plot_scan_line : Text → PlotCpu → PlotScan
plot_scan_line s c =
    after
      (if starts_with (codes "vendor_i") s
        then plot_vendor (scan_vendor s c.vendor) c
        else scanned c)
      λ d.
        after
          (if starts_with (codes "cpu family") s
            then plot_family (scan_number 3 s d.family) d
            else scanned d)
          λ e. scanned (record e {
            model = if starts_with (codes "model") s then scan_number 2 s e.model else e.model;
          })

unfoldable pub plot_scan_lines : List Text → PlotCpu → PlotScan
plot_scan_lines [] c = scanned c
plot_scan_lines (s ∷ ss) c = after (plot_scan_line s c) (plot_scan_lines ss)

-- The models that its `switch` names.
abbrev pub plot_models : List ℕ
plot_models = 42 ∷ 45 ∷ 58 ∷ 62 ∷ 60 ∷ 63 ∷ 79 ∷ 61 ∷ 78 ∷ 94 ∷ 85 ∷ 142 ∷ 158 ∷ 87 ∷ []

unfoldable pub plot_select : Option ℕ → Option ℕ
plot_select none = none
plot_select (some m) = if one_of m plot_models then some m else none

-- What `detect_cpu` returns, `none` for -1.
pub data PlotDetected : Type 0 where
  undefined : PlotDetected
  detected : Option ℕ → PlotDetected

unfoldable pub finish_plot : PlotScan → PlotDetected
finish_plot unset = undefined
finish_plot rejected = detected none
finish_plot (scanned c) = detected (plot_select c.model)

-- The lines are what `fgets` gives; `none` where the file does not open.
unfoldable pub plot_detect_cpu : Option (List Text) → PlotDetected
plot_detect_cpu none = detected none
plot_detect_cpu (some ss) = finish_plot (plot_scan_lines ss no_plot_cpu)

-- `available` behind it, for a model that it returned.
unfoldable pub plot_available : ℕ → Available
plot_available m = record {
  package_bit = true;
  cores_bit = if m == 63 then false else true;
  uncore_bit = if m == 63 then false else true;
  dram_bit = if m == 58 then false else true;
  psys_bit = if one_of m (58 ∷ 63 ∷ []) then false else true;
}

-- The reads of `rapl_detect_msr` of one package.
unfoldable pub plot_listing_reads : ℕ → List ℕ
plot_listing_reads m =
    (0x606 ∷ 0x614 ∷ 0x610 ∷ [])
    ++ (when (one_of m (45 ∷ 62 ∷ [])) (0x613 ∷ [])
        ++ (when (one_of m (45 ∷ 62 ∷ [])) (0x63B ∷ 0x63A ∷ [])
            ++ when (one_of m (42 ∷ 58 ∷ 60 ∷ 61 ∷ [])) (0x642 ∷ [])))

abbrev pub has_uncore : ℕ → Bool
has_uncore m = one_of m (42 ∷ 58 ∷ 60 ∷ 61 ∷ 78 ∷ 94 ∷ 142 ∷ 158 ∷ [])

abbrev pub has_dram : ℕ → Bool
has_dram m = one_of m (45 ∷ 62 ∷ 63 ∷ 79 ∷ 85 ∷ 60 ∷ 61 ∷ 78 ∷ 94 ∷ 142 ∷ 158 ∷ [])

abbrev pub has_psys : ℕ → Bool
has_psys m = one_of m (78 ∷ 94 ∷ 142 ∷ 158 ∷ [])

-- The reads of `rapl_msr` of one package, each of which is stored as an energy.
unfoldable pub plot_energy_reads : ℕ → List ℕ
plot_energy_reads m =
    (0x611 ∷ 0x639 ∷ [])
    ++ (when (has_uncore m) (0x641 ∷ [])
        ++ (when (has_dram m) (0x619 ∷ []) ++ when (has_psys m) (0x64d ∷ [])))

-- `rapl_detect_msr`, `none` for -1, and `rapl_msr`, over the cores of `package_map`.
unfoldable pub rapl_detect_msr : Option ℕ → List ℕ → Option (List (ℕ × ℕ))
rapl_detect_msr none cores = none
rapl_detect_msr (some m) cores = some (on_each cores (plot_listing_reads m))

unfoldable pub plot_rapl_msr : ℕ → List ℕ → List (ℕ × ℕ)
plot_rapl_msr m cores = on_each cores (plot_energy_reads m)
