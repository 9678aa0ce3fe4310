-- ===== src/Rapl/Plot.antt =====
-- The plot loop of rapl-read/rapl-plot.c: one line for each reading of the energies but the first.
pub mod Energy
pub mod Sysfs
pub mod Cpu
use uarch_configure.Common.{
  ℕ, zero, suc, ◌+◌, ◌-◌, if◌then◌else◌, Bool, true, false, List, [], ◌∷◌, ◌++◌,
}

-- The bits of `available`.
pub record Available : Type 0 where
  pub package_bit : Bool
  pub cores_bit : Bool
  pub uncore_bit : Bool
  pub dram_bit : Bool
  pub psys_bit : Bool

-- `package_energy` and the like, by the package; a whole number stands for each `double`.
pub record Energies : Type 0 where
  pub package_energy : ℕ → ℕ
  pub cores_energy : ℕ → ℕ
  pub uncore_energy : ℕ → ℕ
  pub dram_energy : ℕ → ℕ
  pub psys_energy : ℕ → ℕ

-- A round of the loop: the time `ct`, and the energies that are read then.
pub record Reading : Type 0 where
  pub ct : ℕ
  pub energies : Energies

-- A line: the two time differences `ct-ot` and `ct-lt`, and for each column the two values whose
-- difference is divided by the second.
pub record PlotLine : Type 0 where
  pub elapsed : ℕ
  pub interval : ℕ
  pub columns : List (ℕ × ℕ)

abbrev pub column : Bool → ℕ → ℕ → List (ℕ × ℕ) → List (ℕ × ℕ)
column is_available now last rest = if is_available then (now, last) ∷ rest else rest

-- The loop over the packages, from `j` on.
unfoldable pub print_columns : Available → ℕ → ℕ → Energies → Energies → List (ℕ × ℕ)
print_columns a zero j e last = []
print_columns a (suc packages) j e last =
    column a.package_bit (e.package_energy j) (last.package_energy j) (
      column a.cores_bit (e.cores_energy j) (last.cores_energy j) (
        column a.uncore_bit (e.uncore_energy j) (last.uncore_energy j) (
          column a.dram_bit (e.dram_energy j) (last.dram_energy j) (
            column a.psys_bit (e.psys_energy j) (last.psys_energy j)
              (print_columns a packages (j + 1) e last)))))

-- `first_time`, `lt` and `last_package` and the like, and what was printed.
pub record Plot : Type 0 where
  pub first_time : Bool
  pub lt : ℕ
  pub last : Energies
  pub lines : List PlotLine

-- The body of the loop, for the time `ot` of the start.
unfoldable pub plot_round : Available → ℕ → ℕ → Plot → Reading → Plot
plot_round a packages ot p r = record {
  first_time = false;
  lt = r.ct;
  last = r.energies;
  lines =
      if p.first_time
      then p.lines
      else p.lines
        ++ (record {
          elapsed = r.ct - ot;
          interval = r.ct - p.lt;
          columns = print_columns a packages 0 r.energies p.last;
        }
            ∷ []);
}

unfoldable pub plot_rounds : Available → ℕ → ℕ → Plot → List Reading → Plot
plot_rounds a packages ot p [] = p
plot_rounds a packages ot p (r ∷ rs) = plot_rounds a packages ot (plot_round a packages ot p r) rs

-- From `ready` on, where the energies of the detection are at hand.
unfoldable pub plot : Available → ℕ → Reading → List Reading → List PlotLine
plot a packages start rs =
    (plot_rounds a packages start.ct
      (record { first_time = true; lt = start.ct; last = start.energies; lines = [] }) rs).lines
