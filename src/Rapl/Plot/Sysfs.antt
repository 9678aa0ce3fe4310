-- ===== src/Rapl/Plot/Sysfs.antt =====
-- `rapl_sysfs` of rapl-read/rapl-plot.c, which stores the energies by their names.
pub mod Stored
use mathlib.Core.Option
use uarch_configure.Common.{ℕ, if◌then◌else◌, Bool, Option, none, some, List, ◌∷◌}
use uarch_configure.Common.Text.{Text, codes, equal_text}
use uarch_configure.Rapl.Sysfs.{Powercap, all_names, gather}
use uarch_configure.Rapl.Scan.{starts_with}

-- `package_energy[j]` and the like in microjoules; `none` is a value that was never written.
pub record PackageEnergies : Type 0 where
  pub package_energy : Option ℕ
  pub cores_energy : Option ℕ
  pub uncore_energy : Option ℕ
  pub dram_energy : Option ℕ

-- `!strncmp("package",event_names[j][i],7)`
abbrev pub is_package : Text → Bool
is_package name = starts_with (codes "package") name

unfoldable pub assign_energy : Text → Option ℕ → PackageEnergies → PackageEnergies
assign_energy name before e =
    if is_package name
    then record e { package_energy = before }
    else if equal_text (codes "core") name
    then record e { cores_energy = before }
    else if equal_text (codes "uncore") name
    then record e { uncore_energy = before }
    else if equal_text (codes "dram") name
    then record e { dram_energy = before }
    else e

-- The loop over the domains of a package.
unfoldable pub assign_package :
    List (Option Text) → List (Option ℕ) → PackageEnergies → PackageEnergies
assign_package (some name ∷ names) (b ∷ bs) e = assign_package names bs (assign_energy name b e)
assign_package (none ∷ names) (b ∷ bs) e = assign_package names bs e
assign_package _ _ e = e

unfoldable pub assign_all :
    List (List (Option Text)) → List (List (Option ℕ)) → List PackageEnergies → List PackageEnergies
assign_all (names ∷ packages) (b ∷ bs) (e ∷ es) =
    assign_package names b e ∷ assign_all packages bs es
assign_all _ _ es = es

-- The energies behind it, `none` for -1.
unfoldable pub plot_sysfs : ℕ → Powercap → List PackageEnergies → Option (List PackageEnergies)
plot_sysfs total_packages p es =
    Option.map (λ names. assign_all names (gather p.energy 0 names) es)
      (all_names total_packages 0 p.name)
