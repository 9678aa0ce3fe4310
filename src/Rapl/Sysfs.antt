-- ===== src/Rapl/Sysfs.antt =====
-- `rapl_sysfs` of rapl-read/rapl-read.c and of rapl-read/rapl-plot.c: the energies that the kernel shows
-- below /sys/class/powercap, in microjoules.
pub mod Lines
use mathlib.Core.Option
use uarch_configure.Common.{
  ℕ, zero, suc, ◌+◌, ◌-◌, ◌==◌, if◌then◌else◌, Bool, true, false, Option, none, some, List, [], ◌∷◌,
  ◌++◌, take,
}
use uarch_configure.Common.Text.{Text, codes, equal_text}

-- The files: the name and the energy of domain `i` of package `j`, where domain 0 is the package and
-- the others are its subdirectories. `none` where a file does not open.
pub record Powercap : Type 0 where
  pub name : ℕ → ℕ → Option Text
  pub energy : ℕ → ℕ → Option ℕ

abbrev pub num_rapl_domains : ℕ
num_rapl_domains = 5

-- `for(i=start;...)`, `n` times.
abbrev pub each {ℓ} : {A : Type ℓ} → ℕ → ℕ → (ℕ → A) → List A
each start zero f = []
each start (suc n) f = f start ∷ each (start + 1) n f

-- `event_names[j]`, with `none` where `valid[j][i]` is 0; the package itself must be there.
abbrev pub package_names : Option Text → List (Option Text) → Option (List (Option Text))
package_names none domains = none
package_names (some n) domains = some (some n ∷ domains)

abbrev pub add_package {ℓ} : {A : Type ℓ} → Option A → Option (List A) → Option (List A)
add_package none rest = none
add_package (some names) none = none
add_package (some names) (some later) = some (names ∷ later)

-- The first loop over the packages, with the number of rounds that are left.
unfoldable pub all_names : ℕ → ℕ → (ℕ → ℕ → Option Text) → Option (List (List (Option Text)))
all_names zero j name = some []
all_names (suc rounds) j name =
    add_package (package_names (name j 0) (each 1 (num_rapl_domains - 1) (name j)))
      (all_names rounds (j + 1) name)

-- `before[j]` or `after[j]`; `none` was never written.
abbrev pub gather_package : (ℕ → Option ℕ) → ℕ → List (Option Text) → List (Option ℕ)
gather_package energy i [] = []
gather_package energy i (none ∷ names) = none ∷ gather_package energy (i + 1) names
gather_package energy i (some n ∷ names) = energy i ∷ gather_package energy (i + 1) names

abbrev pub gather : (ℕ → ℕ → Option ℕ) → ℕ → List (List (Option Text)) → List (List (Option ℕ))
gather energy j [] = []
gather energy j (names ∷ packages) =
    gather_package (energy j) 0 names ∷ gather energy (j + 1) packages

-- What is printed of a domain: the name, and the values before and after, whose difference is shown.
pub record Line : Type 0 where
  pub package_number : ℕ
  pub domain : Text
  pub before : Option ℕ
  pub after : Option ℕ

abbrev pub package_lines : ℕ → List (Option Text) → List (Option ℕ) → List (Option ℕ) → List Line
package_lines j [] bs cs = []
package_lines j (name ∷ names) [] cs = []
package_lines j (name ∷ names) (b ∷ bs) [] = []
package_lines j (none ∷ names) (b ∷ bs) (a ∷ cs) = package_lines j names bs cs
package_lines j (some n ∷ names) (b ∷ bs) (a ∷ cs) =
    record { package_number = j; domain = n; before = b; after = a } ∷ package_lines j names bs cs

abbrev pub all_lines :
    ℕ → List (List (Option Text)) → List (List (Option ℕ)) → List (List (Option ℕ)) → List Line
all_lines j (names ∷ packages) (b ∷ bs) (a ∷ cs) =
    package_lines j names b a ++ all_lines (j + 1) packages bs cs
all_lines j _ _ _ = []

-- `rapl_sysfs` of rapl-read.c: the lines, `none` for -1. `later` are the energies a second later.
unfoldable pub rapl_sysfs : ℕ → Powercap → (ℕ → ℕ → Option ℕ) → Option (List Line)
rapl_sysfs total_packages p later =
    Option.map (λ names. all_lines 0 names (gather p.energy 0 names) (gather later 0 names))
      (all_names total_packages 0 p.name)
