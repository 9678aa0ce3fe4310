-- ===== src/Packages.antt =====
-- `detect_packages` of rapl-read/rapl-read.c (rapl-plot.c and amd-apm-read/apm-read.c have the same
-- function): which cores there are, and the first core of each package.
pub mod Map
mod Examples
use uarch_configure.Common.{
  ℕ, zero, suc, ◌+◌, Option, none, some, List, [], ◌∷◌, get_elem?, set, replicate,
}

abbrev pub max_cpus : ℕ
max_cpus = 1024

abbrev pub max_packages : ℕ
max_packages = 16

-- `package_map` holds -1, here `none`, for a package that was not met.
pub record Packages : Type 0 where
  pub total_cores : ℕ
  pub total_packages : ℕ
  pub package_map : List (Option ℕ)

-- The body of the loop for core `i`; `none` where the package's number is no index of the map.
unfoldable pub place : ℕ → ℕ → Packages → Option Packages
place i id st = elim (get_elem? st.package_map id) [
  | none ↦ none
  | some none ↦ some (record st {
    total_packages = st.total_packages + 1;
    package_map = set st.package_map id (some i);
  })
  | some (some first) ↦ some st
]

-- The list is what the files of the coming cores hold: it ends where a file does not open.
unfoldable pub detect_loop : ℕ → ℕ → List ℕ → Packages → Option Packages
detect_loop zero i ps st = some (record st { total_cores = i })
detect_loop (suc rounds) i [] st = some (record st { total_cores = i })
detect_loop (suc rounds) i (p ∷ ps) st = elim (place i p st) [
  | none ↦ none
  | some st' ↦ detect_loop rounds (i + 1) ps st'
]

unfoldable pub detect_packages : List ℕ → Option Packages
detect_packages ps =
    detect_loop max_cpus 0 ps
      (record { total_cores = 0; total_packages = 0; package_map = replicate max_packages none })
