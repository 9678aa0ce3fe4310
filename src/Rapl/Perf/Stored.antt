-- ===== src/Rapl/Perf/Stored.antt =====
-- Which energies rapl_perf of rapl-read/rapl-plot.c stores, against the lines of rapl-read/rapl-read.c.
use uarch_configure.Common.{ℕ, ◌≡◌, refl, ap, ◌∙◌, Option, none, some, List, [], ◌∷◌}
use uarch_configure.Common.Text.{Text, codes, equal_text}
use uarch_configure.Rapl.Perf.{rapl_domain_names, PerfEnergies, store_energy, store_domains}

abbrev read_or : (ℕ → ℕ) → Option ℕ → ℕ → ℕ
read_or read none old = old
read_or read (some fd) old = read fd

abbrev store_if : (ℕ → ℕ) → Text → Option ℕ → PerfEnergies → PerfEnergies
store_if read name none e = e
store_if read name (some fd) e = store_energy name (read fd) e

-- A domain, and then the others.
store_step :
    (read : ℕ → ℕ) (name : Text) (names : List Text) (o : Option ℕ) (fds : List (Option ℕ))
    (e f : PerfEnergies)
    → store_if read name o e ≡ f
    → store_domains read (name ∷ names) (o ∷ fds) e ≡ store_domains read names fds f
unfolding store_domains
store_step read name names none fds e f h = ap (store_domains read names fds) h
store_step read name names (some fd) fds e f h = ap (store_domains read names fds) h

store_pkg :
    (read : ℕ → ℕ) (o : Option ℕ) (e : PerfEnergies)
    → store_if read (codes "energy-pkg") o e
      ≡ record e { package_energy = read_or read o e.package_energy }
unfolding store_energy equal_text
store_pkg read none e = refl
store_pkg read (some fd) e = refl

store_cores :
    (read : ℕ → ℕ) (o : Option ℕ) (e : PerfEnergies)
    → store_if read (codes "energy-cores") o e
      ≡ record e { cores_energy = read_or read o e.cores_energy }
unfolding store_energy equal_text
store_cores read none e = refl
store_cores read (some fd) e = refl

store_gpu :
    (read : ℕ → ℕ) (o : Option ℕ) (e : PerfEnergies)
    → store_if read (codes "energy-gpu") o e
      ≡ record e { uncore_energy = read_or read o e.uncore_energy }
unfolding store_energy equal_text
store_gpu read none e = refl
store_gpu read (some fd) e = refl

store_ram :
    (read : ℕ → ℕ) (o : Option ℕ) (e : PerfEnergies)
    → store_if read (codes "energy-ram") o e
      ≡ record e { dram_energy = read_or read o e.dram_energy }
unfolding store_energy equal_text
store_ram read none e = refl
store_ram read (some fd) e = refl

store_psys :
    (read : ℕ → ℕ) (o : Option ℕ) (e : PerfEnergies)
    → store_if read (codes "energy-psys") o e
      ≡ record e { psys_energy = read_or read o e.psys_energy }
unfolding store_energy equal_text
store_psys read none e = refl
store_psys read (some fd) e = refl

-- Of a package with its five descriptors, each energy that has one is the value that is read from it,
-- and each other one is as it was: in the order of the names, those of the cores, the uncore domain,
-- the package, the DRAM and the platform.
pub store_domains-stored :
    (read : ℕ → ℕ) (cores gpu pkg ram psys : Option ℕ) (e : PerfEnergies)
    → store_domains read rapl_domain_names (cores ∷ gpu ∷ pkg ∷ ram ∷ psys ∷ []) e ≡ record {
      package_energy = read_or read pkg e.package_energy;
      cores_energy = read_or read cores e.cores_energy;
      uncore_energy = read_or read gpu e.uncore_energy;
      dram_energy = read_or read ram e.dram_energy;
      psys_energy = read_or read psys e.psys_energy;
    }
unfolding store_domains
store_domains-stored read c g p r s e =
    let e1 : PerfEnergies = record e { cores_energy = read_or read c e.cores_energy } in
    let e2 : PerfEnergies = record e1 { uncore_energy = read_or read g e.uncore_energy } in
    let e3 : PerfEnergies = record e2 { package_energy = read_or read p e.package_energy } in
    let e4 : PerfEnergies = record e3 { dram_energy = read_or read r e.dram_energy } in
    let last = codes "energy-psys" ∷ [] in
    let last2 = codes "energy-ram" ∷ last in
    let last3 = codes "energy-pkg" ∷ last2 in
    store_step read (codes "energy-cores") (codes "energy-gpu" ∷ last3) c (g ∷ p ∷ r ∷ s ∷ []) e e1
      (store_cores read c e)
    ∙ store_step read (codes "energy-gpu") last3 g (p ∷ r ∷ s ∷ []) e1 e2 (store_gpu read g e1)
    ∙ store_step read (codes "energy-pkg") last2 p (r ∷ s ∷ []) e2 e3 (store_pkg read p e2)
    ∙ store_step read (codes "energy-ram") last r (s ∷ []) e3 e4 (store_ram read r e3)
    ∙ store_step read (codes "energy-psys") [] s [] e4
        (record e4 { psys_energy = read_or read s e.psys_energy }) (store_psys read s e4)
