-- ===== src/Rapl/Perf.antt =====
-- rapl_perf of rapl-read/rapl-read.c, and rapl_perf_detect and rapl_perf of rapl-read/rapl-plot.c: the
-- energies by the perf_event interface. What the calls of the system give is an argument.
pub mod Files
pub mod Stored
use uarch_configure.Common.{
  ℕ, zero, suc, ◌+◌, ◌^◌, ◌==◌, ltb, ◌&&◌, if◌then◌else◌, Bool, true, false, Option, none, some,
  List, [], ◌∷◌, ◌++◌,
}
use uarch_configure.Common.Text.{Text, codes, equal_text}

abbrev pub rapl_domain_names : List Text
rapl_domain_names =
    codes "energy-cores"
    ∷ codes "energy-gpu"
    ∷ codes "energy-pkg"
    ∷ codes "energy-ram"
    ∷ codes "energy-psys"
    ∷ []

-- Below /sys/bus/event_source/devices/power: whether the file `type` opens, and for each domain the
-- number in its file, `none` where that does not open. `stale` is what `config[i]` held before, and
-- `paranoid` the pattern of the number in perf_event_paranoid, `none` where that does not open.
pub record PerfFiles : Type 0 where
  pub type_opens : Bool
  pub config : List (Option ℕ)
  pub stale : List ℕ
  pub paranoid : Option ℕ

-- What `perf_event_open` gives: a descriptor, or an error, which is EACCES or another.
pub data OpenResult : Type 0 where
  opened : ℕ → OpenResult
  denied failed : OpenResult

unfoldable pub configs : List (Option ℕ) → List ℕ → List ℕ
configs (some c ∷ files) (s ∷ stale) = c ∷ configs files stale
configs (none ∷ files) (s ∷ stale) = s ∷ configs files stale
configs _ _ = []

unfoldable pub check_paranoid : Option ℕ → ℕ
check_paranoid none = 500
check_paranoid (some v) = v

-- The value of perf_event_paranoid that is shown for EACCES.
abbrev pub shown_paranoid : ℕ → Option ℕ
shown_paranoid v = if ltb 0 v && ltb v (2 ^ 31) then some v else none

-- Why the opening stops.
pub data Reason : Type 0 where
  permission_denied : Option ℕ → Reason
  error_opening : Reason

-- The descriptors of the loop, `none` for -1; or it stops, with those open that were opened before.
pub data Opening {ℓ} (A : Type ℓ) : Type ℓ where
  stopped : List ℕ → Reason → Opening A
  descriptors : A → Opening A

-- An open descriptor, before what follows.
unfoldable pub with_open : ℕ → Opening (List (Option ℕ)) → Opening (List (Option ℕ))
with_open fd (stopped fds r) = stopped (fd ∷ fds) r
with_open fd (descriptors fds) = descriptors (some fd ∷ fds)

unfoldable pub without : Opening (List (Option ℕ)) → Opening (List (Option ℕ))
without (stopped fds r) = stopped fds r
without (descriptors fds) = descriptors (none ∷ fds)

unfoldable pub open_result :
    Option ℕ → OpenResult → Opening (List (Option ℕ)) → Opening (List (Option ℕ))
open_result p (opened fd) rest = with_open fd rest
open_result p denied rest = stopped [] (permission_denied (shown_paranoid (check_paranoid p)))
open_result p failed rest = stopped [] error_opening

-- The loop over the domains, on the core of a package.
unfoldable pub open_domains :
    (ℕ → ℕ → OpenResult) → Option ℕ → ℕ → List ℕ → Opening (List (Option ℕ))
open_domains perf_event_open p core [] = descriptors []
open_domains perf_event_open p core (c ∷ cs) =
    let rest = open_domains perf_event_open p core cs in
    if c == 0 then without rest else open_result p (perf_event_open c core) rest

abbrev pub flatten : List (Option ℕ) → List ℕ
flatten [] = []
flatten (none ∷ fds) = flatten fds
flatten (some fd ∷ fds) = fd ∷ flatten fds

abbrev pub Table : Type 0
Table = List (List (Option ℕ))

unfoldable pub with_package : Opening (List (Option ℕ)) → Opening Table → Opening Table
with_package (stopped fds r) rest = stopped fds r
with_package (descriptors fds) (stopped more r) = stopped (flatten fds ++ more) r
with_package (descriptors fds) (descriptors table) = descriptors (fds ∷ table)

-- The loop over the packages, whose cores are in `package_map`.
unfoldable pub open_packages : (ℕ → ℕ → OpenResult) → Option ℕ → List ℕ → List ℕ → Opening Table
open_packages perf_event_open p [] cs = descriptors []
open_packages perf_event_open p (core ∷ cores) cs =
    with_package (open_domains perf_event_open p core cs) (open_packages perf_event_open p cores cs)

-- A line of `rapl_perf` of rapl-read.c: the package, the domain and the value that is scaled.
pub record PerfLine : Type 0 where
  pub package_number : ℕ
  pub domain : ℕ
  pub value : ℕ

-- The loop that reads and closes: the lines and the descriptors that it closes, in order.
unfoldable pub read_domains : (ℕ → ℕ) → ℕ → ℕ → List (Option ℕ) → List PerfLine × List ℕ
read_domains read j i [] = ([], [])
read_domains read j i (none ∷ fds) = read_domains read j (suc i) fds
read_domains read j i (some fd ∷ fds) =
    let (lines, closed) = read_domains read j (suc i) fds in
    (record { package_number = j; domain = i; value = read fd } ∷ lines, fd ∷ closed)

unfoldable pub read_packages : (ℕ → ℕ) → ℕ → Table → List PerfLine × List ℕ
read_packages read j [] = ([], [])
read_packages read j (fds ∷ table) =
    let (lines, closed) = read_domains read j 0 fds in
    let (more, closed') = read_packages read (suc j) table in (lines ++ more, closed ++ closed')

-- What comes of `rapl_perf` of rapl-read.c: -1 without a descriptor, -1 with the ones that are left open,
-- or 0 with the lines and the descriptors that were closed.
pub data PerfRun : Type 0 where
  no_support : PerfRun
  gave_up : List ℕ → Reason → PerfRun
  measured : List PerfLine → List ℕ → PerfRun

unfoldable pub finish_perf : (ℕ → ℕ) → Opening Table → PerfRun
finish_perf read (stopped fds r) = gave_up fds r
finish_perf read (descriptors table) =
    let (lines, closed) = read_packages read 0 table in measured lines closed

unfoldable pub rapl_perf : PerfFiles → (ℕ → ℕ → OpenResult) → (ℕ → ℕ) → List ℕ → PerfRun
rapl_perf files perf_event_open read cores =
    if files.type_opens
    then finish_perf read
        (open_packages perf_event_open files.paranoid cores (configs files.config files.stale))
    else no_support

-- `rapl_perf_detect` of rapl-plot.c, whose `config` is a global of zeros; `none` without `type`.
unfoldable pub rapl_perf_detect : PerfFiles → (ℕ → ℕ → OpenResult) → List ℕ → Option (Opening Table)
rapl_perf_detect files perf_event_open cores =
    if files.type_opens
    then some (
        open_packages perf_event_open files.paranoid cores
          (configs files.config (0 ∷ 0 ∷ 0 ∷ 0 ∷ 0 ∷ [])))
    else none

-- The energies of a package in rapl-plot.c, as the values that are scaled.
pub record PerfEnergies : Type 0 where
  pub package_energy : ℕ
  pub cores_energy : ℕ
  pub uncore_energy : ℕ
  pub dram_energy : ℕ
  pub psys_energy : ℕ

unfoldable pub store_energy : Text → ℕ → PerfEnergies → PerfEnergies
store_energy name v e =
    if equal_text (codes "energy-pkg") name
    then record e { package_energy = v }
    else if equal_text (codes "energy-cores") name
    then record e { cores_energy = v }
    else if equal_text (codes "energy-gpu") name
    then record e { uncore_energy = v }
    else if equal_text (codes "energy-ram") name
    then record e { dram_energy = v }
    else if equal_text (codes "energy-psys") name
    then record e { psys_energy = v }
    else e

-- The loop over the domains of `rapl_perf` of rapl-plot.c, which closes nothing.
unfoldable pub store_domains : (ℕ → ℕ) → List Text → List (Option ℕ) → PerfEnergies → PerfEnergies
store_domains read (name ∷ names) (some fd ∷ fds) e =
    store_domains read names fds (store_energy name (read fd) e)
store_domains read (name ∷ names) (none ∷ fds) e = store_domains read names fds e
store_domains read _ _ e = e

unfoldable pub plot_rapl_perf : (ℕ → ℕ) → Table → List PerfEnergies → List PerfEnergies
plot_rapl_perf read (fds ∷ table) (e ∷ es) =
    store_domains read rapl_domain_names fds e ∷ plot_rapl_perf read table es
plot_rapl_perf read _ es = es
