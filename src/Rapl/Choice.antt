-- ===== src/Rapl/Choice.antt =====
-- The options of rapl-read/rapl-read.c and rapl-read/rapl-plot.c, and which of the three ways to the
-- counters their `main` takes.
use uarch_configure.Common.{
  ℕ, ◌≡◌, arith, not, ◌&&◌, if◌then◌else◌, Bool, true, false, Option, none, some, List, [], ◌∷◌,
  ◌++◌,
}

-- What `getopt` returns, with the number that `atoi` makes of the argument.
pub data Opt : Type 0 where
  core : ℕ → Opt
  help msr perf sysfs unknown : Opt

pub record Forced : Type 0 where
  pub core : ℕ
  pub force_msr : Bool
  pub force_perf_event : Bool
  pub force_sysfs : Bool

-- The loop over the options; `exits` is the status that the program ends with.
pub data Parsed : Type 0 where
  exits : ℕ → Parsed
  options : Forced → Parsed

unfoldable pub parse_options : Forced → List Opt → Parsed
parse_options f [] = options f
parse_options f (Opt.core n ∷ os) = parse_options (record f { core = n }) os
parse_options f (help ∷ os) = exits 0
parse_options f (msr ∷ os) = parse_options (record f { force_msr = true }) os
parse_options f (perf ∷ os) = parse_options (record f { force_perf_event = true }) os
parse_options f (sysfs ∷ os) = parse_options (record f { force_sysfs = true }) os
parse_options f (unknown ∷ os) = exits 255

abbrev pub no_options : Forced
no_options = record { core = 0; force_msr = false; force_perf_event = false; force_sysfs = false }

pub data Interface : Type 0 where
  by_sysfs by_perf_event by_msr : Interface

-- Whether each way succeeds; `perf_event` is `rapl_perf` or `rapl_perf_detect`, `msr` is `rapl_msr` or
-- `rapl_detect_msr`.
pub record Ways : Type 0 where
  pub sysfs : Bool
  pub perf_event : Bool
  pub msr : Bool

-- The ways that were tried, in order, and the one that succeeded.
pub record Tried : Type 0 where
  pub tried : List Interface
  pub used : Option Interface

abbrev pub attempt : Interface → Bool → Tried → Tried
attempt i works t = record { tried = t.tried ++ (i ∷ []); used = if works then some i else none }

abbrev pub failed : Tried → Bool
failed t = elim t.used [ none ↦ true | some i ↦ false ]

-- `main` of rapl-read.c; `result` is -1 at first.
unfoldable pub read_main : Forced → Ways → Tried
read_main f w =
    let start : Tried = record { tried = []; used = none } in
    let one =
      if not f.force_msr && not f.force_perf_event then attempt by_sysfs w.sysfs start else start in
    let two =
      if failed one
      then (if f.force_perf_event && not f.force_msr
          then attempt by_perf_event w.perf_event one
          else one)
      else one in
    if failed two then attempt by_msr w.msr two else two

-- `main` of rapl-plot.c up to `ready`.
unfoldable pub plot_main : Forced → Ways → Tried
plot_main f w =
    let start : Tried = record { tried = []; used = none } in
    let one =
      if not f.force_msr && not f.force_perf_event then attempt by_sysfs w.sysfs start else start in
    let two =
      if f.force_perf_event && not f.force_msr
      then attempt by_perf_event w.perf_event one
      else one in
    if not (failed one) then one else if not (failed two) then two else attempt by_msr w.msr two

-- One way by the options, and the registers where that fails or is not taken.
abbrev pub preferred : Forced → Interface
preferred f = if f.force_msr then by_msr else if f.force_perf_event then by_perf_event else by_sysfs

abbrev pub works : Ways → Interface → Bool
works w by_sysfs = w.sysfs
works w by_perf_event = w.perf_event
works w by_msr = w.msr

abbrev pub then_msr : Ways → Interface → Tried
then_msr w by_msr = attempt by_msr w.msr (record { tried = []; used = none })
then_msr w i =
    if works w i
    then record { tried = i ∷ []; used = some i }
    else attempt by_msr w.msr (record { tried = i ∷ []; used = none })

-- Both programs try one way, the registers with -m, else perf_event with -p, else sysfs, and the
-- registers where it fails; -s changes nothing.
pub read_main-plot_main :
    (f : Forced) (w : Ways)
    → (read_main f w ≡ then_msr w (preferred f)) × (plot_main f w ≡ then_msr w (preferred f))
unfolding read_main plot_main
read_main-plot_main f w = (ground arith, ground arith)
