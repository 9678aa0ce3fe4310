-- ===== src/Rapl/Perf/Files.antt =====
-- Which descriptors rapl_perf of rapl-read/rapl-read.c opens and which it closes.
use uarch_configure.Common.{
  ℕ, suc, subst, map, ◌≡◌, refl, sym, ap, ap₂, ◌∙◌, ◌==◌, Bool-cases, inl, inr, if◌then◌else◌, true,
  Option, none, some, List, [], ◌∷◌, ◌++◌,
}
use uarch_configure.Common.Digits.{map-append}
use uarch_configure.Rapl.Perf.{
  OpenResult, opened, denied, failed, Reason, permission_denied, error_opening, shown_paranoid,
  check_paranoid, Opening, stopped, descriptors, with_open, without, open_result, open_domains,
  flatten, Table, with_package, open_packages, PerfLine, read_domains, read_packages, PerfRun,
  gave_up, measured, finish_perf, PerfFiles, configs, rapl_perf,
}

-- The events that are asked for, in order: each configuration that is not 0, on each core.
abbrev pub nonzero : ℕ → List ℕ → List (ℕ × ℕ)
nonzero core [] = []
nonzero core (c ∷ cs) = if c == 0 then nonzero core cs else (c, core) ∷ nonzero core cs

abbrev pub events : List ℕ → List ℕ → List (ℕ × ℕ)
events [] cs = []
events (core ∷ cores) cs = nonzero core cs ++ events cores cs

-- Opening a list of events up to the first that fails: the descriptors, and why it stopped.
abbrev pub prepend : Option ℕ → OpenResult → List ℕ × Option Reason → List ℕ × Option Reason
prepend p (opened fd) rest = (fd ∷ rest.0, rest.1)
prepend p denied rest = ([], some (permission_denied (shown_paranoid (check_paranoid p))))
prepend p failed rest = ([], some error_opening)

abbrev pub open_events : (ℕ → ℕ → OpenResult) → Option ℕ → List (ℕ × ℕ) → List ℕ × Option Reason
open_events f p [] = ([], none)
open_events f p ((c, core) ∷ es) = prepend p (f c core) (open_events f p es)

abbrev of_package : Opening (List (Option ℕ)) → List ℕ × Option Reason
of_package (stopped fds r) = (fds, some r)
of_package (descriptors fds) = (flatten fds, none)

abbrev flatten_all : Table → List ℕ
flatten_all [] = []
flatten_all (fds ∷ table) = flatten fds ++ flatten_all table

abbrev of_table : Opening Table → List ℕ × Option Reason
of_table (stopped fds r) = (fds, some r)
of_table (descriptors table) = (flatten_all table, none)

of-without : (x : Opening (List (Option ℕ))) → of_package (without x) ≡ of_package x
unfolding without
of-without (stopped fds r) = refl
of-without (descriptors fds) = refl

of-open_result :
    (p : Option ℕ) (o : OpenResult) (x : Opening (List (Option ℕ)))
    → of_package (open_result p o x) ≡ prepend p o (of_package x)
unfolding open_result with_open
of-open_result p (opened fd) (stopped fds r) = refl
of-open_result p (opened fd) (descriptors fds) = refl
of-open_result p denied x = refl
of-open_result p failed x = refl

-- A second list behind a first one, which may stop.
abbrev then_open : List ℕ × Option Reason → List ℕ × Option Reason → List ℕ × Option Reason
then_open (fds, some r) rest = (fds, some r)
then_open (fds, none) rest = (fds ++ rest.0, rest.1)

prepend-then_open :
    (p : Option ℕ) (o : OpenResult) (x y : List ℕ × Option Reason)
    → prepend p o (then_open x y) ≡ then_open (prepend p o x) y
prepend-then_open p (opened fd) (fds, none) y = refl
prepend-then_open p (opened fd) (fds, some r) y = refl
prepend-then_open p denied x y = refl
prepend-then_open p failed x y = refl

open_events-append :
    (f : ℕ → ℕ → OpenResult) (p : Option ℕ) (es fs : List (ℕ × ℕ))
    → open_events f p (es ++ fs) ≡ then_open (open_events f p es) (open_events f p fs)
open_events-append f p [] fs = refl
open_events-append f p (e ∷ es) fs =
    ap (prepend p (f e.0 e.1)) (open_events-append f p es fs)
    ∙ prepend-then_open p (f e.0 e.1) (open_events f p es) (open_events f p fs)

open_domains-events :
    (f : ℕ → ℕ → OpenResult) (p : Option ℕ) (core : ℕ) (cs : List ℕ)
    → of_package (open_domains f p core cs) ≡ open_events f p (nonzero core cs)
unfolding open_domains
open_domains-events f p core [] = refl
open_domains-events f p core (c ∷ cs) = elim (Bool-cases (c == 0)) [
  | inl y ↦
      rw (y, open_domains) (of-without (open_domains f p core cs) ∙ open_domains-events f p core cs)
  | inr n ↦
      rw (n, open_domains)
        (of-open_result p (f c core) (open_domains f p core cs)
          ∙ ap (prepend p (f c core)) (open_domains-events f p core cs))
]

of-with_package :
    (x : Opening (List (Option ℕ))) (y : Opening Table)
    → of_table (with_package x y) ≡ then_open (of_package x) (of_table y)
unfolding with_package
of-with_package (stopped fds r) y = refl
of-with_package (descriptors fds) (stopped more r) = refl
of-with_package (descriptors fds) (descriptors table) = refl

-- The two loops open what one loop over all the events opens, and stop where it stops.
open_packages-events :
    (f : ℕ → ℕ → OpenResult) (p : Option ℕ) (cores cs : List ℕ)
    → of_table (open_packages f p cores cs) ≡ open_events f p (events cores cs)
unfolding open_packages
open_packages-events f p [] cs = refl
open_packages-events f p (core ∷ cores) cs =
    of-with_package (open_domains f p core cs) (open_packages f p cores cs)
    ∙ ap₂ then_open (open_domains-events f p core cs) (open_packages-events f p cores cs)
    ∙ sym (open_events-append f p (nonzero core cs) (events cores cs))

abbrev pub values : List PerfLine → List ℕ
values lines = map (λ l. l.value) lines

read_domains-flatten :
    (read : ℕ → ℕ) (j i : ℕ) (fds : List (Option ℕ))
    → (values (read_domains read j i fds).0 ≡ map read (flatten fds))
      × ((read_domains read j i fds).1 ≡ flatten fds)
unfolding read_domains
read_domains-flatten read j i [] = (refl, refl)
read_domains-flatten read j i (none ∷ fds) = read_domains-flatten read j (suc i) fds
read_domains-flatten read j i (some fd ∷ fds) =
    let (lines, closed) = read_domains-flatten read j (suc i) fds in
    (ap (λ t. read fd ∷ t) lines, ap (λ t. fd ∷ t) closed)

read_packages-flatten :
    (read : ℕ → ℕ) (j : ℕ) (table : Table)
    → (values (read_packages read j table).0 ≡ map read (flatten_all table))
      × ((read_packages read j table).1 ≡ flatten_all table)
unfolding read_packages
read_packages-flatten read j [] = (refl, refl)
read_packages-flatten read j (fds ∷ table) =
    let (lines, closed) = read_domains-flatten read j 0 fds in
    let (more, closed') = read_packages-flatten read (suc j) table in
    (
      map-append (λ l. l.value) (read_domains read j 0 fds).0 (read_packages read (suc j) table).0
          ∙ ap₂ (λ a b. a ++ b) lines more
          ∙ sym (map-append read (flatten fds) (flatten_all table)),
      ap₂ (λ a b. a ++ b) closed closed',
    )

-- How a run ends, for what opening all its events gives.
abbrev pub Ends : (ℕ → ℕ) → List ℕ × Option Reason → PerfRun → Type 0
Ends read (fds, none) run =
    (lines : List PerfLine) × (run ≡ measured lines fds) × (values lines ≡ map read fds)
Ends read (fds, some r) run = run ≡ gave_up fds r

finish_perf-Ends : (read : ℕ → ℕ) (x : Opening Table) → Ends read (of_table x) (finish_perf read x)
unfolding finish_perf
finish_perf-Ends read (stopped fds r) = refl
finish_perf-Ends read (descriptors table) =
    let (lines, closed) = read_packages-flatten read 0 table in
    ((read_packages read 0 table).0, ap (measured (read_packages read 0 table).0) closed, lines)

-- Where perf_event is supported: if each event, a configuration that is not 0 on the core of a package,
-- opens, `rapl_perf` reads each descriptor once, in the order of the events, and closes them all;
-- otherwise it gives up at the first that does not open, and those before it stay open.
pub rapl_perf-Ends :
    (files : PerfFiles) (f : ℕ → ℕ → OpenResult) (read : ℕ → ℕ) (cores : List ℕ)
    → files.type_opens ≡ true
    → Ends read
        (open_events f files.paranoid (events cores (configs files.config files.stale)))
        (rapl_perf files f read cores)
unfolding rapl_perf
rapl_perf-Ends files f read cores h =
    let cs = configs files.config files.stale in
    rw (h, rapl_perf)
      (subst (λ w. Ends read w (finish_perf read (open_packages f files.paranoid cores cs)))
        (open_packages-events f files.paranoid cores cs)
        (finish_perf-Ends read (open_packages f files.paranoid cores cs)))
