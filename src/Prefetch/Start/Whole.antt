-- ===== src/Prefetch/Start/Whole.antt =====
-- Whole runs of intel-prefetch/intel-prefetch-disable.c.
use uarch_configure.Common.{
  ℕ, ◌≡◌, refl, ap, ◌∙◌, Bool, true, false, Option, none, some, List, [], ◌∷◌, ◌++◌, All,
}
use uarch_configure.Common.Text.{Text, codes, is_space, skip_space}
use uarch_configure.Rapl.Scan.{starts_with, word, skip_words, scan_vendor}
use uarch_configure.Rapl.Scan.Cpuinfo.{IsOther, scan-others}
use uarch_configure.Rapl.Plot.Cpu.{
  PlotCpu, no_plot_cpu, rejected, scanned, after, plot_vendor, plot_scan_line, plot_scan_lines,
}
use uarch_configure.Prefetch.{Machine, returns}
use uarch_configure.Prefetch.Cores.{run_prefetch}
use uarch_configure.Prefetch.Start.{
  PrefetchOpt, chosen, choose_options, prefetch_detect_cpu, prefetch_main,
}

abbrev found : ℕ → PlotCpu
found m = record { vendor = some (codes "GenuineIntel"); family = some 6; model = some m }

line-other : (s : Text) (c : PlotCpu) → IsOther s → plot_scan_line s c ≡ scanned c
unfolding plot_scan_line after starts_with
line-other s c (v, f, m) = rw (v, f, m) refl

step :
    (s : Text) (ss : List Text) (c d : PlotCpu)
    → plot_scan_line s c ≡ scanned d
    → plot_scan_lines (s ∷ ss) c ≡ plot_scan_lines ss d
unfolding plot_scan_lines after
step s ss c d e = ap (λ x. after x (plot_scan_lines ss)) e

others-skipped :
    (s : Text) (ss : List Text) (c : PlotCpu)
    → IsOther s
    → plot_scan_lines (s ∷ ss) c ≡ plot_scan_lines ss c
others-skipped s ss c o = step s ss c c (line-other s c o)

-- A vendor line with some word.
abbrev pub vendor_line_of : Text → Text
vendor_line_of v = codes "vendor_id\t: " ++ (v ++ codes "\n")

word-line : (v : Text) → All (λ c. is_space c ≡ false) v → word (v ++ codes "\n") ≡ (v, codes "\n")
unfolding word is_space
word-line [] h = refl
word-line (c ∷ v) h = rw (word-line v h.1, h.0) refl

skip-vendor : (v : Text) → skip_words 2 (vendor_line_of v) ≡ some (b' ' ∷ (v ++ codes "\n"))
unfolding skip_words word skip_space is_space
skip-vendor v = refl

skip-blank : (c : ℕ) (s : Text) → is_space c ≡ false → skip_space (b' ' ∷ c ∷ s) ≡ c ∷ s
unfolding skip_space
skip-blank c s h =
    let blank : is_space (b' ') ≡ true = unfold is_space in refl in rw (blank, h) refl

scan_vendor-found :
    (s rest : Text) (c : ℕ) (cs : Text) (old : Option Text)
    → skip_words 2 s ≡ some rest
    → skip_space rest ≡ c ∷ cs
    → scan_vendor s old ≡ some (word (c ∷ cs)).0
unfolding scan_vendor
scan_vendor-found s rest c cs old e f = rw (e, scan_vendor, f) refl

scan_vendor-line :
    (c : ℕ) (v : Text) (old : Option Text)
    → All (λ c. is_space c ≡ false) (c ∷ v)
    → scan_vendor (vendor_line_of (c ∷ v)) old ≡ some (c ∷ v)
scan_vendor-line c v old h =
    scan_vendor-found (vendor_line_of (c ∷ v)) (b' ' ∷ c ∷ (v ++ codes "\n")) c (v ++ codes "\n")
      old (skip-vendor (c ∷ v)) (skip-blank c (v ++ codes "\n") h.0)
    ∙ ap (λ x. some x.0) (word-line (c ∷ v) h)

starts_with-vendor : (s : Text) → (starts_with (codes "vendor_i") (vendor_line_of s) ≡ true)
unfolding starts_with
starts_with-vendor s = refl

line-foreign :
    (v : ℕ) (vs : Text) (c : PlotCpu)
    → All (λ c. is_space c ≡ false) (v ∷ vs)
    → starts_with (codes "GenuineIntel") (v ∷ vs) ≡ false
    → plot_scan_line (vendor_line_of (v ∷ vs)) c ≡ rejected
unfolding plot_scan_line after plot_vendor
line-foreign v vs c h n = rw (starts_with-vendor (v ∷ vs), scan_vendor-line v vs c.vendor h, n) refl

-- Where the first vendor line that /proc/cpuinfo has names another vendor, the machine stays as it was.
pub prefetch_main-foreign :
    (opts : List PrefetchOpt) (disable : Bool) (core : Option ℕ) (before rest : List Text) (v : ℕ)
    (vs : Text) (m : Machine)
    → choose_options opts true none ≡ chosen disable core
    → All IsOther before
    → All (λ c. is_space c ≡ false) (v ∷ vs)
    → starts_with (codes "GenuineIntel") (v ∷ vs) ≡ false
    → prefetch_main opts (some (before ++ (vendor_line_of (v ∷ vs) ∷ rest))) m
      ≡ some (returns none m)
unfolding prefetch_main prefetch_detect_cpu run_prefetch
prefetch_main-foreign opts disable core before rest v vs m o other word foreign =
    let read : plot_scan_lines (before ++ (vendor_line_of (v ∷ vs) ∷ rest)) no_plot_cpu ≡ rejected =
      scan-others plot_scan_lines others-skipped before (vendor_line_of (v ∷ vs) ∷ rest) no_plot_cpu
        other
      ∙ (unfold plot_scan_lines in
          unfold after in
          ap (λ x. after x (plot_scan_lines rest)) (line-foreign v vs no_plot_cpu word foreign)) in
    rw (o, read) refl
