-- ===== src/Rapl/Plot/Cpu/Same.antt =====
-- detect_cpu of rapl-read/rapl-plot.c against that of rapl-read/rapl-read.c.
use uarch_configure.Common.{
  ℕ, ◌≡◌, ◌⊎◌, inl, inr, refl, sym, ap, subst, ◌∙◌, arith, ◌==◌, ==→eq, if◌then◌else◌, Bool,
  Bool-cases, true, false, Option, none, some, List, [], ◌∷◌, one_of, All,
}
use uarch_configure.Common.Text.{Text, codes}
use uarch_configure.Rapl.{
  Vendor, intel, other, Msrs, no_msrs, intel_msrs, select_model, known_models,
}
use uarch_configure.Rapl.Models.{one_of-All}
use uarch_configure.Rapl.Scan.{
  starts_with, scan_number, scan_vendor, Cpu, vendor_line, scan_line, scan_lines, fault, returns,
  finish_detect, detect_cpu,
}
use uarch_configure.Rapl.Plot.Cpu.{
  PlotCpu, no_plot_cpu, PlotScan, scanned, unset, rejected, after, plot_vendor, plot_family,
  plot_scan_line, plot_scan_lines, plot_models, plot_select, finish_plot, detected, plot_detect_cpu,
}

-- The variables of the other program, where this one went on.
abbrev vendor_of : Option Text → Vendor
vendor_of none = other
vendor_of (some v) = intel

abbrev to_cpu : PlotCpu → Cpu
to_cpu p = record {
  vendor_string = p.vendor;
  vendor = vendor_of p.vendor;
  family = p.family;
  model = p.model;
}

-- A family that was accepted.
abbrev IsFamily : Option ℕ → Type 0
IsFamily f = (f ≡ none) ⊎ (f ≡ some 6)

not_amd :
    (v : Text)
    → starts_with (codes "GenuineIntel") v ≡ true
    → starts_with (codes "AuthenticAMD") v ≡ false
unfolding starts_with
not_amd [] h = refl
not_amd (c ∷ s) h = ground arith

after-scanned :
    (x : PlotScan) (next : PlotCpu → PlotScan) (d : PlotCpu)
    → after x next ≡ scanned d
    → (c : PlotCpu) × (x ≡ scanned c) × (next c ≡ scanned d)
unfolding after
after-scanned (scanned c) next d h = (c, refl, h)
after-scanned unset next d h = absurd (ground arith)
after-scanned rejected next d h = absurd (ground arith)

-- The line of the vendor keeps the family.
vendor-same :
    (v : Option Text) (s : Text) (c d : PlotCpu)
    → scan_vendor s c.vendor ≡ v
    → plot_vendor v c ≡ scanned d
    → (vendor_line s (to_cpu c) ≡ some (to_cpu d)) × (d.family ≡ c.family)
unfolding plot_vendor vendor_line
vendor-same none s c d e h = absurd (ground arith)
vendor-same (some v) s c d e h = elim (Bool-cases (starts_with (codes "GenuineIntel") v)) [
  | inl y ↦
      let kept : record c { vendor = some v } ≡ d = ground arith in
      subst (λ d. (vendor_line s (to_cpu c) ≡ some (to_cpu d)) × (d.family ≡ c.family)) kept
        (rw (e, vendor_line, not_amd v y, y) refl, refl)
  | inr n ↦ absurd (ground arith)
]

family-same :
    (f : Option ℕ) (c d : PlotCpu)
    → plot_family f c ≡ scanned d
    → (d ≡ record c { family = f }) × IsFamily f
unfolding plot_family
family-same none c d h = absurd (ground arith)
family-same (some f) c d h = elim (Bool-cases (f == 6)) [
  | inl y ↦ (sym (ground arith), inr (ap some (==→eq f 6 y)))
  | inr n ↦ absurd (ground arith)
]

vendor_test :
    (b : Bool) (s : Text) (c d : PlotCpu)
    → (if b then plot_vendor (scan_vendor s c.vendor) c else scanned c) ≡ scanned d
    → ((if b then vendor_line s (to_cpu c) else some (to_cpu c)) ≡ some (to_cpu d))
      × (d.family ≡ c.family)
vendor_test true s c d h = vendor-same (scan_vendor s c.vendor) s c d refl h
vendor_test false s c d h =
    let kept : c ≡ d = ground arith in
    subst (λ d. (some (to_cpu c) ≡ some (to_cpu d)) × (d.family ≡ c.family)) kept (refl, refl)

family_test :
    (b : Bool) (f : Option ℕ) (c d : PlotCpu)
    → IsFamily c.family
    → (if b then plot_family f c else scanned c) ≡ scanned d
    → (d ≡ record c { family = if b then f else c.family }) × IsFamily d.family
family_test true f c d ok h =
    let (kept, six) = family-same f c d h in (kept, subst (λ e. IsFamily e.family) (sym kept) six)
family_test false f c d ok h =
    let kept : c ≡ d = ground arith in (sym kept, subst (λ e. IsFamily e.family) kept ok)

-- A line that this program goes on after leaves the same variables in the other one.
line-same :
    (s : Text) (c d : PlotCpu)
    → IsFamily c.family
    → plot_scan_line s c ≡ scanned d
    → (scan_line s (to_cpu c) ≡ some (to_cpu d)) × IsFamily d.family
unfolding plot_scan_line scan_line
line-same s c d ok h =
    let (v, ev, h') = after-scanned _ _ d h in
    let (f, ef, h'') = after-scanned _ _ d h' in
    let (same_v, kept_v) = vendor_test (starts_with (codes "vendor_i") s) s c v ev in
    let (same_f, ok_f) =
      family_test (starts_with (codes "cpu family") s) (scan_number 3 s v.family) v f
        (subst IsFamily (sym kept_v) ok) ef in
    let kept_d : record f {
      model = if starts_with (codes "model") s then scan_number 2 s f.model else f.model;
    }
        ≡ d =
      ground arith in
    (
      rw (same_v, scan_line)
          (ap
              (λ f. some (
                to_cpu (record f {
                  model =
                      if starts_with (codes "model") s then scan_number 2 s f.model else f.model;
                })))
              (sym same_f)
            ∙ ap (λ d. some (to_cpu d)) kept_d),
      subst (λ d. IsFamily d.family) kept_d ok_f,
    )

lines-same :
    (ss : List Text) (c d : PlotCpu)
    → IsFamily c.family
    → plot_scan_lines ss c ≡ scanned d
    → (scan_lines ss (to_cpu c) ≡ some (to_cpu d)) × IsFamily d.family
unfolding plot_scan_lines scan_lines
lines-same [] c d ok h =
    let kept : c ≡ d = ground arith in
    subst (λ d. (some (to_cpu c) ≡ some (to_cpu d)) × IsFamily d.family) kept (refl, ok)
lines-same (s ∷ ss) c d ok h =
    let (e, eq, h') = after-scanned _ _ d h in
    let (same_line, ok_e) = line-same s c e ok eq in
    let (same_rest, ok_d) = lines-same ss e d ok_e h' in
    (rw (same_line, scan_lines) same_rest, ok_d)

models_known : All (λ m. one_of m known_models ≡ true) plot_models
models_known = (
  refl,
  (
    refl,
    (
      refl,
      (refl, (refl, (refl, (refl, (refl, (refl, (refl, (refl, (refl, (refl, (refl, tt))))))))))),
    ),
  ),
)

selected :
    (o : Option ℕ) (m : ℕ) → plot_select o ≡ some m → (o ≡ some m) × (one_of m plot_models ≡ true)
unfolding plot_select
selected none m h = absurd (ground arith)
selected (some n) m h = elim (Bool-cases (one_of n plot_models)) [
  | inl y ↦
      let same : n ≡ m = ground arith in
      (ap some same, subst (λ k. one_of k plot_models ≡ true) same y)
  | inr n' ↦ absurd (ground (arith, n'))
]

finish-same :
    (v : Option Text) (f o : Option ℕ) (m : ℕ)
    → IsFamily f
    → o ≡ some m
    → one_of m known_models ≡ true
    → let c : Cpu = record { vendor_string = v; vendor = vendor_of v; family = f; model = o } in
      (finish_detect c ≡ fault) ⊎ ((msrs : Msrs) × (finish_detect c ≡ returns (some m, msrs)))
unfolding finish_detect select_model
finish-same none none o m ok e k = inr (no_msrs, rw e refl)
finish-same (some v) none o m ok e k = inl refl
finish-same none (some f) o m ok e k = inr (no_msrs, rw e refl)
finish-same (some v) (some f) o m (inl e') e k = absurd (ground arith)
finish-same (some v) (some f) o m (inr e') e k =
    let six : f ≡ 6 = ground arith in inr (intel_msrs, rw (six, e, k) refl)

-- Whatever /proc/cpuinfo holds, a model that rapl-plot.c accepts is the model that rapl-read.c returns,
-- unless rapl-read.c there uses a family that no line gave.
pub plot_detect_cpu-detect_cpu :
    (file : Option (List Text)) (m : ℕ)
    → plot_detect_cpu file ≡ detected (some m)
    → (detect_cpu file ≡ fault) ⊎ ((msrs : Msrs) × (detect_cpu file ≡ returns (some m, msrs)))
unfolding plot_detect_cpu detect_cpu finish_plot
plot_detect_cpu-detect_cpu none m h = absurd (ground arith)
plot_detect_cpu-detect_cpu (some ss) m h = finished (plot_scan_lines ss no_plot_cpu) refl h
  where
    finished :
        (x : PlotScan)
        → plot_scan_lines ss no_plot_cpu ≡ x
        → finish_plot x ≡ detected (some m)
        → (detect_cpu (some ss) ≡ fault)
          ⊎ ((msrs : Msrs) × (detect_cpu (some ss) ≡ returns (some m, msrs)))
    finished unset e h = absurd (ground arith)
    finished rejected e h = absurd (ground arith)
    finished (scanned c) e h =
        let (model, known) = selected c.model m (ground arith) in
        let (same, ok) = lines-same ss no_plot_cpu c (inl refl) e in
        rw (same, detect_cpu)
          (finish-same c.vendor c.family c.model m ok model
            (one_of-All (λ n. one_of n known_models ≡ true) plot_models m models_known known))
