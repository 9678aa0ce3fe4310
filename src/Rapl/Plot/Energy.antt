-- ===== src/Rapl/Plot/Energy.antt =====
-- The energies that the lines of rapl-read/rapl-plot.c add up to.
use uarch_configure.Common.{
  ℕ, zero, suc, ◌+◌, ◌-◌, ◌≤◌, ◌≡◌, refl, sym, ap, ◌∙◌, arith, Bool, true, false, Option, none,
  some, List, [], ◌∷◌, ◌++◌, append-nil, append_assoc, get_elem?,
}
use uarch_configure.Rapl.Plot.{
  Available, Energies, Reading, PlotLine, column, print_columns, Plot, plot_round, plot_rounds,
  plot,
}

-- The line of a reading after another.
abbrev pub line_after : Available → ℕ → ℕ → Reading → Reading → PlotLine
line_after a packages ot before r = record {
  elapsed = r.ct - ot;
  interval = r.ct - before.ct;
  columns = print_columns a packages 0 r.energies before.energies;
}

-- The lines of readings that follow a first one.
abbrev pub lines_after : Available → ℕ → ℕ → Reading → List Reading → List PlotLine
lines_after a packages ot before [] = []
lines_after a packages ot before (r ∷ rs) =
    line_after a packages ot before r ∷ lines_after a packages ot r rs

-- The state of the loop after a reading.
abbrev plotted : Reading → List PlotLine → Plot
plotted r lines = record { first_time = false; lt = r.ct; last = r.energies; lines = lines }

plot_rounds-lines_after :
    (a : Available) (packages ot : ℕ) (before : Reading) (rs : List Reading) (lines : List PlotLine)
    → (plot_rounds a packages ot (plotted before lines) rs).lines
      ≡ lines ++ lines_after a packages ot before rs
unfolding plot_rounds plot_round
plot_rounds-lines_after a packages ot before [] lines = sym (append-nil lines)
plot_rounds-lines_after a packages ot before (r ∷ rs) lines =
    plot_rounds-lines_after a packages ot r rs (lines ++ (line_after a packages ot before r ∷ []))
    ∙ append_assoc lines (line_after a packages ot before r ∷ []) (lines_after a packages ot r rs)

-- The first reading prints nothing, and each later one a line that compares it with the one before.
pub plot-lines_after :
    (a : Available) (packages : ℕ) (start first : Reading) (rs : List Reading)
    → plot a packages start (first ∷ rs) ≡ lines_after a packages start.ct first rs
unfolding plot plot_rounds plot_round
plot-lines_after a packages start first rs = plot_rounds-lines_after a packages start.ct first rs []

-- The energy that column `c` of a line stands for.
abbrev pub energy : ℕ → PlotLine → ℕ
energy c l = elim (get_elem? l.columns c) [ none ↦ 0 | some (now, last) ↦ now - last ]

abbrev pub total : ℕ → List PlotLine → ℕ
total c [] = 0
total c (l ∷ ls) = energy c l + total c ls

-- The value that a reading has for column `c`.
abbrev pub value : Available → ℕ → ℕ → Reading → ℕ
value a packages c r = elim (get_elem? (print_columns a packages 0 r.energies r.energies) c) [
  | none ↦ 0
  | some (now, last) ↦ now
]

-- No value falls from one reading to the next.
abbrev pub Rises : (Reading → ℕ) → Reading → List Reading → Type 0
Rises v before [] = Unit {0}
Rises v before (r ∷ rs) = (v before ≤ v r) × Rises v r rs

abbrev pub last_of : Reading → List Reading → Reading
last_of r [] = r
last_of r (s ∷ rs) = last_of s rs

-- Two columns at the same place.
abbrev pub now_at : Option (ℕ × ℕ) → ℕ
now_at o = elim o [ none ↦ 0 | some (now, last) ↦ now ]

abbrev pub diff_at : Option (ℕ × ℕ) → ℕ
diff_at o = elim o [ none ↦ 0 | some (now, last) ↦ now - last ]

column-diff :
    (b : Bool) (n l c : ℕ) (rest now last : List (ℕ × ℕ))
    → ((c : ℕ) → diff_at (get_elem? rest c) ≡ now_at (get_elem? now c) - now_at (get_elem? last c))
    → diff_at (get_elem? (column b n l rest) c)
      ≡ now_at (get_elem? (column b n n now) c) - now_at (get_elem? (column b l l last) c)
column-diff true n l zero rest now last h = refl
column-diff true n l (suc c) rest now last h = h c
column-diff false n l c rest now last h = h c

print_columns-diff :
    (a : Available) (packages j c : ℕ) (e last : Energies)
    → diff_at (get_elem? (print_columns a packages j e last) c)
      ≡ now_at (get_elem? (print_columns a packages j e e) c)
        - now_at (get_elem? (print_columns a packages j last last) c)
unfolding print_columns
print_columns-diff a zero j c e last = omega arith
print_columns-diff a (suc packages) j c e last = column-diff a.package_bit _ _ c _ _ _ (λ c.
    column-diff a.cores_bit _ _ c _ _ _ (λ c. column-diff a.uncore_bit _ _ c _ _ _ (λ c.
      column-diff a.dram_bit _ _ c _ _ _ (λ c.
        column-diff a.psys_bit _ _ c _ _ _ (λ c. print_columns-diff a packages (j + 1) c e last)))))

total-lines_after :
    (a : Available) (packages ot c : ℕ) (before : Reading) (rs : List Reading)
    → Rises (value a packages c) before rs
    → total c (lines_after a packages ot before rs) + value a packages c before
      ≡ value a packages c (last_of before rs)
total-lines_after a packages ot c before [] h = omega arith
total-lines_after a packages ot c before (r ∷ rs) (up, h) = omega (
  arith,
  print_columns-diff a packages 0 c r.energies before.energies,
  total-lines_after a packages ot c r rs h,
)

-- Where the values of a column do not fall, the differences in that column over all lines add up to
-- the last reading's value less the first one's.
pub plot_energy :
    (a : Available) (packages c : ℕ) (start first : Reading) (rs : List Reading)
    → Rises (value a packages c) first rs
    → total c (plot a packages start (first ∷ rs)) + value a packages c first
      ≡ value a packages c (last_of first rs)
plot_energy a packages c start first rs h =
    ap (λ l. total c l + value a packages c first) (plot-lines_after a packages start first rs)
    ∙ total-lines_after a packages start.ct c first rs h
