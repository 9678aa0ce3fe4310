-- ===== src/RaspPi/Monitor.antt =====
-- The loop of rasp-pi-serial/monitor_rts_cts.c, and the flags that dump_serial_regs.c shows of the
-- registers FR and CR.
use uarch_configure.Common.{
  ℕ, ◌≡◌, refl, sym, ap, ◌∙◌, arith, ◌==◌, ◌&&◌, not, if◌then◌else◌, Bool, true, false, Bool-cases,
  inl, inr, List, [], ◌∷◌,
}
use uarch_configure.Common.Registers.{flag_at, number}

-- The flags of FR in the order of the report, and CTS; a set bit is "low".
unfoldable pub read_flags : ℕ → List Bool
read_flags temp =
    flag_at temp 7
    ∷ flag_at temp 6
    ∷ flag_at temp 5
    ∷ flag_at temp 4
    ∷ flag_at temp 3
    ∷ flag_at temp 0
    ∷ []

-- The flags of CR in the order of the report.
unfoldable pub read_control : ℕ → List Bool
read_control temp =
    flag_at temp 15
    ∷ flag_at temp 14
    ∷ flag_at temp 11
    ∷ flag_at temp 9
    ∷ flag_at temp 8
    ∷ flag_at temp 7
    ∷ flag_at temp 0
    ∷ []

-- `cts` and `rts`
abbrev pub Levels : Type 0
Levels = ℕ × ℕ

-- From the words of FR and CR.
unfoldable pub levels : ℕ × ℕ → Levels
levels (fr, cr) = (number (not (flag_at fr 0)), number (not (flag_at cr 11)))

abbrev pub same : Levels → Levels → Bool
same (c, r) (d, s) = c == d && r == s

-- `old_cts=10, old_rts=10`
abbrev pub unknown_levels : Levels
unknown_levels = (10, 10)

-- The lines that a sequence of readings prints, from the old levels on.
unfoldable pub monitor : Levels → List (ℕ × ℕ) → List Levels
monitor old [] = []
monitor old (r ∷ rs) = elim (same (levels r) old) [
  | true ↦ monitor old rs
  | false ↦ levels r ∷ monitor (levels r) rs
]

-- The readings that differ from the reading before, whether or not that one was printed.
abbrev pub changes : Levels → List (ℕ × ℕ) → List Levels
changes before [] = []
changes before (r ∷ rs) =
    let rest = changes (levels r) rs in if same (levels r) before then rest else levels r ∷ rest

same-eq : (a b : Levels) → same a b ≡ true → a ≡ b
same-eq (c, r) (d, s) e =
    let both : (c ≡ d) × (r ≡ s) = ground arith in ap (λ x. (x, r)) both.0 ∙ ap (λ y. (d, y)) both.1

-- The program prints a reading where it differs from the reading before, and no other.
pub monitor-changes : (old : Levels) (rs : List (ℕ × ℕ)) → monitor old rs ≡ changes old rs
unfolding monitor
monitor-changes old [] = refl
monitor-changes old (r ∷ rs) = elim (Bool-cases (same (levels r) old)) [
  | inl e ↦ rw (e, monitor) (monitor-changes old rs ∙ ap (λ l. changes l rs) (sym (same-eq _ _ e)))
  | inr e ↦ rw (e, monitor) (ap (λ l. levels r ∷ l) (monitor-changes (levels r) rs))
]
