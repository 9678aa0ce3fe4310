-- ===== src/RaspPi/Watch/Same.antt =====
-- The two programs rasp-pi-serial/dump_rts_cts.c and monitor_rts_cts.c against each other.
use uarch_configure.Common.{
  ℕ, ◌≡◌, refl, ap, ◌∙◌, arith, if◌then◌else◌, Bool-cases, inl, inr, Option, none, some, List, [],
  ◌∷◌, map,
}
use uarch_configure.Common.Text.{Text}
use uarch_configure.RaspPi.Board.{Board, rpi_version, rpi_gpio_header_type}
use uarch_configure.RaspPi.Pins.{PinReport, report_pins}
use uarch_configure.RaspPi.Monitor.{
  Levels, levels, same, unknown_levels, monitor, changes, monitor-changes,
}
use uarch_configure.RaspPi.Watch.{
  Bench, watched, strict_version, watch, board_of, dump_rts_cts, monitor_rts_cts,
}

-- The lines that differ from the line before.
abbrev pub without_repeats : Levels → List Levels → List Levels
without_repeats before [] = []
without_repeats before (l ∷ ls) =
    let rest = without_repeats l ls in if same l before then rest else l ∷ rest

changes-repeats :
    (before : Levels) (rs : List (ℕ × ℕ))
    → changes before rs ≡ without_repeats before (map levels rs)
changes-repeats before [] = refl
changes-repeats before (r ∷ rs) =
    ap (λ rest. if same (levels r) before then rest else levels r ∷ rest)
      (changes-repeats (levels r) rs)

version-strict : (words : List Text) (n : ℕ) → strict_version words ≡ some n → rpi_version words ≡ n
unfolding strict_version rpi_version
version-strict words n h = ground arith

board-strict :
    (words : List Text) (x : Option ℕ) (b : Board)
    → strict_version words ≡ x
    → board_of x ≡ some b
    → rpi_gpio_header_type (rpi_version words) ≡ some b
board-strict words none b e h = absurd (ground arith)
board-strict words (some n) b e h = ap rpi_gpio_header_type (version-strict words n e) ∙ h

watch-inv :
    (shown : List (ℕ × ℕ) → List Levels) (y : Bench) (x : Option Board) (p : PinReport)
    (ls : List Levels)
    → watch shown y x ≡ watched p ls
    → (b : Board) × (x ≡ some b)
      × (shown y.readings ≡ ls)
      × ((other : List (ℕ × ℕ) → List Levels)
          → watch other y (some b) ≡ watched p (other y.readings))
watch-inv shown y none p ls h = absurd (ground arith)
watch-inv shown y (some b) p ls h = elim (Bool-cases y.maps) [
  | inl e ↦
      let pins : report_pins b.header_40 (y.gfpsel1 b.gpio_base) ≡ p = ground arith in
      (b, refl, ground arith, λ other. rw e (ap (λ q. watched q (other y.readings)) pins))
  | inr e ↦ absurd (ground arith)
]

-- Where dump_rts_cts.c finds the board and shows the pins and a line for each reading, monitor_rts_cts.c
-- shows the same pins, and of these lines those that differ from the line before.
pub monitor_rts_cts-dump_rts_cts :
    (y : Bench) (p : PinReport) (ls : List Levels)
    → dump_rts_cts y ≡ watched p ls
    → monitor_rts_cts y ≡ watched p (without_repeats unknown_levels ls)
unfolding dump_rts_cts monitor_rts_cts
monitor_rts_cts-dump_rts_cts y p ls h =
    let (b, found, shown, other) =
      watch-inv (λ rs. map levels rs) y (board_of (strict_version y.cmdline)) p ls h in
    ap (watch (λ rs. monitor unknown_levels rs) y)
      (board-strict y.cmdline (strict_version y.cmdline) b refl found)
    ∙ other (λ rs. monitor unknown_levels rs)
    ∙ ap (watched p) (
        monitor-changes unknown_levels y.readings
        ∙ changes-repeats unknown_levels y.readings
        ∙ ap (without_repeats unknown_levels) shown)
