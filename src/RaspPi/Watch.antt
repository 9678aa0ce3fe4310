-- ===== src/RaspPi/Watch.antt =====
-- main of rasp-pi-serial/dump_rts_cts.c and of monitor_rts_cts.c: the board, the report of the pins, and
-- the endless loop over the readings of the registers FR and CR, of which any number may be made.
pub mod Same
use uarch_configure.Common.{ℕ, if◌then◌else◌, Bool, Option, none, some, List, map}
use uarch_configure.Common.Text.{Text, codes}
use uarch_configure.RaspPi.Board.{Board, find_revision, rpi_version, rpi_gpio_header_type}
use uarch_configure.RaspPi.Pins.{PinReport, report_pins}
use uarch_configure.RaspPi.Monitor.{Levels, levels, unknown_levels, monitor}

-- The words of /proc/cmdline (none where it does not open), whether /dev/mem opens and both regions are
-- mapped, the word `gpio[GFPSEL1]` at the base of the board, and the readings.
pub record Bench : Type 0 where
  pub cmdline : List Text
  pub maps : Bool
  pub gfpsel1 : ℕ → ℕ
  pub readings : List (ℕ × ℕ)

pub data Watched : Type 0 where
  exit_failure : Watched
  watched : PinReport → List Levels → Watched

-- `rpi_version` of dump_rts_cts.c; `none` where it exits.
unfoldable pub strict_version : List Text → Option ℕ
strict_version words = elim (find_revision (codes "bcm2708.boardrev=") words) [
  | some n ↦ some n
  | none ↦ find_revision (codes "bcm2709.boardrev=") words
]

-- The function `dump_rts_cts` of both programs, with what its loop prints.
abbrev pub watch : (List (ℕ × ℕ) → List Levels) → Bench → Option Board → Watched
watch shown y none = exit_failure
watch shown y (some b) =
    if y.maps
    then watched (report_pins b.header_40 (y.gfpsel1 b.gpio_base)) (shown y.readings)
    else exit_failure

abbrev pub board_of : Option ℕ → Option Board
board_of none = none
board_of (some version) = rpi_gpio_header_type version

unfoldable pub dump_rts_cts : Bench → Watched
dump_rts_cts y = watch (λ rs. map levels rs) y (board_of (strict_version y.cmdline))

unfoldable pub monitor_rts_cts : Bench → Watched
monitor_rts_cts y =
    watch (λ rs. monitor unknown_levels rs) y (rpi_gpio_header_type (rpi_version y.cmdline))
