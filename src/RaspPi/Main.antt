-- ===== src/RaspPi/Main.antt =====
-- `main` of rasp-pi-serial/rpirtscts.c: the board, the argument, and the change it leads to.
use uarch_configure.Common.{ℕ, true, false, none, some, List, [], ◌∷◌, if◌then◌else◌}
use uarch_configure.Common.Text.{Text, codes, equal_text}
use uarch_configure.RaspPi.Board.{Board, rpi_gpio_header_type, rpi_version}
use uarch_configure.RaspPi.Flow.{set_rts_cts}

-- `changed` has the address that is mapped and the words that stand there afterwards.
pub data Run : Type 0 where
  exit_failure usage : Run
  changed : ℕ → (ℕ → ℕ) → Run

-- The arguments without the program's name; `memory` has the GPIO registers at each address.
unfoldable pub set_from_args : Board → List Text → (ℕ → ℕ → ℕ) → Run
set_from_args b (arg ∷ []) memory =
    if equal_text arg (codes "on")
    then changed b.gpio_base (set_rts_cts true b.header_40 (memory b.gpio_base))
    else if equal_text arg (codes "off")
    then changed b.gpio_base (set_rts_cts false b.header_40 (memory b.gpio_base))
    else usage
set_from_args b _ memory = usage

unfoldable pub rpirtscts : List Text → List Text → (ℕ → ℕ → ℕ) → Run
rpirtscts words args memory = elim (rpi_gpio_header_type (rpi_version words)) [
  | none ↦ exit_failure
  | some b ↦ set_from_args b args memory
]
