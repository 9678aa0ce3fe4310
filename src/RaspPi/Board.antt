-- ===== src/RaspPi/Board.antt =====
-- Which board a revision number stands for: `rpi_gpio_header_type` of rasp-pi-serial/dump_serial_regs.c
-- (the other programs have the same table) and `rpi_version` of rasp-pi-serial/rpirtscts.c.
use uarch_configure.Common.{
  ℕ, ◌+◌, ◌^◌, ◌==◌, ltb, if◌then◌else◌, Bool, true, false, Option, none, some, List, [], ◌∷◌,
  one_of,
}
use uarch_configure.Common.Text.{Text, codes, skip_space}
use uarch_configure.Common.Strtol.{strtol, strtoul}

-- `header_type`: true for the header with 40 pins.
pub record Board : Type 0 where
  pub header_40 : Bool
  pub gpio_base : ℕ
  pub serial_base : ℕ

abbrev pub pi_base : ℕ
pi_base = 0x20000000

abbrev pub pi2_base : ℕ
pi2_base = 0x3F000000

abbrev pub board : Bool → ℕ → Board
board header_40 base = record {
  header_40 = header_40;
  gpio_base = base + 0x200000;
  serial_base = base + 0x201000;
}

-- `none` where the program exits.
unfoldable pub rpi_gpio_header_type : ℕ → Option Board
rpi_gpio_header_type version =
    if one_of version (2 ∷ 3 ∷ 4 ∷ 5 ∷ 6 ∷ 7 ∷ 8 ∷ 9 ∷ 13 ∷ 14 ∷ 15 ∷ [])
    then some (board false pi_base)
    else if one_of version (0x14 ∷ 0x11 ∷ [])
    then none
    else if one_of version (0xa01040 ∷ 0xa01041 ∷ 0xa21041 ∷ 0xa22082 ∷ 0xa02082 ∷ [])
    then some (board true pi2_base)
    else some (board true pi_base)

-- What `sscanf(string, "<key>%i", &result)` returns: 0 where the text differs, -1 where it ends
-- first, and 1 with the number.
pub data Scanned : Type 0 where
  mismatch ended : Scanned
  number : ℕ → Scanned

unfoldable pub scan_number : Text → Scanned
scan_number s = elim (strtoul s) [
  | some r ↦ number (strtol s).0
  | none ↦ elim (skip_space s) [ [] ↦ ended | c ∷ rest ↦ mismatch ]
]

unfoldable pub scan_key : Text → Text → Scanned
unfolding scan_number
scan_key [] s = scan_number s
scan_key (k ∷ key) [] = ended
scan_key (k ∷ key) (c ∷ s) = if k == c then scan_key key s else mismatch

-- A loop over the words of /proc/cmdline, which any result but 0 ends; `none` is the -1 that
-- `result` starts with, or a negative number.
unfoldable pub find_revision : Text → List Text → Option ℕ
find_revision key [] = none
find_revision key (w ∷ ws) = elim (scan_key key w) [
  | mismatch ↦ find_revision key ws
  | ended ↦ none
  | number n ↦ if ltb n (2 ^ 31) then some n else none
]

-- `rpi_version`; without a number the program assumes a Pi 3B.
unfoldable pub rpi_version : List Text → ℕ
rpi_version words = elim (find_revision (codes "bcm2708.boardrev=") words) [
  | some n ↦ n
  | none ↦ elim (find_revision (codes "bcm2709.boardrev=") words) [ some n ↦ n | none ↦ 0xa22082 ]
]
