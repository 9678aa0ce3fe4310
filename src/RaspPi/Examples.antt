-- ===== src/RaspPi/Examples.antt =====
-- The programs around the serial port of a Raspberry Pi on concrete inputs.
use uarch_configure.Common.{
  ℕ, ◌≡◌, refl, true, false, none, some, [], ◌∷◌, ltb, if◌then◌else◌, ◌==◌,
}
use uarch_configure.Common.Strtol.{
  strtoul, strtol, signed_magnitude, magnitude, number_after_zero, digits_in, digit_of,
}
use uarch_configure.Common.Text.{codes, is_space, equal_text}
use uarch_configure.RaspPi.Board.{
  board, pi2_base, rpi_gpio_header_type, number, scan_number, scan_key, find_revision, rpi_version,
}
use uarch_configure.RaspPi.Flow.{set_rts_cts}
use uarch_configure.RaspPi.Pins.{amba, report_pins}
use uarch_configure.RaspPi.Uart.{Line, odd}
use uarch_configure.RaspPi.Changes.{report_pins-set_rts_cts}
use uarch_configure.RaspPi.Toggle.{Port, failure, call, set_rts, toggle}
use uarch_configure.RaspPi.Monitor.{levels, unknown_levels, monitor}
use uarch_configure.RaspPi.Main.{changed, set_from_args, rpirtscts}
use uarch_configure.RaspPi.Watch.{Bench, watched, strict_version, dump_rts_cts, monitor_rts_cts}
use uarch_configure.RaspPi.Watch.Same.{without_repeats, monitor_rts_cts-dump_rts_cts}

-- A line with seven data bits, odd parity.
abbrev odd_line : Line
odd_line = record { word_size = 7; stick = false; parity = odd; two_stop_bits = true; fifo = true }

abbrev registers : ℕ → ℕ
registers i = if i == 1 then 0x00024001 else 0x77

report_pins-set_rts_cts_example : report_pins true (set_rts_cts true true registers 1) ≡ record {
  tx = (report_pins true (registers 1)).tx;
  rx = (report_pins true (registers 1)).rx;
  cts = some amba;
  rts = some amba;
}
report_pins-set_rts_cts_example = report_pins-set_rts_cts true registers

revision_number : scan_number (codes "0xa02082") ≡ number 0xa02082
unfolding scan_number strtoul strtol signed_magnitude magnitude number_after_zero digits_in digit_of
    is_space
revision_number = refl

-- A word that is the beginning of the key ends the search: `sscanf` returns -1 there.
short_word :
    find_revision (codes "bcm2708.boardrev=") (codes "b" ∷ codes "bcm2708.boardrev=2" ∷ []) ≡ none
unfolding find_revision scan_key
short_word = refl

pi_3b_board : rpi_gpio_header_type 0xa22082 ≡ some (board true pi2_base)
unfolding rpi_gpio_header_type
pi_3b_board = refl

-- A port where every call succeeds, and one whose settings cannot be changed.
abbrev port : Port
port = record {
  works = λ n. true;
  calls = 0;
  attr = record { c_cflag = 0xcbd; c_oflag = 5; c_rest = 0 };
  status = 0x26;
  written = [];
}

abbrev fixed_port : Port
fixed_port = record port { works = λ n. ltb n 3 }

fixed_port_fails : (toggle set_rts fixed_port).0 ≡ failure
unfolding toggle call
fixed_port_fails = refl

monitored :
    monitor unknown_levels ((0, 0) ∷ (0, 0x800) ∷ (0x10, 0x800) ∷ (1, 0x800) ∷ (0, 0x800) ∷ [])
    ≡ (1, 1) ∷ (1, 0) ∷ (0, 0) ∷ (1, 0) ∷ []
unfolding monitor levels
monitored = refl

-- The whole of `rpirtscts on` on a Pi 3.
turned_on :
    rpirtscts (codes "bcm2709.boardrev=0xa02082" ∷ []) (codes "on" ∷ []) (λ base i. registers i)
    ≡ changed 0x3F200000 (set_rts_cts true true registers)
unfolding rpirtscts set_from_args equal_text rpi_gpio_header_type rpi_version find_revision scan_key
    scan_number strtoul strtol signed_magnitude magnitude number_after_zero digits_in digit_of
    is_space
turned_on = refl

-- A Pi 3B, with CTS falling at the third reading.
abbrev bench : Bench
bench = record {
  cmdline = codes "bcm2708.boardrev=0xa02082" ∷ [];
  maps = true;
  gfpsel1 = λ base. 0x00fe4000;
  readings = (1, 0) ∷ (1, 0) ∷ (0, 0) ∷ [];
}

monitor_rts_cts-dump_rts_cts_example :
    monitor_rts_cts bench
    ≡ watched
        (report_pins true 0x00fe4000)
        (without_repeats unknown_levels ((0, 1) ∷ (0, 1) ∷ (1, 1) ∷ []))
unfolding dump_rts_cts strict_version find_revision scan_key rpi_gpio_header_type scan_number
    strtoul strtol signed_magnitude magnitude number_after_zero digits_in digit_of is_space levels
monitor_rts_cts-dump_rts_cts_example =
    monitor_rts_cts-dump_rts_cts bench (report_pins true 0x00fe4000) ((0, 1) ∷ (0, 1) ∷ (1, 1) ∷ [])
      refl
