-- ===== src/RaspPi/Pins.antt =====
-- What rasp-pi-serial/dump_serial_regs.c shows of the pins of the serial port.
use uarch_configure.Common.{ℕ, ◌/◌, ◌^◌, ◌==◌, if◌then◌else◌, Bool, Option, none, some, bit_and}

-- "not configured", "AMBA", "mini-uart" or "Unknown" with the number.
pub data PinUse : Type 0 where
  not_configured amba mini_uart : PinUse
  unknown : ℕ → PinUse

-- `(temp>>shift)&0x7`
unfoldable pub pin_function : ℕ → ℕ → ℕ
pin_function temp shift = bit_and (temp / 2 ^ shift) 0x7

-- The conditions for TX and RX.
unfoldable pub data_pin : ℕ → PinUse
data_pin f = if f == 4 then amba else if f == 2 then mini_uart else unknown f

-- The conditions for CTS and RTS.
unfoldable pub flow_pin : ℕ → PinUse
flow_pin f =
    if f == 0
    then not_configured
    else if f == 7
    then amba
    else if f == 2
    then mini_uart
    else unknown f

pub record PinReport : Type 0 where
  pub tx : PinUse
  pub rx : PinUse
  pub cts : Option PinUse
  pub rts : Option PinUse

-- The report, from the word `gpio[GFPSEL1]`; with 26 pins nothing is shown of CTS and RTS.
unfoldable pub report_pins : Bool → ℕ → PinReport
report_pins header_40 temp = record {
  tx = data_pin (pin_function temp 12);
  rx = data_pin (pin_function temp 15);
  cts = if header_40 then some (flow_pin (pin_function temp 18)) else none;
  rts = if header_40 then some (flow_pin (pin_function temp 21)) else none;
}
