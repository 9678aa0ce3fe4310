-- ===== src/RaspPi/Flow.antt =====
-- `set_rts_cts` of rasp-pi-serial/rpirtscts.c, which turns the flow control pins on and off. The words
-- of the GPIO registers are a function of their index.
use uarch_configure.Common.{ℕ, ◌-◌, ◌^◌, ◌==◌, if◌then◌else◌, Bool, bit_and, bit_or}

-- `GFPSEL1` or `GFPSEL3`
unfoldable pub gfpsel : Bool → ℕ
gfpsel header_40 = if header_40 then 1 else 3

-- `GPIO1617MASK` or `GPIO3031MASK`
unfoldable pub gpiomask : Bool → ℕ
gpiomask header_40 = if header_40 then 0x00fc0000 else 0x0000003f

-- `temp &= ~gpiomask; temp |= gpiomask;` or `&= ~gpiomask`, on a `uint32_t`.
unfoldable pub flow_word : Bool → ℕ → ℕ → ℕ
flow_word enable mask word =
    if enable
    then bit_or (bit_and word (2 ^ 32 - 1 - mask)) mask
    else bit_and word (2 ^ 32 - 1 - mask)

unfoldable pub set_rts_cts : Bool → Bool → (ℕ → ℕ) → ℕ → ℕ
set_rts_cts enable header_40 gpio i =
    if i == gfpsel header_40 then flow_word enable (gpiomask header_40) (gpio i) else gpio i
