-- ===== src/RaspPi/Changes.antt =====
-- What rasp-pi-serial/rpirtscts.c changes in the GPIO registers, and what dump_serial_regs.c then shows.
use uarch_configure.Common.{
  ℕ, ◌+◌, ◌-◌, ◌*◌, ◌/◌, ◌^◌, ◌<◌, ◌≡◌, refl, sym, ap, ◌∙◌, zero, suc, arith, ◌==◌, ltb, leb, ◌&&◌,
  if◌then◌else◌, Bool, true, false, some, bit_and, passes_below, passes_below-at, ==→eq,
}
use native.Mathlib.Nat.{pow-suc, div-div-eq-div-mul, mul_comm}
use uarch_configure.Common.Bits.{
  bit, bit-le-one, bit-bit_and, bit-bit_or, bit-complement, bit_and-mask,
}
use uarch_configure.RaspPi.Flow.{gfpsel, gpiomask, flow_word, set_rts_cts}
use uarch_configure.RaspPi.Pins.{not_configured, amba, pin_function, flow_pin, report_pins}

-- The bits of the two flow control pins: three for each.
abbrev pub is_flow_bit : Bool → ℕ → Bool
is_flow_bit header_40 k = if header_40 then leb 18 k && ltb k 24 else ltb k 6

mask_table :
    (header_40 : Bool)
    → passes_below 32
        (λ k. bit (gpiomask header_40) k == (if is_flow_bit header_40 k then 1 else 0))
      ≡ true
unfolding passes_below gpiomask
mask_table true = refl
mask_table false = refl

bit-gpiomask :
    (header_40 : Bool) (k : ℕ)
    → k < 32
    → bit (gpiomask header_40) k ≡ (if is_flow_bit header_40 k then 1 else 0)
bit-gpiomask h k l = ==→eq _ _ (passes_below-at 32 _ (mask_table h) k l)

gpiomask-lt : (h : Bool) → gpiomask h < 2 ^ 32
unfolding gpiomask
gpiomask-lt true = omega arith
gpiomask-lt false = omega arith

bit-flow_word :
    (enable h : Bool) (word k : ℕ)
    → k < 32
    → bit (flow_word enable (gpiomask h) word) k
      ≡ (if is_flow_bit h k then (if enable then 1 else 0) else bit word k)
unfolding flow_word
bit-flow_word true h word k l = ground (
  arith,
  bit-bit_or (bit_and word (2 ^ 32 - 1 - gpiomask h)) (gpiomask h) k,
  bit-bit_and word (2 ^ 32 - 1 - gpiomask h) k,
  bit-complement 32 (gpiomask h) k (gpiomask-lt h) l,
  bit-gpiomask h k l,
  bit-le-one word k,
)
bit-flow_word false h word k l = ground (
  arith,
  bit-bit_and word (2 ^ 32 - 1 - gpiomask h) k,
  bit-complement 32 (gpiomask h) k (gpiomask-lt h) l,
  bit-gpiomask h k l,
  bit-le-one word k,
)

-- Turning flow control on sets the three bits of each of its two pins, and turning it off clears
-- them; no other bit and no other word of the registers changes.
pub set_rts_cts_bits :
    (enable header_40 : Bool) (gpio : ℕ → ℕ) (i k : ℕ)
    → k < 32
    → bit (set_rts_cts enable header_40 gpio i) k ≡ (
        if i == gfpsel header_40 && is_flow_bit header_40 k
        then (if enable then 1 else 0)
        else bit (gpio i) k)
unfolding set_rts_cts
set_rts_cts_bits enable h gpio i k l = ground (arith, bit-flow_word enable h (gpio i) k l)

-- A pin's function from its three bits.
pin_function_bits :
    (t s : ℕ) → pin_function t s ≡ bit t s + 2 * bit t (suc s) + 4 * bit t (suc (suc s))
unfolding pin_function
pin_function_bits t zero = omega (arith, bit_and-mask 3 (t / 1))
pin_function_bits t (suc s) =
    ap (λ a. bit_and a 7)
      (ap (λ p. t / p) (pow-suc 2 s ∙ mul_comm (2 ^ s) 2) ∙ sym (div-div-eq-div-mul t 2 (2 ^ s)))
    ∙ pin_function_bits (t / 2) s

-- The function of a pin after a change.
pin_function-set :
    (enable h : Bool) (gpio : ℕ → ℕ) (i s : ℕ)
    → s + 2 < 32
    → let t = set_rts_cts enable h gpio i in
      pin_function t s
      ≡ (if i == gfpsel h && is_flow_bit h s then (if enable then 1 else 0) else bit (gpio i) s)
        + 2
          * (if i == gfpsel h && is_flow_bit h (suc s)
              then (if enable then 1 else 0)
              else bit (gpio i) (suc s))
        + 4
          * (if i == gfpsel h && is_flow_bit h (suc (suc s))
              then (if enable then 1 else 0)
              else bit (gpio i) (suc (suc s)))
pin_function-set e h gpio i s l = omega (
  arith,
  pin_function_bits (set_rts_cts e h gpio i) s,
  set_rts_cts_bits e h gpio i s (omega arith),
  set_rts_cts_bits e h gpio i (suc s) (omega arith),
  set_rts_cts_bits e h gpio i (suc (suc s)) (omega arith),
)

-- The four pins after a change on a board with 40 pins.
pins_after :
    (enable : Bool) (gpio : ℕ → ℕ)
    → let t = set_rts_cts enable true gpio 1 in
      (pin_function t 12 ≡ pin_function (gpio 1) 12)
      × (pin_function t 15 ≡ pin_function (gpio 1) 15)
      × (pin_function t 18 ≡ (if enable then 7 else 0))
      × (pin_function t 21 ≡ (if enable then 7 else 0))
unfolding gfpsel
pins_after enable gpio = (
  pin_function-set enable true gpio 1 12 (omega arith) ∙ sym (pin_function_bits (gpio 1) 12),
  pin_function-set enable true gpio 1 15 (omega arith) ∙ sym (pin_function_bits (gpio 1) 15),
  ground (arith, pin_function-set enable true gpio 1 18 (omega arith)),
  ground (arith, pin_function-set enable true gpio 1 21 (omega arith)),
)

-- After a change on a board with 40 pins, the report shows CTS and RTS as "AMBA" where flow control
-- was turned on, as "not configured" where it was turned off, and TX and RX as before.
pub report_pins-set_rts_cts :
    (enable : Bool) (gpio : ℕ → ℕ)
    → report_pins true (set_rts_cts enable true gpio 1) ≡ record {
      tx = (report_pins true (gpio 1)).tx;
      rx = (report_pins true (gpio 1)).rx;
      cts = some (if enable then amba else not_configured);
      rts = some (if enable then amba else not_configured);
    }
unfolding report_pins flow_pin
report_pins-set_rts_cts true gpio = let (t, r, c, s) = pins_after true gpio in rw (t, r, c, s) refl
report_pins-set_rts_cts false gpio =
    let (t, r, c, s) = pins_after false gpio in rw (t, r, c, s) refl
