-- ===== src/RaspPi/Uart.antt =====
-- The line settings that rasp-pi-serial/dump_serial_regs.c shows of the register LCRH.
use uarch_configure.Common.{
  ℕ, ◌+◌, ◌-◌, ◌*◌, ◌/◌, ◌%◌, ◌^◌, ◌≤◌, ◌≡◌, refl, arith, if◌then◌else◌, Bool, true, false,
}
use uarch_configure.Common.Registers.{bits_at, flag_at, number, number_le, bits_at_lem, flag_of}

pub data Parity : Type 0 where
  none even odd : Parity

pub record Line : Type 0 where
  pub word_size : ℕ
  pub stick : Bool
  pub parity : Parity
  pub two_stop_bits : Bool
  pub fifo : Bool

-- The nested conditions on bits 1 and 2.
unfoldable pub parity_of : Bool → Bool → Parity
parity_of is_on is_even = if is_on then (if is_even then even else odd) else none

unfoldable pub read_line : ℕ → Line
unfolding parity_of
read_line temp = record {
  word_size = bits_at temp 5 2 + 5;
  stick = flag_at temp 7;
  parity = parity_of (flag_at temp 1) (flag_at temp 2);
  two_stop_bits = flag_at temp 3;
  fifo = flag_at temp 4;
}

-- The register of a setting, by the layout of the device.
abbrev pub is_parity_on : Parity → Bool
is_parity_on none = false
is_parity_on _ = true

abbrev pub is_parity_even : Parity → Bool
is_parity_even even = true
is_parity_even _ = false

abbrev pub line_word : Line → ℕ
line_word l =
    number (is_parity_on l.parity) * 2
    + number (is_parity_even l.parity) * 2 ^ 2
    + number l.two_stop_bits * 2 ^ 3
    + number l.fifo * 2 ^ 4
    + (l.word_size - 5) * 2 ^ 5
    + number l.stick * 2 ^ 7

parity_of_lem : (p : Parity) → parity_of (is_parity_on p) (is_parity_even p) ≡ p
unfolding parity_of
parity_of_lem none = refl
parity_of_lem even = refl
parity_of_lem odd = refl

-- The fields of a number that is put together like that register.
fields_of :
    (p e t f w s : ℕ)
    → p ≤ 1
    → e ≤ 1
    → t ≤ 1
    → f ≤ 1
    → w ≤ 3
    → s ≤ 1
    → let r = p * 2 + e * 2 ^ 2 + t * 2 ^ 3 + f * 2 ^ 4 + w * 2 ^ 5 + s * 2 ^ 7 in
      (r / 2 ^ 1 % 2 ≡ p)
      × (r / 2 ^ 2 % 2 ≡ e)
      × (r / 2 ^ 3 % 2 ≡ t)
      × (r / 2 ^ 4 % 2 ≡ f)
      × (r / 2 ^ 5 % 2 ^ 2 ≡ w)
      × (r / 2 ^ 7 % 2 ≡ s)
fields_of p e t f w s hp he ht hf hw hs =
    (omega arith, omega arith, omega arith, omega arith, omega arith, omega arith)

-- For every setting with words of 5 to 8 bits, what the program shows of the register is the setting.
pub read_line-line_word :
    (l : Line) → 5 ≤ l.word_size → l.word_size ≤ 8 → read_line (line_word l) ≡ l
unfolding read_line
read_line-line_word l low high =
    let (p, e, t, f, w, s) =
      fields_of (number (is_parity_on l.parity)) (number (is_parity_even l.parity))
        (number l.two_stop_bits) (number l.fifo) (l.word_size - 5) (number l.stick)
        (number_le (is_parity_on l.parity)) (number_le (is_parity_even l.parity))
        (number_le l.two_stop_bits) (number_le l.fifo) (omega arith) (number_le l.stick) in
    let word : bits_at (line_word l) 5 2 + 5 ≡ l.word_size =
      omega (arith, bits_at_lem (line_word l) 5 2, w) in
    cc (
      word,
      at 7 l.stick s,
      at 1 (is_parity_on l.parity) p,
      at 2 (is_parity_even l.parity) e,
      parity_of_lem l.parity,
      at 3 l.two_stop_bits t,
      at 4 l.fifo f,
    )
  where
    at : (k : ℕ) (b : Bool) → line_word l / 2 ^ k % 2 ≡ number b → flag_at (line_word l) k ≡ b
    at k b e = flag_of b (line_word l) k e
