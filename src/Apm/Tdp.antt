-- ===== src/Apm/Tdp.antt =====
-- The TDP report of amd-apm-read/apm-read.c (`test_tdp_reporting`).
use uarch_configure.Common.{
  ℕ, ◌+◌, ◌-◌, ◌*◌, ◌/◌, ◌%◌, ◌^◌, ◌==◌, ltb, leb, if◌then◌else◌, Bool, Option, none, some, bit_and,
  bit_or,
}
use uarch_configure.Common.Bits.{bit_or-shift, bit_and-mask}
use native.Mathlib.Nat.{mod-eq_of_lt, mul-le-mul_left}
use uarch_configure.Common.{◌≡◌, ◌≢◌, ◌<◌, ◌↔◌, ap, ◌∙◌, arith}

-- What the function prints; it returns 0 in every case. `no_config` stands for a register that does
-- not open or is not read whole.
pub data TdpReport : Type 0 where
  no_apm : TdpReport
  no_config : TdpReport
  too_high : (range limit base : ℕ) → TdpReport
  watts : (range limit base tdp microwatts : ℕ) → TdpReport

-- `tdp_limit3 >> 16` on a signed `int`.
unfoldable pub tdp_limit : Bool → ℕ → ℕ
tdp_limit excavator limit3 =
    if excavator
    then (if ltb limit3 (2 ^ 31) then limit3 / 2 ^ 16 else limit3 / 2 ^ 16 + 0xffff0000)
    else bit_and (limit3 / 2 ^ 16) 0x1fff

unfoldable pub tdp_to_watts : ℕ → ℕ
tdp_to_watts limit3 = bit_or (bit_and limit3 0x3ff * 2 ^ 6) (bit_and (limit3 / 2 ^ 10) 0x3f)

-- `(tdp*15625)>>10` on an `unsigned int`.
unfoldable pub to_microwatts : ℕ → ℕ
to_microwatts tdp = tdp * 15625 % 2 ^ 32 / 2 ^ 10

unfoldable pub report_tdp : ℕ → ℕ → ℕ → ℕ → TdpReport
report_tdp range limit base tdp =
    if leb 256 (tdp / 2 ^ 16)
    then too_high range limit base
    else watts range limit base tdp (to_microwatts tdp)

-- `edx` is that of CPUID leaf 80000007; the registers are 32-bit words of the PCI configuration
-- space, at 18.5 0xe0, 18.5 0xe8 and 18.4 0x1b8.
unfoldable pub test_tdp_reporting : Bool → ℕ → Option ℕ → Option ℕ → Option ℕ → TdpReport
test_tdp_reporting excavator edx running_avg limit3 processor_tdp =
    if bit_and edx (2 ^ 9) == 0 then no_apm else elim running_avg [
      | none ↦ no_config
      | some avg ↦ elim limit3 [
        | none ↦ no_config
        | some limit ↦ elim processor_tdp [
          | none ↦ no_config
          | some raw ↦
              report_tdp (bit_and avg 0xf) (tdp_limit excavator limit) (raw / 2 ^ 16)
                (bit_and raw 0xffff * tdp_to_watts limit % 2 ^ 32)
        ]
      ]
    ]

-- The watts for one unit of TDP, in 1/2^16: the 10 bits of the whole part above 6 bits.
tdp_to_watts_lem : (l : ℕ) → tdp_to_watts l ≡ l % 2 ^ 10 * 2 ^ 6 + l / 2 ^ 10 % 2 ^ 6
unfolding tdp_to_watts
tdp_to_watts_lem l =
    ap (λ a. bit_or (a * 2 ^ 6) (bit_and (l / 2 ^ 10) 0x3f)) (bit_and-mask 10 l)
    ∙ ap (bit_or (l % 2 ^ 10 * 2 ^ 6)) (bit_and-mask 6 (l / 2 ^ 10))
    ∙ bit_or-shift 6 (l % 2 ^ 10) (l / 2 ^ 10 % 2 ^ 6) (omega arith)

-- The TDP that the registers encode, in 1/2^16 watt.
abbrev pub encoded_tdp : ℕ → ℕ → ℕ
encoded_tdp l raw = raw % 2 ^ 16 * (l % 2 ^ 10 * 2 ^ 6 + l / 2 ^ 10 % 2 ^ 6)

encoded_tdp-lt : (l raw : ℕ) → encoded_tdp l raw < 2 ^ 32
encoded_tdp-lt l raw = omega (
  arith,
  mul-le-mul_left {m = l % 2 ^ 10 * 2 ^ 6 + l / 2 ^ 10 % 2 ^ 6} {n = 2 ^ 16 - 1} (raw % 2 ^ 16)
      (omega arith),
)

-- With the feature there and the registers read, the report has the fields of the registers; a TDP
-- of 256 W or more is refused, and any other is what the registers encode.
pub test_tdp_decodes :
    (excavator : Bool) (edx avg l raw : ℕ)
    → bit_and edx (2 ^ 9) ≢ 0
    → test_tdp_reporting excavator edx (some avg) (some l) (some raw) ≡ (
        if ltb (encoded_tdp l raw) (256 * 2 ^ 16)
        then watts
            (avg % 2 ^ 4)
            (tdp_limit excavator l)
            (raw / 2 ^ 16)
            (encoded_tdp l raw)
            (to_microwatts (encoded_tdp l raw))
        else too_high (avg % 2 ^ 4) (tdp_limit excavator l) (raw / 2 ^ 16))
unfolding test_tdp_reporting report_tdp
test_tdp_decodes x edx avg l raw h = ground (arith, bit_and-mask 4 avg, encoded)
  where
    encoded : bit_and raw 0xffff * tdp_to_watts l % 2 ^ 32 ≡ encoded_tdp l raw
    encoded =
        ap (λ a. a * tdp_to_watts l % 2 ^ 32) (bit_and-mask 16 raw)
        ∙ ap (λ a. raw % 2 ^ 16 * a % 2 ^ 32) (tdp_to_watts_lem l)
        ∙ mod-eq_of_lt {n = encoded_tdp l raw} {m = 2 ^ 32} (encoded_tdp-lt l raw)

-- The number of microwatts printed for a TDP of `t / 2^16` watts is the right one exactly where
-- `t * 15625` stays below 2^32, that is, below 4.2 W; above, the product turns over.
pub to_microwatts_exact : (t : ℕ) → (to_microwatts t ≡ t * 15625 / 2 ^ 10) ↔ (t * 15625 < 2 ^ 32)
unfolding to_microwatts
to_microwatts_exact t = ((λ e. omega arith), (λ h. omega arith))
