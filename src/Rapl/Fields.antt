-- ===== src/Rapl/Fields.antt =====
-- The fields that `rapl_msr` of rapl-read/rapl-read.c takes from the registers it lists. What it
-- prints is each field times a unit of 1 / 2^n watts, joules or seconds; `result` is the register.
use uarch_configure.Common.{
  ℕ, ◌+◌, ◌*◌, ◌/◌, ◌%◌, ◌^◌, ◌<◌, ◌≡◌, ◌∙◌, arith, ◌==◌, if◌then◌else◌, not, Bool, true, false,
}
use uarch_configure.Common.Registers.{bits_at, flag_at, number, number_le, bits_at_lem, flag_of}

-- The exponents of the three units.
pub record Units : Type 0 where
  pub power_units : ℕ
  pub cpu_energy_units : ℕ
  pub dram_energy_units : ℕ
  pub time_units : ℕ

unfoldable pub read_units : Bool → ℕ → Units
read_units different_units result = record {
  power_units = bits_at result 0 4;
  cpu_energy_units = bits_at result 8 5;
  dram_energy_units = if different_units then 16 else bits_at result 8 5;
  time_units = bits_at result 16 4;
}

-- One of the two limits of MSR_PKG_RAPL_POWER_LIMIT.
pub record Limit : Type 0 where
  pub power : ℕ
  pub enabled : Bool
  pub clamped : Bool
  pub window : ℕ

pub record PowerLimit : Type 0 where
  pub limit_1 : Limit
  pub limit_2 : Limit
  pub locked : Bool

-- `result >> 63` is -1 for a negative `long long`, which is as true as 1.
unfoldable pub read_power_limit : ℕ → PowerLimit
read_power_limit result = record {
  limit_1 = record {
    power = bits_at result 0 15;
    enabled = flag_at result 15;
    clamped = flag_at result 16;
    window = bits_at result 17 7;
  };
  limit_2 = record {
    power = bits_at result 32 15;
    enabled = flag_at result 47;
    clamped = flag_at result 48;
    window = bits_at result 49 7;
  };
  locked = not (result / 2 ^ 63 == 0);
}

-- MSR_PKG_POWER_INFO.
pub record PowerInfo : Type 0 where
  pub thermal_spec_power : ℕ
  pub minimum_power : ℕ
  pub maximum_power : ℕ
  pub time_window : ℕ

unfoldable pub read_power_info : ℕ → PowerInfo
read_power_info result = record {
  thermal_spec_power = bits_at result 0 15;
  minimum_power = bits_at result 16 15;
  maximum_power = bits_at result 32 15;
  time_window = bits_at result 48 15;
}

-- The register of a power limit: each half has the limit in bits 0 to 14, its enable bit at 15, its
-- clamp bit at 16 and its window in bits 17 to 23.
abbrev pub limit_word : Limit → ℕ
limit_word l = l.power + number l.enabled * 2 ^ 15 + number l.clamped * 2 ^ 16 + l.window * 2 ^ 17

abbrev pub power_limit_word : PowerLimit → ℕ
power_limit_word p = limit_word p.limit_1 + limit_word p.limit_2 * 2 ^ 32 + number p.locked * 2 ^ 63

limit_word-lt : (l : Limit) → l.power < 2 ^ 15 → l.window < 2 ^ 7 → limit_word l < 2 ^ 24
limit_word-lt l h k = omega (arith, number_le l.enabled, number_le l.clamped)

-- A limit from the word at `s` in a register.
limit_of :
    (l : Limit) (r s : ℕ) (rest : ℕ)
    → l.power < 2 ^ 15
    → l.window < 2 ^ 7
    → r / 2 ^ s ≡ limit_word l + rest * 2 ^ 31
    → r / 2 ^ (s + 15) ≡ r / 2 ^ s / 2 ^ 15
    → r / 2 ^ (s + 16) ≡ r / 2 ^ s / 2 ^ 16
    → r / 2 ^ (s + 17) ≡ r / 2 ^ s / 2 ^ 17
    → record {
      power = bits_at r s 15;
      enabled = flag_at r (s + 15);
      clamped = flag_at r (s + 16);
      window = bits_at r (s + 17) 7;
    }
      ≡ l
limit_of l r s rest h k e e₁ e₂ e₃ = cc (power, enabled, clamped, window)
  where
    power : bits_at r s 15 ≡ l.power
    power = omega (arith, bits_at_lem r s 15, number_le l.enabled, number_le l.clamped)

    enabled : flag_at r (s + 15) ≡ l.enabled
    enabled = flag_of l.enabled r (s + 15) (omega (arith, number_le l.enabled, number_le l.clamped))

    clamped : flag_at r (s + 16) ≡ l.clamped
    clamped = flag_of l.clamped r (s + 16) (omega (arith, number_le l.enabled, number_le l.clamped))

    window : bits_at r (s + 17) 7 ≡ l.window
    window = omega (arith, bits_at_lem r (s + 17) 7, number_le l.enabled, number_le l.clamped)

-- What the program shows of MSR_PKG_RAPL_POWER_LIMIT is what the register holds, for all values of
-- its fields.
pub read_power_limit-power_limit_word :
    (p : PowerLimit)
    → p.limit_1.power < 2 ^ 15
    → p.limit_1.window < 2 ^ 7
    → p.limit_2.power < 2 ^ 15
    → p.limit_2.window < 2 ^ 7
    → read_power_limit (power_limit_word p) ≡ p
unfolding read_power_limit
read_power_limit-power_limit_word p h₁ k₁ h₂ k₂ = cc (first, second, locked)
  where
    r : ℕ
    r = power_limit_word p

    first : (read_power_limit r).limit_1 ≡ p.limit_1
    first =
        limit_of p.limit_1 r 0 (limit_word p.limit_2 * 2 + number p.locked * 2 ^ 32) h₁ k₁
          (omega arith) (omega arith) (omega arith) (omega arith)

    second : (read_power_limit r).limit_2 ≡ p.limit_2
    second =
        limit_of p.limit_2 r 32 (number p.locked) h₂ k₂
          (omega (arith, limit_word-lt p.limit_1 h₁ k₁)) (omega arith) (omega arith) (omega arith)

    lock_of : (b : Bool) → r / 2 ^ 63 ≡ number b → not (r / 2 ^ 63 == 0) ≡ b
    lock_of true e = ground (arith, e)
    lock_of false e = ground (arith, e)

    locked : (read_power_limit r).locked ≡ p.locked
    locked =
        lock_of p.locked
          (omega (arith, limit_word-lt p.limit_1 h₁ k₁, limit_word-lt p.limit_2 h₂ k₂))

-- The register of the package's power info: four fields of 15 bits, 16 apart.
abbrev pub power_info_word : PowerInfo → ℕ
power_info_word i =
    i.thermal_spec_power
    + i.minimum_power * 2 ^ 16
    + i.maximum_power * 2 ^ 32
    + i.time_window * 2 ^ 48

-- What the program shows of MSR_PKG_POWER_INFO is what the register holds, for all values of its
-- fields.
pub read_power_info-power_info_word :
    (i : PowerInfo)
    → i.thermal_spec_power < 2 ^ 15
    → i.minimum_power < 2 ^ 15
    → i.maximum_power < 2 ^ 15
    → i.time_window < 2 ^ 15
    → read_power_info (power_info_word i) ≡ i
unfolding read_power_info
read_power_info-power_info_word i h₁ h₂ h₃ h₄ = cc (
  field 0 i.thermal_spec_power (omega arith),
  field 16 i.minimum_power (omega arith),
  field 32 i.maximum_power (omega arith),
  field 48 i.time_window (omega arith),
)
  where
    r : ℕ
    r = power_info_word i

    field : (s v : ℕ) → r / 2 ^ s % 2 ^ 15 ≡ v → bits_at r s 15 ≡ v
    field s v e = bits_at_lem r s 15 ∙ e
