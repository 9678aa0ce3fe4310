-- ===== src/Common/Registers.antt =====
-- Fields and flags of a register: a shift and a mask, and one bit.
use native.Mathlib.Omega.{arith}
use Prim.Native.Nat.{ℕ, ◌-◌, ◌*◌, ◌/◌, ◌%◌, ◌^◌, ◌≤◌, bit_and}
use mathlib.Core.Path.{◌≡◌, ap, ◌∙◌}
use mathlib.Core.Bool.{Bool, true, false, not}
use uarch_configure.Common.Tests.{◌==◌, if◌then◌else◌}
use uarch_configure.Common.Bits.{bit_lem, bit_and-mask, bit_and-pow, pow_pos}

-- `result & mask` for a mask of `width` ones, `(result >> shift) & mask` in general.
abbrev pub bits_at : ℕ → ℕ → ℕ → ℕ
bits_at result shift width = bit_and (result / 2 ^ shift) (2 ^ width - 1)

abbrev pub flag_at : ℕ → ℕ → Bool
flag_at result k = not (bit_and result (2 ^ k) == 0)

abbrev pub number : Bool → ℕ
number b = if b then 1 else 0

pub bits_at_lem : (r s w : ℕ) → bits_at r s w ≡ r / 2 ^ s % 2 ^ w
bits_at_lem r s w = bit_and-mask w (r / 2 ^ s)

pub flag_of : (b : Bool) (r k : ℕ) → r / 2 ^ k % 2 ≡ number b → flag_at r k ≡ b
flag_of true r k h =
    ground (arith, bit_and-pow k r, bit_lem r k, pow_pos k, ap (λ t. t * 2 ^ k) (bit_lem r k ∙ h))
flag_of false r k h =
    ground (arith, bit_and-pow k r, bit_lem r k, ap (λ t. t * 2 ^ k) (bit_lem r k ∙ h))

pub number_le : (b : Bool) → number b ≤ 1
number_le true = omega arith
number_le false = omega arith
