-- ===== src/Common/Bits.antt =====
-- The bits of a number, and what `&` and `|` do to each of them at any width.
use native.Mathlib.Nat.{pow-suc, div-add-mod, mul_assoc, mul_comm, div-div-eq-div-mul}
use Prim.Native.Nat.{
  ℕ, zero, suc, ◌+◌, ◌-◌, ◌^◌, ◌*◌, ◌/◌, ◌%◌, ◌≤◌, ◌<◌, min, max, bit_and, bit_or,
}
use Prim.Native.Nat.{digits, bit_and-bitwise, bit_or-bitwise}
use mathlib.Core.Path.{◌≡◌, refl, sym, ap, ◌∙◌}
use native.Mathlib.Omega.{arith}

-- Bit `k` of `a`, as 0 or 1: `(a >> k) & 1`.
abbrev pub bit : ℕ → ℕ → ℕ
bit a zero = a % 2
bit a (suc k) = bit (a / 2) k

pub bit-le-one : (a k : ℕ) → bit a k ≤ 1
bit-le-one a zero = omega arith
bit-le-one a (suc k) = bit-le-one (a / 2) k

pub zero-bit : (k : ℕ) → bit 0 k ≡ 0
zero-bit zero = refl
zero-bit (suc k) = zero-bit k

-- Numbers with the same bits are equal.
bits_ext_fuel : (n a b : ℕ) → a ≤ n → b ≤ n → ((k : ℕ) → bit a k ≡ bit b k) → a ≡ b
bits_ext_fuel zero a b p q h = omega arith
bits_ext_fuel (suc n) a b p q h =
    omega (arith, h 0, bits_ext_fuel n (a / 2) (b / 2) (omega arith) (omega arith) (λ k. h (suc k)))

pub bits_ext : (a b : ℕ) → ((k : ℕ) → bit a k ≡ bit b k) → a ≡ b
bits_ext a b h = bits_ext_fuel (a + b) a b (omega arith) (omega arith) h

module _ (z : ℕ → ℕ) (f : ℕ → ℕ → ℕ) where
  -- A count of digits that covers the number gives the result of any other such count.
  digits_enough : (n m a b : ℕ) → a ≤ n → a ≤ m → digits z f n a b ≡ digits z f m a b
  digits_enough zero zero zero b p q = refl
  digits_enough zero (suc m) zero b p q = refl
  digits_enough (suc n) zero zero b p q = refl
  digits_enough (suc n) (suc m) zero b p q = refl
  digits_enough zero m (suc a) b p q = absurd (omega arith)
  digits_enough (suc n) zero (suc a) b p q = absurd (omega arith)
  digits_enough (suc n) (suc m) (suc a) b p q =
      ap (λ r. r * 2 + f (suc a % 2) (b % 2))
        (digits_enough n m (suc a / 2) (b / 2) (omega arith) (omega arith))

  digits_step :
      (a b : ℕ)
      → digits z f (suc a) (suc a) b
        ≡ digits z f (suc a / 2) (suc a / 2) (b / 2) * 2 + f (suc a % 2) (b % 2)
  digits_step a b =
      ap (λ r. r * 2 + f (suc a % 2) (b % 2))
        (digits_enough a (suc a / 2) (suc a / 2) (b / 2) (omega arith) (omega arith))

and_halves : (a b : ℕ) → bit_and a b ≡ bit_and (a / 2) (b / 2) * 2 + min (a % 2) (b % 2)
and_halves zero b = omega (arith, bit_and-bitwise 0 b, bit_and-bitwise 0 (b / 2))
and_halves (suc a) b = omega (
  arith,
  bit_and-bitwise (suc a) b,
  bit_and-bitwise (suc a / 2) (b / 2),
  digits_step (λ _. 0) min a b,
)

or_halves : (a b : ℕ) → bit_or a b ≡ bit_or (a / 2) (b / 2) * 2 + max (a % 2) (b % 2)
or_halves zero b = omega (arith, bit_or-bitwise 0 b, bit_or-bitwise 0 (b / 2))
or_halves (suc a) b = omega (
  arith,
  bit_or-bitwise (suc a) b,
  bit_or-bitwise (suc a / 2) (b / 2),
  digits_step (λ c. c) max a b,
)

min_bits-lt : (a b : ℕ) → min (a % 2) (b % 2) < 2
min_bits-lt a b = omega arith

-- Bit `k` of `a & b` and of `a | b`.
pub bit-bit_and : (a b k : ℕ) → bit (bit_and a b) k ≡ min (bit a k) (bit b k)
bit-bit_and a b zero = omega (arith, and_halves a b)
bit-bit_and a b (suc k) =
    ap (λ t. bit t k) (omega (arith, and_halves a b)) ∙ bit-bit_and (a / 2) (b / 2) k

pub bit-bit_or : (a b k : ℕ) → bit (bit_or a b) k ≡ max (bit a k) (bit b k)
bit-bit_or a b zero = omega (arith, or_halves a b)
bit-bit_or a b (suc k) =
    ap (λ t. bit t k) (omega (arith, or_halves a b)) ∙ bit-bit_or (a / 2) (b / 2) k

bit_and-zero : (a : ℕ) → bit_and a 0 ≡ 0
bit_and-zero a = bits_ext _ _ (λ k. omega (arith, bit-bit_and a 0 k, zero-bit k))

-- `x & (1 << k)` keeps bit `k` alone.
pub bit_and-pow : (k a : ℕ) → bit_and a (2 ^ k) ≡ bit a k * 2 ^ k
bit_and-pow zero a = omega (arith, and_halves a 1, bit_and-zero (a / 2))
bit_and-pow (suc k) a = omega (
  arith,
  and_halves a (2 ^ suc k),
  pow-suc 2 k,
  bit_and-pow k (a / 2),
  ap (λ t. bit_and (a / 2) t) half_pow,
  ap (λ t. bit (a / 2) k * t) (pow-suc 2 k),
)
  where
    half_pow : 2 ^ suc k / 2 ≡ 2 ^ k
    half_pow = omega (arith, pow-suc 2 k)

pub pow_pos : (k : ℕ) → 0 < 2 ^ k
pow_pos zero = omega arith
pow_pos (suc k) = omega (arith, pow-suc 2 k, pow_pos k)

mod_halves : (a p : ℕ) → 0 < p → a % (p * 2) ≡ a / 2 % p * 2 + a % 2
mod_halves a p h = grind (arith, div-add-mod)

-- A mask of `k` ones takes the remainder.
pub bit_and-mask : (k a : ℕ) → bit_and a (2 ^ k - 1) ≡ a % 2 ^ k
bit_and-mask zero a = omega (arith, bit_and-zero a)
bit_and-mask (suc k) a = omega (
  arith,
  and_halves a (2 ^ suc k - 1),
  pow-suc 2 k,
  pow_pos k,
  mod_halves a (2 ^ k) (pow_pos k),
  bit_and-mask k (a / 2),
  ap (λ t. bit_and (a / 2) t) half_mask,
  ap (λ t. a % t) (pow-suc 2 k),
)
  where
    half_mask : (2 ^ suc k - 1) / 2 ≡ 2 ^ k - 1
    half_mask = omega (arith, pow-suc 2 k, pow_pos k)

-- The complement in `w` bits turns each of them over.
pub bit-complement : (w m k : ℕ) → m < 2 ^ w → k < w → bit (2 ^ w - 1 - m) k + bit m k ≡ 1
bit-complement zero m k h l = absurd (omega arith)
bit-complement (suc w) m zero h l = omega (arith, pow-suc 2 w)
bit-complement (suc w) m (suc k) h l = omega (
  arith,
  ap (λ t. bit t k) half,
  bit-complement w (m / 2) k (omega (arith, pow-suc 2 w)) (omega arith),
)
  where
    half : (2 ^ suc w - 1 - m) / 2 ≡ 2 ^ w - 1 - m / 2
    half = omega (arith, pow-suc 2 w)

-- Above its width a number has no bits.
pub bit_above : (w a k : ℕ) → a < 2 ^ w → w ≤ k → bit a k ≡ 0
bit_above zero a k h l = ap (λ t. bit t k) (omega arith) ∙ zero-bit k
bit_above (suc w) a zero h l = absurd (omega arith)
bit_above (suc w) a (suc k) h l = bit_above w (a / 2) k (omega (arith, pow-suc 2 w)) (omega arith)

or_zero-zero : bit_or 0 0 ≡ 0
or_zero-zero = refl

pub bit_or-lt : (w a b : ℕ) → a < 2 ^ w → b < 2 ^ w → bit_or a b < 2 ^ w
bit_or-lt zero a b p q =
    let e : bit_or a b ≡ bit_or 0 0 = cc (zero_of_lt a p, zero_of_lt b q) in omega (arith, e)
  where
    zero_of_lt : (a : ℕ) → a < 1 → a ≡ 0
    zero_of_lt a h = omega arith
bit_or-lt (suc w) a b p q = omega (
  arith,
  or_halves a b,
  pow-suc 2 w,
  bit_or-lt w (a / 2) (b / 2) (omega (arith, pow-suc 2 w)) (omega (arith, pow-suc 2 w)),
)

pub bit_and-le : (n a b : ℕ) → b ≤ n → bit_and a b ≤ b
bit_and-le zero a b h = omega (arith, bit_and-zero a, ap (λ t. bit_and a t) (zero_of_le b h))
  where
    zero_of_le : (b : ℕ) → b ≤ 0 → b ≡ 0
    zero_of_le b h = omega arith
bit_and-le (suc n) a b h = omega (arith, and_halves a b, bit_and-le n (a / 2) (b / 2) (omega arith))

-- Two numbers with no bit in common.
pub bit_or-shift : (k a b : ℕ) → b < 2 ^ k → bit_or (a * 2 ^ k) b ≡ a * 2 ^ k + b
bit_or-shift zero a b h = bits_ext (bit_or (a * 1) b) (a * 1 + b) (λ k.
    bit-bit_or (a * 1) b k
    ∙ omega (
      arith,
      ap (λ t. bit t k) none_left,
      ap (λ t. bit (a * 1 + t) k) none_left,
      zero-bit k,
      ap (λ t. bit t k) (plus_zero (a * 1)),
    ))
  where
    none_left : b ≡ 0
    none_left = omega arith

    plus_zero : (n : ℕ) → n + 0 ≡ n
    plus_zero n = omega arith
bit_or-shift (suc k) a b h = omega (
  arith,
  or_halves (a * 2 ^ suc k) b,
  pow-suc 2 k,
  bit_or-shift k a (b / 2) (omega (arith, pow-suc 2 k)),
  ap (λ t. bit_or t (b / 2)) half,
  doubled,
)
  where
    doubled : a * 2 ^ suc k ≡ a * 2 ^ k * 2
    doubled = ap (λ t. a * t) (pow-suc 2 k) ∙ sym (mul_assoc a (2 ^ k) 2)

    half : a * 2 ^ suc k / 2 ≡ a * 2 ^ k
    half = omega (arith, doubled)

-- A bit by a division.
pub bit_lem : (a k : ℕ) → bit a k ≡ a / 2 ^ k % 2
bit_lem a zero = omega arith
bit_lem a (suc k) =
    bit_lem (a / 2) k
    ∙ ap (λ t. t % 2)
        (div-div-eq-div-mul a 2 (2 ^ k) ∙ ap (λ t. a / t) (mul_comm 2 (2 ^ k) ∙ sym (pow-suc 2 k)))
