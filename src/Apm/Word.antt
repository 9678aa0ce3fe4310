-- ===== src/Apm/Word.antt =====
-- Signed 64-bit arithmetic of C on bit patterns.
use uarch_configure.Common.{
  ℕ, ◌+◌, ◌-◌, ◌/◌, ◌%◌, ◌^◌, ◌==◌, ltb, leb, if◌then◌else◌, Bool, ◌||◌, ◌&&◌, Option, none, some,
  ◌≡◌, ◌<◌, arith, refl,
}

abbrev pub is_negative : ℕ → Bool
is_negative a = leb (2 ^ 63) a

-- `a < b`
abbrev pub signed_lt : ℕ → ℕ → Bool
signed_lt a b = ltb ((a + 2 ^ 63) % 2 ^ 64) ((b + 2 ^ 63) % 2 ^ 64)

abbrev pub neg64 : ℕ → ℕ
neg64 a = (2 ^ 64 - a) % 2 ^ 64

abbrev pub sub64 : ℕ → ℕ → ℕ
sub64 a b = (a + 2 ^ 64 - b) % 2 ^ 64

abbrev pub magnitude : ℕ → ℕ
magnitude a = if is_negative a then 2 ^ 64 - a else a

-- `a / b`, rounded towards zero; `none` where the processor traps.
unfoldable pub signed_div : ℕ → ℕ → Option ℕ
signed_div a b =
    if b == 0 || (a == 2 ^ 63 && b == 2 ^ 64 - 1)
    then none
    else let q = magnitude a / magnitude b in
      if is_negative a
      then (if is_negative b then some q else some (neg64 q))
      else if is_negative b
      then some (neg64 q)
      else some q

-- On small numbers it is the division of natural numbers.
pub signed_div_small : (a b : ℕ) → a < 2 ^ 63 → b < 2 ^ 63 → 0 < b → signed_div a b ≡ some (a / b)
unfolding signed_div
signed_div_small a b ha hb h = ground arith

pub signed_lt_small : (a b : ℕ) → a < 2 ^ 63 → b < 2 ^ 63 → signed_lt a b ≡ ltb a b
signed_lt_small a b ha hb = ground arith

pub signed_div_zero : (a : ℕ) → signed_div a 0 ≡ none
unfolding signed_div
signed_div_zero a = refl
