-- ===== src/Daq/Sizes.antt =====
-- The sizes that `main` of mc1208fs-plus/daqflex.c computes for the sample buffer.
use uarch_configure.Common.{
  ℕ, ◌+◌, ◌-◌, ◌*◌, ◌/◌, ◌%◌, ◌^◌, ◌≤◌, ◌<◌, ◌≡◌, ◌≢◌, refl, ap, arith, ◌==◌, ltb, if◌then◌else◌,
  ◌||◌, Option, none, some,
}

pub record Sizes : Type 0 where
  pub points : ℕ
  pub buffer_size : ℕ
  pub sample_times : ℕ
  pub delay : ℕ

-- `points`, whose product is unsigned and is then an `int`; `none` where that sum overflows.
unfoldable pub round_points : ℕ → ℕ → Option ℕ
round_points num_channels rate =
    let product = num_channels * rate % 2 ^ 32 in
    if ltb product 128 || ltb (2 ^ 31 - 1) product
    then some 128
    else if ltb (2 ^ 31 - 1) (product + 127)
    then none
    else some ((product + 127) / 128 * 128)

-- The sizes for a rate that is not negative, `none` where an `int` overflows or a division is by 0.
unfoldable pub buffer_sizes : ℕ → ℕ → Option Sizes
buffer_sizes num_channels rate = elim (round_points num_channels rate) [
  | none ↦ none
  | some points ↦
      let buffer_size = points * 2 * 2 in
      let sample_times = buffer_size / num_channels / 2 in
      let divisor = num_channels * rate * 2 % 2 ^ 32 in
      if ltb (2 ^ 31 - 1) buffer_size || num_channels == 0
      then none
      else if ltb (2 ^ 31 - 1) (sample_times * 100000) || divisor == 0
      then none
      else some (record {
        points = points;
        buffer_size = buffer_size;
        sample_times = sample_times;
        delay = sample_times * 100000 / divisor;
      })
]

-- The points of a buffer for one second: the next multiple of 128, at least 128.
abbrev pub wanted_points : ℕ → ℕ
wanted_points n = if n == 0 then 128 else (n + 127) / 128 * 128

round_points_lem : (c r : ℕ) → c * r < 2 ^ 28 → round_points c r ≡ some (wanted_points (c * r))
unfolding round_points
round_points_lem c r h = ground arith

doubled : (p c : ℕ) → p * 2 * 2 / c / 2 * 100000 ≡ p * 4 / c / 2 * 100000
doubled p c = ap (λ k. k / c / 2 * 100000) (four p)
  where
    four : (p : ℕ) → p * 2 * 2 ≡ p * 4
    four p = omega arith

nonzero : (c r : ℕ) → 0 < c * r → c ≢ 0
nonzero c r p e = omega (arith, ap (λ t. t * r) e)

-- For up to 2^28 samples per second whose `sample_times * 100000` fits an `int`, the sizes are
-- computed: the buffer holds twice the points of a second or a little more, half of its points are
-- a whole number of 64-byte transfers, and no product in the delay turned over.
pub buffer_sizes_fit :
    (c r : ℕ)
    → 0 < c * r
    → c * r < 2 ^ 28
    → wanted_points (c * r) * 4 / c / 2 * 100000 < 2 ^ 31
    → (s : Sizes) × (buffer_sizes c r ≡ some s)
      × (c * r ≤ s.points)
      × (s.points < c * r + 128)
      × (s.buffer_size ≡ 4 * s.points)
      × (s.points / 2 % 64 ≡ 0)
      × (s.delay ≡ s.sample_times * 100000 / (c * r * 2))
unfolding buffer_sizes
buffer_sizes_fit c r p h fits = (
  record {
    points = wanted;
    buffer_size = wanted * 2 * 2;
    sample_times = wanted * 2 * 2 / c / 2;
    delay = wanted * 2 * 2 / c / 2 * 100000 / (c * r * 2);
  },
  ground (arith, round_points_lem c r h, doubled wanted c, nonzero c r p, unsigned),
  ground arith,
  ground arith,
  omega arith,
  ground arith,
  refl,
)
  where
    wanted : ℕ
    wanted = wanted_points (c * r)

    unsigned : c * r * 2 % 2 ^ 32 ≡ c * r * 2
    unsigned = omega arith

-- For up to 2^28 samples per second whose `sample_times * 100000` does not fit an `int`, the delay
-- is not computed without an overflow of that product, which C leaves undefined.
pub buffer_sizes_overflow :
    (c r : ℕ)
    → 0 < c * r
    → c * r < 2 ^ 28
    → 2 ^ 31 ≤ wanted_points (c * r) * 4 / c / 2 * 100000
    → buffer_sizes c r ≡ none
unfolding buffer_sizes
buffer_sizes_overflow c r p h over =
    ground (arith, round_points_lem c r h, doubled (wanted_points (c * r)) c, nonzero c r p)
