-- ===== src/MakePlot/Times.antt =====
-- The times that wattsup/utils/make_plot.c reads.
use uarch_configure.Common.{ℕ, ◌+◌, ◌/◌, ◌%◌, ◌<◌, ◌≡◌, ap, arith, lt→ltb, [], ◌∷◌, ◌++◌}
use uarch_configure.Common.Text.{Text}
use uarch_configure.MakePlot.{digit, two_digits, seconds, total_seconds, convert_time_to_seconds}

-- A time of day in seconds as the log has it, `[hh:mm:ss]`.
abbrev pub stamp : ℕ → Text
stamp t =
    b'['
    ∷ (48 + t / 3600 / 10)
    ∷ (48 + t / 3600 % 10)
    ∷ b':'
    ∷ (48 + t / 60 % 60 / 10)
    ∷ (48 + t / 60 % 60 % 10)
    ∷ b':'
    ∷ (48 + t % 60 / 10)
    ∷ (48 + t % 60 % 10)
    ∷ b']'
    ∷ []

digit_of : (d : ℕ) → d < 10 → digit (48 + d) ≡ d
digit_of d h = rw (lt→ltb (48 + d) 128 (omega arith)) (omega arith)

two_digits_lem : (n : ℕ) → n < 100 → two_digits (48 + n / 10) (48 + n % 10) ≡ n
two_digits_lem n h =
    rw (digit_of (n / 10) (omega arith), digit_of (n % 10) (omega arith)) (omega arith)

-- Every time of less than a hundred hours is read back as its seconds, whatever stands behind it.
pub convert_time_to_seconds-stamp :
    (t : ℕ) (rest : Text) → t < 360000 → convert_time_to_seconds (stamp t ++ rest) ≡ seconds t
unfolding convert_time_to_seconds total_seconds
convert_time_to_seconds-stamp t rest h =
    rw
      (
        two_digits_lem (t / 3600) (omega arith),
        two_digits_lem (t / 60 % 60) (omega arith),
        two_digits_lem (t % 60) (omega arith),
      )
      (ap seconds (omega arith))
