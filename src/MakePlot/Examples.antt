-- ===== src/MakePlot/Examples.antt =====
-- wattsup/utils/make_plot.c on concrete logs.
use uarch_configure.Common.{◌≡◌, refl, arith, [], ◌∷◌, ◌++◌}
use uarch_configure.Common.Text.{codes}
use uarch_configure.MakePlot.{
  seconds, wrong, fault, convert_time_to_seconds, log_line, log_lines, empty_log,
}
use uarch_configure.MakePlot.Times.{stamp, convert_time_to_seconds-stamp}

convert_time_to_seconds-stamp_example :
    convert_time_to_seconds (stamp 45296 ++ codes " 12.5") ≡ seconds 45296
convert_time_to_seconds-stamp_example =
    convert_time_to_seconds-stamp 45296 (codes " 12.5") (omega arith)

the_stamp : stamp 45296 ≡ codes "[12:34:56]"
the_stamp = refl

-- A text that ends early, and one with a wrong character.
too_short : convert_time_to_seconds (codes "[1") ≡ fault
unfolding convert_time_to_seconds
too_short = refl

no_bracket : convert_time_to_seconds (codes "12:34:56") ≡ wrong
unfolding convert_time_to_seconds
no_bracket = refl

-- A log that begins at midnight: the second line counts as the start, and its energy is lost.
midnight :
    ((log_lines empty_log (0 ∷ 5 ∷ 9 ∷ [])).points ≡ 0 ∷ 0 ∷ 4 ∷ [])
    × ((log_lines empty_log (0 ∷ 5 ∷ 9 ∷ [])).intervals ≡ 4 ∷ [])
unfolding log_lines log_line
midnight = (refl, refl)
