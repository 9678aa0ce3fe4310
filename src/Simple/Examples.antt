-- ===== src/Simple/Examples.antt =====
-- wattsup/wattsup-simple.c on concrete inputs.
use uarch_configure.Common.{◌≡◌, refl, arith, List, [], ◌∷◌}
use uarch_configure.Common.Text.{Text, codes}
use uarch_configure.Simple.Read.{Read, got, failed}
use uarch_configure.Simple.Meter.{Meter, returns, wrote, wu_read}
use uarch_configure.Simple.Sample.{wu_read-line}

-- A line with 123.4 watts, in two pieces.
abbrev piece_one : Text
piece_one = codes "d,-,18,12"

abbrev piece_two : Text
piece_two = codes "34,1200;\r\n"

abbrev later : List Read
later = got (codes "#d") ∷ []

abbrev meter : Meter
meter = record {
  reads = failed ∷ failed ∷ got (b'#' ∷ piece_one) ∷ got piece_two ∷ later;
  writes = wrote 13 ∷ wrote 7 ∷ [];
  times = 5000000 ∷ [];
  sent = [];
  printed = [];
  missed_samples = 0;
}

wu_read-line_example :
    wu_read meter
    ≡ returns 0 (record meter { reads = later; times = []; printed = (5000000, codes "1234") ∷ [] })
wu_read-line_example =
    wu_read-line meter 2 5000000 [] later piece_one (piece_two ∷ []) (codes "#d") (codes "-")
      (codes "18") (codes "1234") (codes "1200;\r\n") refl refl refl (refl, refl)
      ((omega arith, omega arith), ((omega arith, omega arith), tt))
      ((omega arith, omega arith), tt)
      ((omega arith, omega arith), ((omega arith, omega arith), tt))
      (refl, (refl, (refl, (refl, tt)))) (omega arith)
