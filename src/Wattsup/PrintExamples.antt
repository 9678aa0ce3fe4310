-- ===== src/Wattsup/PrintExamples.antt =====
-- A printed line of wattsup/wattsup.c.
use uarch_configure.Common.{◌≡◌, refl, true, false, none, some, List, [], ◌∷◌, ◌++◌}
use uarch_configure.Common.Text.{Text, codes}
use uarch_configure.Wattsup.{Packet}
use uarch_configure.Wattsup.Options.{WuField, field}
use uarch_configure.Wattsup.Print.{Printing, print_time, print_packet_filter}
use uarch_configure.Wattsup.Print.Columns.{split, print_packet_filter-split}
use uarch_configure.Wattsup.{success}
use uarch_configure.Wattsup.Options.{wu_options, parse_options}
use uarch_configure.Wattsup.Print.Settings.{command_line, printing_of, printing_of-command_line}

-- `wu_delim` as it is at the start.
abbrev options : Printing
options = record {
  wu_suppress = false;
  wu_label = false;
  wu_newline = false;
  wu_localtime = true;
  wu_gmtime = false;
  wu_delim = b',' ∷ b' ' ∷ [];
}

abbrev two_of_three : List WuField
two_of_three =
    record { enable = true; name = none }
    ∷ field "volts"
    ∷ record { enable = true; name = none }
    ∷ []

abbrev record_packet : Packet
record_packet = record {
  cmd = b'd';
  sub_cmd = b'-';
  count = 3;
  buf = [];
  len = 0;
  field = codes "120" ∷ codes "1190" ∷ codes "7" ∷ [];
}

-- A tenth of a number of one or more digits.
abbrev one_decimal : Text → Text
one_decimal [] = codes "0.0"
one_decimal (c ∷ []) = b'0' ∷ b'.' ∷ c ∷ []
one_decimal (c ∷ d ∷ []) = c ∷ b'.' ∷ d ∷ []
one_decimal (c ∷ d ∷ e ∷ s) = c ∷ one_decimal (d ∷ e ∷ s)

print_packet_filter-split_example :
    (line : Text) × (print_packet_filter options one_decimal two_of_three []
        (codes "[10:20:30] ")
        []
        record_packet
      ≡ some (print_time options (codes "[10:20:30] ") [] ++ (line ++ (10 ∷ []))))
    × (split b',' 1 0 line ≡ codes "12.0" ∷ codes "0.7" ∷ [])
print_packet_filter-split_example =
    print_packet_filter-split options one_decimal two_of_three [] (codes "[10:20:30] ") []
      record_packet b',' (b' ' ∷ []) (codes "120") (codes "7" ∷ []) refl refl refl
      (
        ((refl, refl), ((refl, refl), ((refl, refl), ((refl, refl), tt)))),
        (((refl, refl), ((refl, refl), ((refl, refl), tt))), tt),
      )

printing_of-command_line_example :
    ((parse_options (command_line options) wu_options).0 ≡ success)
    × (printing_of (parse_options (command_line options) wu_options).1 ≡ options)
printing_of-command_line_example = printing_of-command_line options
