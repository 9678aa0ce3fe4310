-- ===== src/Wattsup/Print.antt =====
-- print_packet, print_time, print_packet_filter and filter_data of wattsup/wattsup.c: the text that a
-- packet is printed as.
pub mod Columns
pub mod Settings
use uarch_configure.Common.{
  ℕ, ◌==◌, if◌then◌else◌, Bool, true, false, Option, none, some, List, [], ◌∷◌, ◌++◌, ◌||◌,
}
use uarch_configure.Common.Text.{Text, codes}
use uarch_configure.Wattsup.{Packet}
use uarch_configure.Wattsup.Options.{WuField}

-- The flags and `wu_delim`.
pub record Printing : Type 0 where
  pub wu_suppress : Bool
  pub wu_label : Bool
  pub wu_newline : Bool
  pub wu_localtime : Bool
  pub wu_gmtime : Bool
  pub wu_delim : Text

-- `msg(text)`, where the text is the format: `none` where it asks for an argument that is not there.
unfoldable pub msg : Text → Option Text
msg [] = some []
msg (c ∷ []) = if c == b'%' then none else some (c ∷ [])
msg (c ∷ d ∷ s) =
    let pair = msg s in
    let one = msg (d ∷ s) in
    if c == b'%'
    then (if d == b'%' then (elim pair [ none ↦ none | some t ↦ some (b'%' ∷ t) ]) else none)
    else elim one [ none ↦ none | some t ↦ some (c ∷ t) ]

-- What is printed first, and then; `none` stays.
unfoldable pub then_print : Option Text → Option Text → Option Text
then_print none rest = none
then_print (some a) none = none
then_print (some a) (some b) = some (a ++ b)

-- A column: its label, `none` for NULL, and its text.
abbrev pub Column : Type 0
Column = Option Text × Text

abbrev pub separator : Printing → Text
separator o = if o.wu_newline then 10 ∷ [] else o.wu_delim

abbrev pub label_text : Option Text → Option Text
label_text none = none
label_text (some l) = some (b'[' ∷ (l ++ (b']' ∷ b' ' ∷ [])))

-- The loops over the columns; `more` says whether one was printed before.
unfoldable pub print_columns : Printing → Bool → List Column → Option Text
print_columns o more [] = some []
print_columns o more ((label, t) ∷ columns) = then_print (some (if more then separator o else [])) (
    then_print (if o.wu_label then label_text label else some [])
      (then_print (msg t) (print_columns o true columns)))

-- The columns of `print_packet`: all fields.
unfoldable pub all_columns : List (Option Text) → List Text → List Column
all_columns labels [] = []
all_columns [] (f ∷ fs) = (none, f) ∷ all_columns [] fs
all_columns (l ∷ labels) (f ∷ fs) = (l, f) ∷ all_columns labels fs

-- `print_packet` with the title `str`; the labels are those of the packet's command.
unfoldable pub print_packet : Printing → List (Option Text) → Text → Packet → Option Text
print_packet o labels str p =
    then_print (some (if o.wu_suppress then [] else codes "Watts Up? " ++ (str ++ (10 ∷ []))))
      (then_print (print_columns o false (all_columns labels p.field)) (some (10 ∷ [])))

-- `print_time`, for the text `[hh:mm:ss] ` of the local time and of that of Greenwich.
unfoldable pub print_time : Printing → Text → Text → Text
print_time o local gmt =
    if o.wu_localtime || o.wu_gmtime then (if o.wu_localtime then local else gmt) else []

-- The columns that `filter_data` lets through. `tenths` is `snprintf(buf, 256, "%.1f", strtod(s) / 10.0)`.
unfoldable pub data_columns :
    (Text → Text) → List WuField → List (Option Text) → List Text → List Column
data_columns tenths [] labels fs = []
data_columns tenths (w ∷ ws) labels [] = []
data_columns tenths (w ∷ ws) [] (f ∷ fs) =
    let rest = data_columns tenths ws [] fs in if w.enable then (none, tenths f) ∷ rest else rest
data_columns tenths (w ∷ ws) (l ∷ labels) (f ∷ fs) =
    let rest = data_columns tenths ws labels fs in if w.enable then (l, tenths f) ∷ rest else rest

-- `print_packet_filter(p, filter_data)`
unfoldable pub print_packet_filter :
    Printing
    → (Text → Text)
    → List WuField
    → List (Option Text)
    → Text
    → Text
    → Packet
    → Option Text
print_packet_filter o tenths fields labels local gmt p =
    then_print (some (print_time o local gmt)) (
      then_print (print_columns o false (data_columns tenths fields labels p.field))
        (some (10 ∷ [])))
