-- ===== src/Wattsup/Options.antt =====
-- The tables of wattsup/wattsup.c: the options of the command line and the fields to print.
use Prim.Native.String.{String}
use uarch_configure.Common.{
  ℕ, ◌==◌, if◌then◌else◌, Bool, true, false, Option, none, some, List, [], ◌∷◌, get_elem?,
}
use uarch_configure.Common.Text.{Text, codes, same_text}
use uarch_configure.Wattsup.{Code, success, einval}

-- `struct wu_options`: its name, letter and kind of parameter, and what the command line sets.
pub record WuOption : Type 0 where
  pub longopt : Text
  pub shortopt : ℕ
  pub param : ℕ
  pub flag : Bool
  pub value : Option Text

abbrev pub option : String → ℕ → ℕ → WuOption
option longopt shortopt param = record {
  longopt = codes longopt;
  shortopt = shortopt;
  param = param;
  flag = false;
  value = none;
}

abbrev pub wu_options : List WuOption
wu_options =
    option "help" b'h' 0
    ∷ option "version" b'V' 0
    ∷ option "debug" b'd' 0
    ∷ option "count" b'c' 1
    ∷ option "final" b'z' 0
    ∷ option "delim" b'f' 1
    ∷ option "newline" b'n' 0
    ∷ option "localtime" b't' 0
    ∷ option "gmtime" b'g' 0
    ∷ option "label" b'l' 0
    ∷ option "suppress" b's' 0
    ∷ option "calibrate" b'b' 0
    ∷ option "header" b'r' 0
    ∷ option "interval" b'i' 2
    ∷ option "mode" b'm' 2
    ∷ option "user" b'u' 2
    ∷ option "show-all" b'a' 0
    ∷ option "no-data" b'N' 0
    ∷ option "set-only" b'S' 0
    ∷ []

-- The fields of `wu_fields`; the last two entries of the array have no name.
pub record WuField : Type 0 where
  pub enable : Bool
  pub name : Option Text

abbrev pub field : String → WuField
field name = record { enable = false; name = some (codes name) }

abbrev pub unnamed : WuField
unnamed = record { enable = false; name = none }

abbrev pub wu_fields : List WuField
wu_fields =
    field "watts"
    ∷ field "volts"
    ∷ field "amps"
    ∷ field "kwh"
    ∷ field "cost"
    ∷ field "mo-kwh"
    ∷ field "mo-cost"
    ∷ field "max-watts"
    ∷ field "min-volts"
    ∷ field "max-amps"
    ∷ field "min-watts"
    ∷ field "max-volts"
    ∷ field "min-amps"
    ∷ field "power-factor"
    ∷ field "duty-cycle"
    ∷ field "power-cycle"
    ∷ unnamed
    ∷ unnamed
    ∷ []

-- The loop of `enable_field`; `none` where `strcasecmp` is given the `NULL` of an unnamed entry.
unfoldable pub enable_field : Text → List WuField → Option (List WuField)
unfolding same_text
enable_field name [] = some []
enable_field name (f ∷ fs) = elim f.name [
  | none ↦ none
  | some n ↦
      if same_text n name
      then some (record f { enable = true } ∷ fs)
      else elim (enable_field name fs) [ none ↦ none | some fs' ↦ some (f ∷ fs') ]
]

unfoldable pub enable_fields : List Text → List WuField → Option (List WuField)
unfolding enable_field
enable_fields [] fs = some fs
enable_fields (name ∷ names) fs = elim (enable_field name fs) [
  | none ↦ none
  | some fs' ↦ enable_fields names fs'
]

unfoldable pub enable_all_fields : List WuField → List WuField
enable_all_fields [] = []
enable_all_fields (f ∷ fs) = record f { enable = true } ∷ enable_all_fields fs

unfoldable pub make_shortopt : List WuOption → Text
make_shortopt [] = []
make_shortopt (o ∷ os) =
    let rest = make_shortopt os in
    if o.param == 0
    then o.shortopt ∷ rest
    else o.shortopt ∷ (if o.param == 1 then b':' else b';') ∷ rest

-- `flag = 1`, and the value where there is one.
abbrev pub set_option : Option Text → WuOption → WuOption
set_option none o = record o { flag = true }
set_option (some arg) o = record o { flag = true; value = some arg }

unfoldable pub enable_short_option : ℕ → Option Text → List WuOption → List WuOption
enable_short_option c arg [] = []
enable_short_option c arg (o ∷ os) =
    if o.shortopt == c then set_option arg o ∷ os else o ∷ enable_short_option c arg os

unfoldable pub enable_long_option : ℕ → Option Text → List WuOption → List WuOption
enable_long_option index arg [] = []
enable_long_option ℕ.zero arg (o ∷ os) = set_option arg o ∷ os
enable_long_option (ℕ.suc index) arg (o ∷ os) = o ∷ enable_long_option index arg os

-- What a call of `getopt_long` gives: a long option's index, `'?'`, or a letter.
pub data Getopt : Type 0 where
  long_option : ℕ → Option Text → Getopt
  bad : Getopt
  short_option : ℕ → Option Text → Getopt

-- The loop of `parse_args` over what `getopt_long` gives.
unfoldable pub parse_options : List Getopt → List WuOption → Code × List WuOption
parse_options [] os = (success, os)
parse_options (long_option index arg ∷ gs) os = parse_options gs (enable_long_option index arg os)
parse_options (bad ∷ gs) os = (einval, os)
parse_options (short_option c arg ∷ gs) os = parse_options gs (enable_short_option c arg os)

-- `wu_option_value`; an index behind the table gives `NULL`.
unfoldable pub wu_option_value : ℕ → List WuOption → Option Text
wu_option_value index os = elim (get_elem? os index) [ none ↦ none | some o ↦ o.value ]

-- `wu_check_option_show` and `wu_check_option_store`, which are one function.
unfoldable pub wu_check_option : ℕ → List WuOption → Bool
wu_check_option index os = elim (get_elem? os index) [ none ↦ false | some o ↦ o.flag ]

-- The arguments behind the options: the device, and the fields; `einval` without a device.
unfoldable pub parse_arguments :
    List Text → List WuField → Option (Code × Option Text × List WuField)
parse_arguments [] fs = some (einval, none, fs)
parse_arguments (device ∷ []) fs = some (success, some device, enable_all_fields fs)
parse_arguments (device ∷ n ∷ names) fs = elim (enable_fields (n ∷ names) fs) [
  | none ↦ none
  | some fs' ↦ some (success, some device, fs')
]
