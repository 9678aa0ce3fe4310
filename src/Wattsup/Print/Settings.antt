-- ===== src/Wattsup/Print/Settings.antt =====
-- The options of wattsup/wattsup.c that say how packets are printed.
use uarch_configure.Common.{
  ℕ, ◌≡◌, refl, ◌∙◌, ap, if◌then◌else◌, Bool, true, false, Option, none, some, List, [], ◌∷◌,
}
use uarch_configure.Common.Text.{Text, codes}
use uarch_configure.Wattsup.{success}
use uarch_configure.Wattsup.Options.{
  WuOption, option, wu_options, Getopt, long_option, enable_long_option, parse_options,
  wu_option_value, wu_check_option,
}
use uarch_configure.Wattsup.Print.{Printing}

-- `wu_store_delim`: the value, if there is one.
unfoldable pub wu_store_delim : Option Text → Text → Text
wu_store_delim none old = old
wu_store_delim (some s) old = s

-- The settings behind the calls of `wu_check_store` in `main`.
unfoldable pub printing_of : List WuOption → Printing
printing_of os = record {
  wu_suppress = wu_check_option 10 os;
  wu_label = wu_check_option 9 os;
  wu_newline = wu_check_option 6 os;
  wu_localtime = wu_check_option 7 os;
  wu_gmtime = wu_check_option 8 os;
  wu_delim =
      if wu_check_option 5 os
      then wu_store_delim (wu_option_value 5 os) (codes ", ")
      else codes ", ";
}

abbrev given : Bool → ℕ → List Getopt → List Getopt
given true index rest = long_option index none ∷ rest
given false index rest = rest

-- A command line that asks for the settings.
pub command_line : Printing → List Getopt
command_line p =
    long_option 5 (some p.wu_delim)
    ∷ given p.wu_newline 6 (
        given p.wu_localtime 7
          (given p.wu_gmtime 8 (given p.wu_label 9 (given p.wu_suppress 10 []))))

abbrev with_flag : Bool → WuOption → WuOption
with_flag b o = record o { flag = b }

-- `wu_options` with the flags of the settings.
abbrev table : Text → Bool → Bool → Bool → Bool → Bool → List WuOption
table delim newline localtime gmtime label suppress =
    option "help" b'h' 0
    ∷ option "version" b'V' 0
    ∷ option "debug" b'd' 0
    ∷ option "count" b'c' 1
    ∷ option "final" b'z' 0
    ∷ record (option "delim" b'f' 1) { flag = true; value = some delim }
    ∷ with_flag newline (option "newline" b'n' 0)
    ∷ with_flag localtime (option "localtime" b't' 0)
    ∷ with_flag gmtime (option "gmtime" b'g' 0)
    ∷ with_flag label (option "label" b'l' 0)
    ∷ with_flag suppress (option "suppress" b's' 0)
    ∷ option "calibrate" b'b' 0
    ∷ option "header" b'r' 0
    ∷ option "interval" b'i' 2
    ∷ option "mode" b'm' 2
    ∷ option "user" b'u' 2
    ∷ option "show-all" b'a' 0
    ∷ option "no-data" b'N' 0
    ∷ option "set-only" b'S' 0
    ∷ []

set_newline :
    (d : Text) (n : Bool) (rest : List Getopt)
    → parse_options (given n 6 rest) (table d false false false false false)
      ≡ parse_options rest (table d n false false false false)
unfolding parse_options enable_long_option
set_newline d true rest = refl
set_newline d false rest = refl

set_localtime :
    (d : Text) (n l : Bool) (rest : List Getopt)
    → parse_options (given l 7 rest) (table d n false false false false)
      ≡ parse_options rest (table d n l false false false)
unfolding parse_options enable_long_option
set_localtime d n true rest = refl
set_localtime d n false rest = refl

set_gmtime :
    (d : Text) (n l g : Bool) (rest : List Getopt)
    → parse_options (given g 8 rest) (table d n l false false false)
      ≡ parse_options rest (table d n l g false false)
unfolding parse_options enable_long_option
set_gmtime d n l true rest = refl
set_gmtime d n l false rest = refl

set_label :
    (d : Text) (n l g b : Bool) (rest : List Getopt)
    → parse_options (given b 9 rest) (table d n l g false false)
      ≡ parse_options rest (table d n l g b false)
unfolding parse_options enable_long_option
set_label d n l g true rest = refl
set_label d n l g false rest = refl

set_suppress :
    (d : Text) (n l g b s : Bool)
    → parse_options (given s 10 []) (table d n l g b false) ≡ (success, table d n l g b s)
unfolding parse_options enable_long_option
set_suppress d n l g b true = refl
set_suppress d n l g b false = refl

-- All settings of the printing, with any delimiter, can be asked for with options.
pub printing_of-command_line :
    (p : Printing)
    → ((parse_options (command_line p) wu_options).0 ≡ success)
      × (printing_of (parse_options (command_line p) wu_options).1 ≡ p)
unfolding command_line printing_of parse_options enable_long_option wu_store_delim wu_check_option
    wu_option_value
printing_of-command_line p =
    let parsed : parse_options (command_line p) wu_options ≡ (
      success,
      table p.wu_delim p.wu_newline p.wu_localtime p.wu_gmtime p.wu_label p.wu_suppress,
    ) =
      set_newline p.wu_delim p.wu_newline _
      ∙ set_localtime p.wu_delim p.wu_newline p.wu_localtime _
      ∙ set_gmtime p.wu_delim p.wu_newline p.wu_localtime p.wu_gmtime _
      ∙ set_label p.wu_delim p.wu_newline p.wu_localtime p.wu_gmtime p.wu_label _
      ∙ set_suppress p.wu_delim p.wu_newline p.wu_localtime p.wu_gmtime p.wu_label p.wu_suppress in
    (ap (λ x. x.0) parsed, ap (λ x. printing_of x.1) parsed)
