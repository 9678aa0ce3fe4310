-- ===== src/Wattsup/Whole.antt =====
-- All of main of wattsup/wattsup.c: the arguments, the opening and setup of the serial line, and the
-- meter behind it.
pub mod Guards
use uarch_configure.Common.{
  ℕ, if◌then◌else◌, Bool, true, false, ◌||◌, Option, none, some, List, [], ◌∷◌,
}
use uarch_configure.Common.Text.{Text}
use uarch_configure.Wattsup.{Code}
use uarch_configure.Wattsup.Device.{Device, Outcome}
use uarch_configure.Wattsup.Commands.{failed}
use uarch_configure.Wattsup.Options.{
  Getopt, WuOption, WuField, wu_options, wu_fields, parse_options, parse_arguments, wu_check_option,
}
use uarch_configure.Wattsup.Main.{wu_main}
use uarch_configure.Wattsup.Open.{System, Opened, open_device}

-- What `getopt_long` gives, the arguments behind the options, what the calls of `open_device` give,
-- whether `tcgetattr` and `tcsetattr` work on a file, and the device behind a file.
pub record WuCall : Type 0 where
  pub getopts : List Getopt
  pub arguments : List Text
  pub system : System
  pub gets_attributes : ℕ → Bool
  pub sets_attributes : ℕ → Bool
  pub behind_file : ℕ → Device

-- `stopped`: the status is 0 and no device was opened. `runs` has the file, the options that are set and
-- the fields.
pub data WuRun : Type 0 where
  stopped field_fault open_error setup_error : WuRun
  runs : (fd : ℕ) → List WuOption → List WuField → Outcome Code → WuRun

-- `setup_serial_device`
unfoldable pub setup_serial_device : WuCall → ℕ → Bool
setup_serial_device y fd = if y.gets_attributes fd then y.sets_attributes fd else false

-- `int fd = 0`, which `open_device` may leave.
abbrev pub file_of : Option ℕ → ℕ
file_of none = 0
file_of (some fd) = fd

unfoldable pub open_and_run : ℕ → WuCall → List WuOption → List WuField → WuRun
open_and_run fuel y os fs =
    let o = open_device y.system in
    let fd = file_of o.dev_fd in
    if o.returned_0
    then (if setup_serial_device y fd
        then runs fd os fs (wu_main fuel os (y.behind_file fd))
        else setup_error)
    else open_error

abbrev pub with_arguments :
    Option (Code × Option Text × List WuField) → (List WuField → WuRun) → WuRun
with_arguments none next = field_fault
with_arguments (some (ret, device, fs)) next = if failed ret then stopped else next fs

-- The options `wu_option_help` and `wu_option_version`.
abbrev pub shows_and_exits : List WuOption → Bool
shows_and_exits os = wu_check_option 0 os || wu_check_option 1 os

abbrev pub with_options : Code × List WuOption → (List WuOption → WuRun) → WuRun
with_options (ret, os) next =
    if failed ret then stopped else if shows_and_exits os then stopped else next os

unfoldable pub wattsup : ℕ → WuCall → WuRun
wattsup fuel y =
    with_options (parse_options y.getopts wu_options)
      λ os. with_arguments (parse_arguments y.arguments wu_fields) λ fs. open_and_run fuel y os fs
