-- ===== src/Wattsup/Main.antt =====
-- The order in which `main` of wattsup/wattsup.c works through the options. Opening and setting up
-- the serial device stand in Whole: this starts where both have succeeded.
pub mod Terminates
use uarch_configure.Common.{ℕ, if◌then◌else◌, Bool, true, false, Option, none, some, List, [], ◌∷◌}
use uarch_configure.Common.Text.{Text}
use uarch_configure.Common.Strtol.{strtol}
use uarch_configure.Wattsup.{Code, success, einval}
use uarch_configure.Wattsup.Device.{M, ◌>>=◌, ◌>>◌, return}
use uarch_configure.Wattsup.Commands.{
  failed, wu_show_cal, wu_show_header, wu_show_interval, wu_show_mode, wu_show_user, wu_clear,
  wu_start_log, wu_stop_log,
}
use uarch_configure.Wattsup.ReadData.{wu_read_data}
use uarch_configure.Wattsup.Settings.{wu_store_interval, wu_store_mode, wu_store_user}
use uarch_configure.Wattsup.Options.{WuOption, wu_option_value, wu_check_option}

-- The places of the options in the table (`wu_option_count` and the like).
pub data Place : Type 0 where
  count final calibrate header interval mode user show_all no_data set_only : Place

abbrev pub index : Place → ℕ
index count = 3
index final = 4
index calibrate = 11
index header = 12
index interval = 13
index mode = 14
index user = 15
index show_all = 16
index no_data = 17
index set_only = 18

abbrev pub is_set : Place → List WuOption → Bool
is_set place os = wu_check_option (index place) os

-- `wu_check_store`, and `wu_check_show` whose result `main` ignores.
unfoldable pub wu_check_store : Place → List WuOption → M Code → M Code
wu_check_store place os store = if is_set place os then store else return success

unfoldable pub wu_check_show : Place → List WuOption → M Code → M Code
wu_check_show place os show = if is_set place os then show else return success

-- `wu_store_count`: its result, and `wu_count`, an `int`.
unfoldable pub wu_store_count : Option Text → Code × ℕ
wu_store_count none = (success, 0)
wu_store_count (some s) = elim (strtol s).1 [
  | [] ↦ (success, (strtol s).0)
  | c ∷ rest ↦ (einval, (strtol s).0)
]

abbrev pub count_option : List WuOption → Code × ℕ
count_option os =
    if is_set count os then wu_store_count (wu_option_value (index count) os) else (success, 0)

-- `if ((ret = ...)) goto Close;`
unfoldable pub or_close : M Code → M Code → M Code
or_close step next = do ret ← step; if failed ret then return ret else next

-- The options that set a parameter of the meter.
unfoldable pub store_interval : List WuOption → M Code
store_interval os = do
  (ret, _) ← wu_store_interval (wu_option_value (index interval) os)
  return ret

-- The options that print what the meter is set to.
unfoldable pub show_info : List WuOption → M Code
show_info os =
    if is_set show_all os
    then (do wu_show_cal; wu_show_header; wu_show_interval; wu_show_mode; wu_show_user)
    else do
      wu_check_show calibrate os wu_show_cal
      wu_check_show header os wu_show_header
      if is_set set_only os then return success else do
        wu_check_show interval os wu_show_interval
        wu_check_show mode os wu_show_mode
        wu_check_show user os wu_show_user

-- `if (!wu_no_data)`
unfoldable pub take_data : ℕ → List WuOption → M Code
take_data fuel os = or_close (return (count_option os).0) (
    or_close wu_start_log (do
      wu_read_data fuel (is_set final os) (count_option os).1
      wu_stop_log (is_set final os)
      return success))

-- `main` behind the setup of the device, for the options that `parse_args` left.
unfoldable pub wu_main : ℕ → List WuOption → M Code
wu_main fuel os = do
  wu_clear
  or_close (wu_check_store interval os (store_interval os)) (
      or_close (wu_check_store mode os (wu_store_mode (wu_option_value (index mode) os))) (
        or_close (wu_check_store user os (wu_store_user (wu_option_value (index user) os)))
          (do show_info os; if is_set no_data os then return success else take_data fuel os)))
