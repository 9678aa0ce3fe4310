-- ===== src/Wattsup/Better.antt =====
-- wattsup/wattsup-better.c, which is wattsup.c but for the opening and setting up of the device (Open)
-- and for wu_clear, which main does not call here and the recovery of wu_read_data does.
pub mod Stuck
use uarch_configure.Common.{
  ℕ, zero, suc, ◌+◌, ltb, ◌==◌, if◌then◌else◌, Bool, true, false, not, ◌&&◌, List, [], ◌∷◌, ◌++◌,
  take,
}
use uarch_configure.Common.Text.{Text, codes}
use uarch_configure.Wattsup.{Packet, Code, success}
use uarch_configure.Wattsup.Device.{
  M, Device, WriteEvent, wrote, write_failed, ReadEvent, returns, waiting, exhausted, ◌>>=◌, ◌>>◌,
  return, print_packet, wu_read,
}
use uarch_configure.Wattsup.Commands.{packet, failed, wu_stop_log, wu_start_log}
use uarch_configure.Wattsup.ReadData.{wu_max_retry}
use uarch_configure.Wattsup.Settings.{wu_store_mode, wu_store_user}
use uarch_configure.Wattsup.Options.{WuOption, wu_option_value}
use uarch_configure.Wattsup.Main.{
  Place, final, interval, mode, user, no_data, index, is_set, wu_check_store, count_option,
  or_close, store_interval, show_info,
}

-- `write(fd, ...)` and `read(fd, ...)` themselves, whose results wu_clear only reports.
unfoldable pub raw_write : Text → List WriteEvent → M (Unit {0})
raw_write t [] d = waiting
raw_write t (wrote n ∷ rest) d =
    returns tt (record d { writes = rest; sent = d.sent ++ (take n t ∷ []) })
raw_write t (write_failed ∷ rest) d = returns tt (record d { writes = rest })

abbrev pub write : Text → M (Unit {0})
write t d = raw_write t d.writes d

unfoldable pub raw_read : List ReadEvent → M (Unit {0})
raw_read [] d = waiting
raw_read (e ∷ rest) d = returns tt (record d { reads = rest })

abbrev pub read : M (Unit {0})
read d = raw_read d.reads d

-- `while(1)` in `wu_clear`
unfoldable pub clear_rounds : ℕ → M (Unit {0})
clear_rounds zero = λ d. exhausted
clear_rounds (suc fuel) = do write (codes "#R,W,0;"); read; clear_rounds fuel

unfoldable pub better_wu_clear : ℕ → M (Unit {0})
better_wu_clear fuel = do write (0x18 ∷ []); write (codes "#V,W,0;"); clear_rounds fuel

unfoldable pub better_reset : ℕ → Bool → M (Unit {0})
better_reset fuel wu_final = do wu_stop_log wu_final; better_wu_clear fuel; wu_start_log; return tt

-- `wu_read_data`, as in wattsup.c.
unfoldable pub better_read_data_loop : ℕ → Bool → ℕ → Packet → ℕ → ℕ → M (Unit {0})
better_read_data_loop zero wu_final wu_count p retry i = λ d. exhausted
better_read_data_loop (suc fuel) wu_final wu_count p retry i = do
  (ret, p') ← wu_read p
  elim (failed ret) [
    | true ↦ elim (ltb (retry + 1) wu_max_retry) [
      | true ↦ better_read_data_loop fuel wu_final wu_count p' (retry + 1) i
      | false ↦ elim (retry + 1 == wu_max_retry) [
        | true ↦ do
          better_reset fuel wu_final
          better_read_data_loop fuel wu_final wu_count p' (retry + 1) i
        | false ↦ return tt
      ]
    ]
    | false ↦ do
      print_packet p'
      let i' = if wu_count == 0 then i else i + 1
      elim (not (wu_count == 0) && i' == wu_count) [
        | true ↦ return tt
        | false ↦ better_read_data_loop fuel wu_final wu_count p' 0 i'
      ]
  ]

unfoldable pub better_read_data : ℕ → Bool → ℕ → M (Unit {0})
unfolding better_read_data_loop
better_read_data fuel wu_final wu_count =
    better_read_data_loop fuel wu_final wu_count (packet 0 0 [] 0) 0 0

unfoldable pub better_take_data : ℕ → List WuOption → M Code
better_take_data fuel os = or_close (return (count_option os).0) (
    or_close wu_start_log (do
      better_read_data fuel (is_set final os) (count_option os).1
      wu_stop_log (is_set final os)
      return success))

-- `main` behind the setup of the device.
unfoldable pub better_main : ℕ → List WuOption → M Code
better_main fuel os = or_close (wu_check_store interval os (store_interval os)) (
    or_close (wu_check_store mode os (wu_store_mode (wu_option_value (index mode) os))) (
      or_close (wu_check_store user os (wu_store_user (wu_option_value (index user) os)))
        (do show_info os; if is_set no_data os then return success else better_take_data fuel os)))
