-- ===== src/Wattsup/ReadData.antt =====
-- `wu_read_data` of wattsup/wattsup.c: records are printed until the count is reached, and bad ones
-- are retried. Sleeping is left aside.
use uarch_configure.Common.{
  ℕ, zero, suc, ◌+◌, ltb, ◌==◌, if◌then◌else◌, Bool, true, false, not, ◌&&◌, [],
}
use uarch_configure.Wattsup.{Packet}
use uarch_configure.Wattsup.Device.{M, exhausted, ◌>>=◌, ◌>>◌, return, print_packet, wu_read}
use uarch_configure.Wattsup.Commands.{packet, failed, wu_stop_log, wu_clear, wu_start_log}

abbrev pub wu_max_retry : ℕ
wu_max_retry = 2

-- The recovery after the second bad record in a row; the results of the three are ignored.
unfoldable pub reset : Bool → M (Unit {0})
reset wu_final = do wu_stop_log wu_final; wu_clear; wu_start_log; return tt

-- One round is one `wu_read`; `i` counts records only where `wu_count` asks for a number of them.
unfoldable pub read_data_loop : ℕ → Bool → ℕ → Packet → ℕ → ℕ → M (Unit {0})
read_data_loop zero wu_final wu_count p retry i = λ d. exhausted
read_data_loop (suc fuel) wu_final wu_count p retry i = do
  (ret, p') ← wu_read p
  elim (failed ret) [
    | true ↦ elim (ltb (retry + 1) wu_max_retry) [
      | true ↦ read_data_loop fuel wu_final wu_count p' (retry + 1) i
      | false ↦ elim (retry + 1 == wu_max_retry) [
        | true ↦ do reset wu_final; read_data_loop fuel wu_final wu_count p' (retry + 1) i
        | false ↦ return tt
      ]
    ]
    | false ↦ do
      print_packet p'
      let i' = if wu_count == 0 then i else i + 1
      elim (not (wu_count == 0) && i' == wu_count) [
        | true ↦ return tt
        | false ↦ read_data_loop fuel wu_final wu_count p' 0 i'
      ]
  ]

unfoldable pub wu_read_data : ℕ → Bool → ℕ → M (Unit {0})
unfolding read_data_loop
wu_read_data fuel wu_final wu_count = read_data_loop fuel wu_final wu_count (packet 0 0 [] 0) 0 0
