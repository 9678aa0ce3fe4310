-- ===== src/Daq/Recording/Watts.antt =====
-- `main` of mc1208fs-plus/dump_watts.c: a line with the tick, the power and the first two channels for each
-- scan of a recording.
use uarch_configure.Common.{
  ℕ, suc, ◌+◌, ◌^◌, ◌<◌, ◌≤◌, ◌≡◌, refl, ap, arith, true, false, ltb, lt→ltb, Option, none, some,
  List, [], ◌∷◌, ◌++◌, append-nil, map, length, All,
}
use uarch_configure.Common.Text.{Text}
use uarch_configure.Daq.Recording.{
  word, Header, Stop, infinity, write_rows, write_recording, read_header, read_stop, Rows,
  unfinished, out_of_bounds, rows, dump_loop, rounds, after_header,
}
use uarch_configure.Daq.Recording.RoundTrip.{
  IsRow, IsHeader, dump_loop-write, read_header-write_header, read_stop-write,
}

-- `ticks`, which is printed divided by the rate, `watts`, `points[0]` and `points[1]`.
pub record PowerLine : Type 0 where
  pub tick : ℕ
  pub watts : ℕ
  pub shunt : ℕ
  pub voltage : ℕ

abbrev pub first_line : PowerLine → Option (List PowerLine) → Option (List PowerLine)
first_line l none = none
first_line l (some ls) = some (l ∷ ls)

-- `unset`: an element of `points` is used that was never set.
pub data Powers : Type 0 where
  cut_short endless overrun unset : Powers
  powers : Header → List PowerLine → Stop → Powers

-- `power` is `((points[0]/300.0)/0.00333)*points[1]` on the patterns.
module _ (power : ℕ → ℕ → ℕ) where
  abbrev pub power_line : ℕ → ℕ → ℕ → PowerLine
  power_line tick a b = record { tick = tick; watts = power a b; shunt = a; voltage = b }

  unfoldable pub power_lines : ℕ → List (List ℕ) → Option (List PowerLine)
  power_lines tick [] = some []
  power_lines tick ((a ∷ b ∷ more) ∷ rs) =
      first_line (power_line tick a b) (power_lines (tick + 1) rs)
  power_lines tick (_ ∷ rs) = none

  abbrev pub show_powers : Header → Text → Option (List PowerLine) → Powers
  show_powers h s none = unset
  show_powers h s (some ls) = powers h ls (read_stop s)

  abbrev pub power_rows : Header → Rows → Powers
  power_rows h unfinished = endless
  power_rows h out_of_bounds = overrun
  power_rows h (rows rs s) = show_powers h s (power_lines 0 rs)

  -- `points` has 4 elements.
  unfoldable pub dump_watts : ℕ → Text → Powers
  dump_watts fuel s =
      after_header cut_short (read_header s)
        λ h rest. power_rows h (dump_loop false fuel 4 (rounds h.num_channels) rest)

  -- The shunt, the voltage and the other channels of a scan.
  abbrev pub scan_points : ℕ × ℕ × List ℕ → List ℕ
  scan_points (a, b, more) = a ∷ b ∷ more

  abbrev pub expected : ℕ → List (ℕ × ℕ × List ℕ) → List PowerLine
  expected tick [] = []
  expected tick ((a, b, more) ∷ scans) = power_line tick a b ∷ expected (tick + 1) scans

  power_lines-expected :
      (tick : ℕ) (scans : List (ℕ × ℕ × List ℕ))
      → power_lines tick (map scan_points scans) ≡ some (expected tick scans)
  unfolding power_lines
  power_lines-expected tick [] = refl
  power_lines-expected tick ((a, b, more) ∷ scans) =
      ap (first_line (power_line tick a b)) (power_lines-expected (tick + 1) scans)

  -- Of a recording of two to four channels of finite numbers, each scan is a line, numbered from 0, with
  -- its power and its first two channels, between the header and the time of the end.
  pub dump_watts-write_recording :
      (h : Header) (scans : List (ℕ × ℕ × List ℕ)) (sec usec : ℕ)
      → IsHeader h
      → h.num_channels ≤ 4
      → All (IsRow h.num_channels) (map scan_points scans)
      → sec < 2 ^ 64
      → usec < 2 ^ 64
      → dump_watts
          (suc (length (map scan_points scans)))
          (write_recording h (map scan_points scans) (sec, usec))
        ≡ powers h (expected 0 scans) (record { stop_sec = some sec; stop_usec = some usec })
  unfolding dump_watts write_recording after_header
  dump_watts-write_recording h scans sec usec w le p a b =
      let stop = word 8 sec ++ word 8 usec in
      let body = write_rows (map scan_points scans) ++ (word 4 infinity ++ stop) in
      let few : ltb h.num_channels (2 ^ 31) ≡ true =
        lt→ltb h.num_channels (2 ^ 31) (omega (arith, le)) in
      rw
        (
          read_header-write_header h body w,
          few,
          dump_loop-write false 4 h.num_channels (map scan_points scans) stop w.channels_pos le p,
          append-nil (map scan_points scans),
          power_lines-expected 0 scans,
          read_stop-write sec usec a b,
        )
        refl
