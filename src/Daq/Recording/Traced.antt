-- ===== src/Daq/Recording/Traced.antt =====
-- `main` of mc1208fs-plus/dump_watts_ddr4.c and of dump_watts_ddr3.c: the traces of a recording of eight or
-- of four channels, the last of which is the marker. The energies are left out.
pub mod Found
use uarch_configure.Common.{
  ℕ, ◌+◌, ◌%◌, ◌^◌, ltb, leb, ◌&&◌, if◌then◌else◌, false, Option, none, some, List, [], ◌∷◌,
}
use uarch_configure.Common.Text.{Text}
use uarch_configure.Daq.Traces.{Level, high, mid, low, Finder, threshold_of, find_traces, fresh}
use uarch_configure.Daq.Recording.{
  Header, Stop, read_header, read_stop, Rows, unfinished, out_of_bounds, rows, dump_loop, rounds,
  after_header,
}

-- `points[7]>4.0` and `points[7]<-4.0` for a pattern of 32 bits.
unfoldable pub level_of : ℕ → Level
level_of v =
    if ltb 0x40800000 v && leb v 0x7f800000
    then high
    else if ltb 0xc0800000 v && leb v 0xff800000
    then low
    else mid

-- The marker of a scan; `none` where `points[7]`, in the other program `points[3]`, was never set.
unfoldable pub marker_level : List ℕ → Option Level
marker_level (a ∷ b ∷ c ∷ d ∷ e ∷ f ∷ g ∷ marker ∷ []) = some (level_of marker)
marker_level _ = none

unfoldable pub ddr3_marker_level : List ℕ → Option Level
ddr3_marker_level (a ∷ b ∷ c ∷ marker ∷ []) = some (level_of marker)
ddr3_marker_level _ = none

abbrev pub first_level : Option Level → Option (List Level) → Option (List Level)
first_level (some l) (some ls) = some (l ∷ ls)
first_level _ _ = none

unfoldable pub levels_of : (List ℕ → Option Level) → List (List ℕ) → Option (List Level)
levels_of marker [] = some []
levels_of marker (r ∷ rs) = first_level (marker r) (levels_of marker rs)

-- `rate` is an `int`: where it is negative the threshold is 1.
unfoldable pub trace_threshold : ℕ → ℕ
trace_threshold rate = if ltb rate (2 ^ 31) then threshold_of rate else 1

-- `unset`: the marker is used and was never set.
pub data Traced : Type 0 where
  cut_short endless overrun unset : Traced
  traced : Header → Finder → Stop → Traced

abbrev pub trace_levels : Header → Text → Option (List Level) → Traced
trace_levels h s none = unset
trace_levels h s (some ls) = traced h (find_traces (trace_threshold h.rate) fresh ls) (read_stop s)

unfoldable pub trace_rows : (List ℕ → Option Level) → Header → Rows → Traced
trace_rows marker h unfinished = endless
trace_rows marker h out_of_bounds = overrun
trace_rows marker h (rows rs s) = trace_levels h s (levels_of marker rs)

-- With `size` elements of `points`.
unfoldable pub trace_recording : ℕ → (List ℕ → Option Level) → ℕ → Text → Traced
trace_recording size marker fuel s =
    after_header cut_short (read_header s)
      λ h rest. trace_rows marker h (dump_loop false fuel size (rounds h.num_channels) rest)

unfoldable pub dump_watts_ddr4 : ℕ → Text → Traced
dump_watts_ddr4 = trace_recording 8 marker_level

unfoldable pub dump_watts_ddr3 : ℕ → Text → Traced
dump_watts_ddr3 = trace_recording 4 ddr3_marker_level
