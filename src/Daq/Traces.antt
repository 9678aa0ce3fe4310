-- ===== src/Daq/Traces.antt =====
-- The trace finder of mc1208fs-plus/dump_watts_ddr4.c (dump_watts_ddr3.c has the same states): the
-- marker channel of a recording shows where each trace starts and stops. The energy of a trace is
-- floating-point; what it is summed over is kept as the number of samples.
pub mod Segments
pub mod Debounce
use uarch_configure.Common.{ℕ, suc, ◌+◌, ◌/◌, ltb, if◌then◌else◌, List, [], ◌∷◌}

-- The marker channel: above 4.0, below -4.0, or neither.
pub data Level : Type 0 where
  high mid low : Level

-- `STATE_NONE`, `STATE_DTR_START`, `STATE_DTR_STOP` and `STATE_IN_TRACE`.
pub data State : Type 0 where
  none dtr_start dtr_stop in_trace : State

-- What is printed: the number of a trace and the tick, and at its end the ticks that elapsed.
pub data Event : Type 0 where
  starting : (trace tick : ℕ) → Event
  ending : (trace tick elapsed : ℕ) → Event

-- The variables of `main`; `total_ticks` stands for `total_time`, `events` has the last one first.
pub record Finder : Type 0 where
  pub state : State
  pub ticks : ℕ
  pub trace_ticks : ℕ
  pub trace : ℕ
  pub time_in_state : ℕ
  pub total_ticks : ℕ
  pub events : List Event

-- `threshold=rate/500; if (threshold<1) threshold=1;`
unfoldable pub threshold_of : ℕ → ℕ
threshold_of rate = if ltb (rate / 500) 1 then 1 else rate / 500

unfoldable pub end_trace : Finder → Finder
end_trace s = record s {
  state = dtr_stop;
  events = ending s.trace s.ticks s.trace_ticks ∷ s.events;
  total_ticks = s.total_ticks + s.trace_ticks;
  trace = s.trace + 1;
  time_in_state = 0;
}

unfoldable pub start_trace : Finder → Finder
start_trace s = record s {
  state = in_trace;
  events = starting s.trace s.ticks ∷ s.events;
  trace_ticks = 0;
  time_in_state = 0;
}

-- `time_in_state++`, and what is done where it passes the threshold.
unfoldable pub count_high : ℕ → (Finder → Finder) → Finder → Finder
count_high threshold done s =
    let s' : Finder = record s { time_in_state = s.time_in_state + 1 } in
    if ltb threshold (s.time_in_state + 1) then done s' else s'

-- The chain of conditions on the state and the marker.
unfoldable pub change_state : ℕ → State → Level → Finder → Finder
unfolding count_high end_trace start_trace
change_state threshold none high s =
    count_high threshold (λ t. record t { state = dtr_start; time_in_state = 0 }) s
change_state threshold dtr_start low s = start_trace s
change_state threshold in_trace high s = count_high threshold end_trace s
change_state threshold dtr_stop low s = record s { state = none; time_in_state = 0 }
change_state threshold _ _ s = s

abbrev pub in_trace_ticks : State → ℕ → ℕ
in_trace_ticks in_trace n = n + 1
in_trace_ticks _ n = n

-- The body of the loop for one scan of the channels.
unfoldable pub take_scan : ℕ → Finder → Level → Finder
unfolding change_state
take_scan threshold s level =
    let s' = change_state threshold s.state level s in
    record s' { trace_ticks = in_trace_ticks s'.state s'.trace_ticks; ticks = s'.ticks + 1 }

unfoldable pub find_traces : ℕ → Finder → List Level → Finder
find_traces threshold s [] = s
find_traces threshold s (l ∷ ls) = find_traces threshold (take_scan threshold s l) ls

abbrev pub fresh : Finder
fresh = record {
  state = none;
  ticks = 0;
  trace_ticks = 0;
  trace = 0;
  time_in_state = 0;
  total_ticks = 0;
  events = [];
}
