-- ===== src/Daq/Traces/Debounce.antt =====
-- When a trace ends: how mc1208fs-plus/dump_watts_ddr4.c counts the high samples of the marker.
use uarch_configure.Common.{
  ℕ, suc, ◌+◌, ◌≤◌, ◌<◌, ◌≡◌, refl, ◌∙◌, ap, arith, le→ltb, lt→ltb, List, [], ◌∷◌, ◌++◌, length,
}
use uarch_configure.Daq.Traces.{
  Level, high, mid, low, dtr_stop, in_trace, ending, Finder, count_high, end_trace, change_state,
  take_scan, find_traces,
}

abbrev pub highs : List Level → ℕ
highs [] = 0
highs (high ∷ ls) = suc (highs ls)
highs (_ ∷ ls) = highs ls

-- A trace that goes on, `n` scans and `h` high ones later.
abbrev pub going_on : Finder → ℕ → ℕ → Finder
going_on s n h = record s {
  state = in_trace;
  ticks = s.ticks + n;
  trace_ticks = s.trace_ticks + n;
  time_in_state = s.time_in_state + h;
}

scan_high :
    (thr : ℕ) (s : Finder)
    → s.time_in_state < thr
    → take_scan thr (record s { state = in_trace }) high ≡ going_on s 1 1
unfolding take_scan change_state count_high
scan_high thr s h = rw (le→ltb thr (s.time_in_state + 1) (omega arith)) refl

scan_end :
    (thr : ℕ) (s : Finder)
    → s.time_in_state ≡ thr
    → take_scan thr (record s { state = in_trace }) high ≡ record s {
      state = dtr_stop;
      ticks = s.ticks + 1;
      events = ending s.trace s.ticks s.trace_ticks ∷ s.events;
      total_ticks = s.total_ticks + s.trace_ticks;
      trace = s.trace + 1;
      time_in_state = 0;
    }
unfolding take_scan change_state count_high end_trace
scan_end thr s h = rw (lt→ltb thr (s.time_in_state + 1) (omega arith)) refl

scan_mid :
    (thr : ℕ) (s : Finder) → take_scan thr (record s { state = in_trace }) mid ≡ going_on s 1 0
unfolding take_scan change_state
scan_mid thr s = ground arith

scan_low :
    (thr : ℕ) (s : Finder) → take_scan thr (record s { state = in_trace }) low ≡ going_on s 1 0
unfolding take_scan change_state
scan_low thr s = ground arith

find_going_on :
    (thr : ℕ) (ls : List Level) (s : Finder)
    → s.time_in_state + highs ls ≤ thr
    → find_traces thr (record s { state = in_trace }) ls ≡ going_on s (length ls) (highs ls)
unfolding find_traces
find_going_on thr [] s h = ground arith
find_going_on thr (high ∷ ls) s h =
    ap (λ t. find_traces thr t ls) (scan_high thr s (omega arith))
    ∙ find_going_on thr ls (going_on s 1 1) (omega arith)
    ∙ ground arith
find_going_on thr (mid ∷ ls) s h =
    ap (λ t. find_traces thr t ls) (scan_mid thr s)
    ∙ find_going_on thr ls (going_on s 1 0) (omega arith)
    ∙ ground arith
find_going_on thr (low ∷ ls) s h =
    ap (λ t. find_traces thr t ls) (scan_low thr s)
    ∙ find_going_on thr ls (going_on s 1 0) (omega arith)
    ∙ ground arith

find_traces-append :
    (thr : ℕ) (ls ks : List Level) (s : Finder)
    → find_traces thr s (ls ++ ks) ≡ find_traces thr (find_traces thr s ls) ks
unfolding find_traces
find_traces-append thr [] ks s = refl
find_traces-append thr (l ∷ ls) ks s = find_traces-append thr ls ks (take_scan thr s l)

-- A trace ends at the high sample that follows `threshold` others since its start, however many
-- samples lie between these: they are not asked to stand together.
pub trace_ends :
    (thr : ℕ) (ls : List Level) (s : Finder)
    → s.state ≡ in_trace
    → s.time_in_state ≡ 0
    → highs ls ≡ thr
    → ((find_traces thr s ls).state ≡ in_trace)
      × ((find_traces thr s (ls ++ (high ∷ []))).state ≡ dtr_stop)
      × ((find_traces thr s (ls ++ (high ∷ []))).events
          ≡ ending s.trace (s.ticks + length ls) (s.trace_ticks + length ls) ∷ s.events)
trace_ends thr ls s e z h =
    (ap (λ t. t.state) before, ap (λ t. t.state) after, ap (λ t. t.events) after)
  where
    before : find_traces thr s ls ≡ going_on s (length ls) (highs ls)
    before =
        ap (λ st. find_traces thr (record s { state = st }) ls) e
        ∙ find_going_on thr ls s (omega arith)

    after : find_traces thr s (ls ++ (high ∷ [])) ≡ record s {
      state = dtr_stop;
      ticks = s.ticks + length ls + 1;
      trace_ticks = s.trace_ticks + length ls;
      events = ending s.trace (s.ticks + length ls) (s.trace_ticks + length ls) ∷ s.events;
      total_ticks = s.total_ticks + (s.trace_ticks + length ls);
      trace = s.trace + 1;
      time_in_state = 0;
    }
    after =
        find_traces-append thr ls (high ∷ []) s
        ∙ ap (λ t. find_traces thr t (high ∷ [])) before
        ∙ (unfold find_traces in scan_end thr (going_on s (length ls) (highs ls)) (omega arith))
