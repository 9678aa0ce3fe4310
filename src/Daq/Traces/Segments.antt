-- ===== src/Daq/Traces/Segments.antt =====
-- The traces that mc1208fs-plus/dump_watts_ddr4.c finds are separate stretches of the recording.
use uarch_configure.Common.{ℕ, ◌+◌, ◌<◌, ◌≡◌, refl, arith, ltb, List, [], ◌∷◌, Bool-cases, inl, inr}
use uarch_configure.Daq.Traces.{
  Level, high, mid, low, State, none, dtr_start, dtr_stop, in_trace, Event, starting, ending,
  Finder, count_high, end_trace, start_trace, change_state, take_scan, find_traces, fresh,
}

-- Before tick `now`: `n` traces, counted from 0, each ended after it started, with the ticks
-- between as elapsed, and before the next one started; `total` is the sum of the elapsed ticks.
abbrev pub Closed : ℕ → ℕ → ℕ → List Event → Type 0
Closed n total now [] = (n ≡ 0) × (total ≡ 0)
Closed n total now (ending k e d ∷ starting k' s ∷ evs) =
    (n ≡ k + 1)
    × (k' ≡ k)
    × (e ≡ s + d)
    × (0 < d)
    × (e < now)
    × ((before : ℕ) × (total ≡ before + d) × Closed k before s evs)
Closed n total now evs = ⊥

-- The same with a last trace that goes on, for `d` ticks.
abbrev pub Open : ℕ → ℕ → ℕ → ℕ → List Event → Type 0
Open n total d now (starting k s ∷ evs) = (k ≡ n) × (now ≡ s + d) × (0 < d) × Closed n total s evs
Open n total d now evs = ⊥

-- What holds between two scans.
abbrev pub IsConsistent : State → Finder → Type 0
IsConsistent in_trace s = Open s.trace s.total_ticks s.trace_ticks s.ticks s.events
IsConsistent _ s = Closed s.trace s.total_ticks s.ticks s.events

Closed-later :
    (n total now : ℕ) (evs : List Event) → Closed n total now evs → Closed n total (now + 1) evs
Closed-later n total now [] h = h
Closed-later n total now (ending k e d ∷ starting k' s ∷ evs) (a, b, c, p, l, r) =
    (a, b, c, p, omega arith, r)
Closed-later n total now (starting k s ∷ evs) h = absurd h
Closed-later n total now (ending k e d ∷ []) h = absurd h
Closed-later n total now (ending k e d ∷ ending k' e' d' ∷ evs) h = absurd h

Open-later :
    (n total d now : ℕ) (evs : List Event)
    → Open n total d now evs
    → Open n total (d + 1) (now + 1) evs
Open-later n total d now (starting k s ∷ evs) (a, b, p, r) = (a, omega arith, omega arith, r)
Open-later n total d now (ending k e d' ∷ evs) h = absurd h
Open-later n total d now [] h = absurd h

Open-ends :
    (n total d now : ℕ) (evs : List Event)
    → Open n total d now evs
    → Closed (n + 1) (total + d) (now + 1) (ending n now d ∷ evs)
Open-ends n total d now (starting k s ∷ evs) (a, b, p, r) =
    (refl, a, b, p, omega arith, (total, refl, r))
Open-ends n total d now (ending k e d' ∷ evs) h = absurd h
Open-ends n total d now [] h = absurd h

-- A scan keeps this, in each state and at each level of the marker.
change-IsConsistent :
    (threshold : ℕ) (st : State) (l : Level) (s : Finder)
    → IsConsistent st s
    → IsConsistent
        (take_scan threshold (record s { state = st }) l).state
        (take_scan threshold (record s { state = st }) l)
unfolding take_scan change_state count_high
change-IsConsistent thr none high s h = elim (Bool-cases (ltb thr (s.time_in_state + 1))) [
  | inl past ↦ rw past (Closed-later _ _ _ s.events h)
  | inr not_yet ↦ rw not_yet (Closed-later _ _ _ s.events h)
]
change-IsConsistent thr none mid s h = Closed-later _ _ _ s.events h
change-IsConsistent thr none low s h = Closed-later _ _ _ s.events h
change-IsConsistent thr dtr_start high s h = Closed-later _ _ _ s.events h
change-IsConsistent thr dtr_start mid s h = Closed-later _ _ _ s.events h
change-IsConsistent thr dtr_start low s h =
    unfold start_trace in (refl, omega arith, omega arith, h)
change-IsConsistent thr dtr_stop high s h = Closed-later _ _ _ s.events h
change-IsConsistent thr dtr_stop mid s h = Closed-later _ _ _ s.events h
change-IsConsistent thr dtr_stop low s h = Closed-later _ _ _ s.events h
change-IsConsistent thr in_trace high s h = elim (Bool-cases (ltb thr (s.time_in_state + 1))) [
  | inl past ↦ rw past (unfold end_trace in Open-ends _ _ _ _ s.events h)
  | inr not_yet ↦ rw not_yet (Open-later _ _ _ _ s.events h)
]
change-IsConsistent thr in_trace mid s h = Open-later _ _ _ _ s.events h
change-IsConsistent thr in_trace low s h = Open-later _ _ _ _ s.events h

find_traces-IsConsistent :
    (threshold : ℕ) (ls : List Level) (s : Finder)
    → IsConsistent s.state s
    → IsConsistent (find_traces threshold s ls).state (find_traces threshold s ls)
unfolding find_traces
find_traces-IsConsistent thr [] s h = h
find_traces-IsConsistent thr (l ∷ ls) s h =
    find_traces-IsConsistent thr ls (take_scan thr s l) (change-IsConsistent thr s.state l s h)

-- In every recording the traces that are printed are numbered from 0, each starts after the one
-- before it ended, and each has as elapsed ticks those between its start and its end; their sum is
-- the total. A trace that goes on at the end has the ticks since its start.
pub find_traces_separate :
    (threshold : ℕ) (ls : List Level)
    → IsConsistent (find_traces threshold fresh ls).state (find_traces threshold fresh ls)
find_traces_separate thr ls = find_traces-IsConsistent thr ls fresh (refl, refl)
