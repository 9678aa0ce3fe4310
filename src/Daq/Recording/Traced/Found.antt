-- ===== src/Daq/Recording/Traced/Found.antt =====
-- What mc1208fs-plus/dump_watts_ddr4.c and dump_watts_ddr3.c find in a recording of daqflex.c.
use uarch_configure.Common.{
  ℕ, suc, ◌+◌, ◌^◌, ◌<◌, ◌≡◌, refl, ap₂, ◌∙◌, arith, true, false, ltb, lt→ltb, ◌≤◌, Option, some,
  List, [], ◌∷◌, ◌++◌, append-nil, length-append, map, length, All,
}
use uarch_configure.Daq.Traces.{Level, Finder, find_traces, fresh}
use uarch_configure.Daq.Traces.Segments.{IsConsistent, find_traces_separate}
use uarch_configure.Daq.Recording.{
  word, Header, infinity, write_rows, write_recording, after_header,
}
use uarch_configure.Daq.Recording.RoundTrip.{
  IsPoint, IsRow, IsHeader, dump_loop-write, read_header-write_header, read_stop-write,
}
use uarch_configure.Daq.Recording.Traced.{
  level_of, marker_level, ddr3_marker_level, first_level, levels_of, trace_threshold, traced,
  trace_rows, trace_recording, dump_watts_ddr4, dump_watts_ddr3,
}

-- The channels of a scan before the last one, and its marker.
pub record Marked : Type 0 where
  pub channels : List ℕ
  pub marker : ℕ

abbrev pub points_of : Marked → List ℕ
points_of m = m.channels ++ (m.marker ∷ [])

pub record IsMarked (n : ℕ) (m : Marked) : Type 0 where
  pub others : length m.channels + 1 ≡ n
  pub points : All IsPoint (points_of m)

-- `marker` finds the last of `n` points.
abbrev ReadsLast : ℕ → (List ℕ → Option Level) → Type 0
ReadsLast n marker =
    (cs : List ℕ) (v : ℕ) → length cs + 1 ≡ n → marker (cs ++ (v ∷ [])) ≡ some (level_of v)

marker_level-ReadsLast : ReadsLast 8 marker_level
unfolding marker_level
marker_level-ReadsLast (a ∷ b ∷ c ∷ d ∷ e ∷ f ∷ g ∷ []) v l = refl
marker_level-ReadsLast [] v l = absurd (omega (arith, l))
marker_level-ReadsLast (a ∷ []) v l = absurd (omega (arith, l))
marker_level-ReadsLast (a ∷ b ∷ []) v l = absurd (omega (arith, l))
marker_level-ReadsLast (a ∷ b ∷ c ∷ []) v l = absurd (omega (arith, l))
marker_level-ReadsLast (a ∷ b ∷ c ∷ d ∷ []) v l = absurd (omega (arith, l))
marker_level-ReadsLast (a ∷ b ∷ c ∷ d ∷ e ∷ []) v l = absurd (omega (arith, l))
marker_level-ReadsLast (a ∷ b ∷ c ∷ d ∷ e ∷ f ∷ []) v l = absurd (omega (arith, l))
marker_level-ReadsLast (a ∷ b ∷ c ∷ d ∷ e ∷ f ∷ g ∷ h ∷ r) v l = absurd (omega (arith, l))

ddr3_marker_level-ReadsLast : ReadsLast 4 ddr3_marker_level
unfolding ddr3_marker_level
ddr3_marker_level-ReadsLast (a ∷ b ∷ c ∷ []) v l = refl
ddr3_marker_level-ReadsLast [] v l = absurd (omega (arith, l))
ddr3_marker_level-ReadsLast (a ∷ []) v l = absurd (omega (arith, l))
ddr3_marker_level-ReadsLast (a ∷ b ∷ []) v l = absurd (omega (arith, l))
ddr3_marker_level-ReadsLast (a ∷ b ∷ c ∷ d ∷ r) v l = absurd (omega (arith, l))

abbrev pub markers : List Marked → List Level
markers ms = map (λ m. level_of m.marker) ms

-- The scans of a recording of `n` channels.
module _ (n : ℕ) (marker : List ℕ → Option Level) (last : ReadsLast n marker) where
  levels_of-points :
      (ms : List Marked)
      → All (IsMarked n) ms
      → levels_of marker (map points_of ms) ≡ some (markers ms)
  unfolding levels_of
  levels_of-points [] h = refl
  levels_of-points (m ∷ ms) h =
      ap₂ first_level (last m.channels m.marker h.0.others) (levels_of-points ms h.1)

  points_of-IsRow : (ms : List Marked) → All (IsMarked n) ms → All (IsRow n) (map points_of ms)
  points_of-IsRow [] h = tt
  points_of-IsRow (m ∷ ms) h =
      ((length-append m.channels (m.marker ∷ []) ∙ h.0.others, h.0.points), points_of-IsRow ms h.1)

  trace_recording-write :
      (size : ℕ) (h : Header) (ms : List Marked) (sec usec : ℕ)
      → IsHeader h
      → h.num_channels ≡ n
      → 0 < n
      → n ≤ size
      → All (IsMarked n) ms
      → sec < 2 ^ 64
      → usec < 2 ^ 64
      → trace_recording size marker
          (suc (length (map points_of ms)))
          (write_recording h (map points_of ms) (sec, usec))
        ≡ traced h
            (find_traces (trace_threshold h.rate) fresh (markers ms))
            (record { stop_sec = some sec; stop_usec = some usec })
  unfolding trace_recording write_recording after_header trace_rows
  trace_recording-write size h ms sec usec w e pos le p a b =
      let stop = word 8 sec ++ word 8 usec in
      let body = write_rows (map points_of ms) ++ (word 4 infinity ++ stop) in
      let few : ltb n (2 ^ 31) ≡ true = lt→ltb n (2 ^ 31) (omega (arith, e, w.channels_le)) in
      rw
        (
          read_header-write_header h body w,
          e,
          few,
          dump_loop-write false size n (map points_of ms) stop pos le (points_of-IsRow ms p),
          append-nil (map points_of ms),
          levels_of-points ms p,
          read_stop-write sec usec a b,
        )
        refl

-- What is found in the scans at a rate.
abbrev pub Found : ℕ → List Marked → Finder → Type 0
Found rate ms f =
    (f ≡ find_traces (trace_threshold rate) fresh (markers ms)) × IsConsistent f.state f

found :
    (rate : ℕ) (ms : List Marked)
    → Found rate ms (find_traces (trace_threshold rate) fresh (markers ms))
found rate ms = (refl, find_traces_separate (trace_threshold rate) (markers ms))

-- Of a recording of eight channels of finite numbers, the header, the traces of the marker and the time
-- of the end are reported; the traces are numbered from 0, each starts after the one before it ended, and
-- their elapsed ticks are those between start and end.
pub dump_watts_ddr4-write_recording :
    (h : Header) (ms : List Marked) (sec usec : ℕ)
    → IsHeader h
    → h.num_channels ≡ 8
    → All (IsMarked 8) ms
    → sec < 2 ^ 64
    → usec < 2 ^ 64
    → (f : Finder) × (dump_watts_ddr4
          (suc (length (map points_of ms)))
          (write_recording h (map points_of ms) (sec, usec))
        ≡ traced h f (record { stop_sec = some sec; stop_usec = some usec }))
      × Found h.rate ms f
unfolding dump_watts_ddr4
dump_watts_ddr4-write_recording h ms sec usec w e p a b = (
  _,
  trace_recording-write 8 marker_level marker_level-ReadsLast 8 h ms sec usec w e (omega arith)
      (omega arith) p a b,
  found h.rate ms,
)

-- Of a recording of four channels of finite numbers, the header, the traces of the marker and the time
-- of the end are reported; the traces are numbered from 0, each starts after the one before it ended, and
-- their elapsed ticks are those between start and end.
pub dump_watts_ddr3-write_recording :
    (h : Header) (ms : List Marked) (sec usec : ℕ)
    → IsHeader h
    → h.num_channels ≡ 4
    → All (IsMarked 4) ms
    → sec < 2 ^ 64
    → usec < 2 ^ 64
    → (f : Finder) × (dump_watts_ddr3
          (suc (length (map points_of ms)))
          (write_recording h (map points_of ms) (sec, usec))
        ≡ traced h f (record { stop_sec = some sec; stop_usec = some usec }))
      × Found h.rate ms f
unfolding dump_watts_ddr3
dump_watts_ddr3-write_recording h ms sec usec w e p a b = (
  _,
  trace_recording-write 4 ddr3_marker_level ddr3_marker_level-ReadsLast 4 h ms sec usec w e
      (omega arith) (omega arith) p a b,
  found h.rate ms,
)
