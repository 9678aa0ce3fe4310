-- ===== src/Daq/Glitch/Smooth.antt =====
-- What the filter of mc1208fs-plus/debounce_serial.c writes, scan by scan.
use uarch_configure.Common.{
  ◌≡◌, refl, ap, ◌∙◌, if◌then◌else◌, some, List, [], ◌∷◌, ◌++◌, append_assoc,
}
use uarch_configure.Daq.Glitch.{
  Marker, minus_five, Scan, turn, is_glitch, Filter, write_prev, filter_scan, filter_all,
  write_last, debounce,
}

-- A recording with each scan judged by its neighbours in the recording as it was, the first one by
-- `before`; the last one has no neighbour and stays.
abbrev pub smooth : Marker → List Scan → List Scan
smooth before [] = []
smooth before (s ∷ []) = s ∷ []
smooth before (s ∷ t ∷ ss) =
    (if is_glitch before s.marker t.marker then turn s else s) ∷ smooth s.marker (t ∷ ss)

-- The filter when the scan `s` has been read and not written.
abbrev holding : Marker → Scan → List Scan → Filter
holding before s written = record {
  last_0 = before;
  last_1 = s.marker;
  prev = some s;
  written = written;
}

filter_all-holding :
    (ss : List Scan) (before : Marker) (s : Scan) (written : List Scan)
    → write_last (filter_all (holding before s written) ss)
      ≡ some (written ++ smooth before (s ∷ ss))
unfolding write_last filter_all filter_scan write_prev
filter_all-holding [] before s written = refl
filter_all-holding (t ∷ ss) before s written =
    filter_all-holding ss s.marker t
      (written ++ ((if is_glitch before s.marker t.marker then turn s else s) ∷ []))
    ∙ ap some (
        append_assoc written ((if is_glitch before s.marker t.marker then turn s else s) ∷ [])
          (smooth s.marker (t ∷ ss)))

-- On a recording that is not empty, the filter writes each scan once, in order, and turns the marker
-- exactly where its sign differs from those of both neighbours; -5.0 stands before the first scan.
pub debounce-smooth :
    (s : Scan) (ss : List Scan) → debounce (s ∷ ss) ≡ some (smooth minus_five (s ∷ ss))
unfolding debounce filter_all filter_scan write_prev
debounce-smooth s ss = filter_all-holding ss minus_five s []
