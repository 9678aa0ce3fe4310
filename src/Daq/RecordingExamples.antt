-- ===== src/Daq/RecordingExamples.antt =====
-- The theorems on the recordings of mc1208fs-plus at concrete inputs.
use uarch_configure.Common.{
  ℕ, suc, ◌+◌, ◌%◌, ◌<◌, ◌≤◌, ◌≡◌, ◌≢◌, refl, arith, true, some, List, [], ◌∷◌, ◌++◌, map, length,
  replicate,
}
use uarch_configure.Daq.Glitch.{Scan, negative, positive, minus_five}
use uarch_configure.Daq.Glitch.Smooth.{smooth}
use uarch_configure.Daq.Traces.{Finder}
use uarch_configure.Daq.Recording.{
  Header, unfinished, write_recording, dump_loop, dump_binary, dumped,
}
use uarch_configure.Daq.Recording.RoundTrip.{IsPoint, IsHeader}
use uarch_configure.Daq.Recording.Ends.{dump_loop_ends}
use uarch_configure.Daq.Recording.Session.{
  Part, samples_of, lines_of, record_halves, dump_binary-record_halves,
}
use uarch_configure.Daq.Recording.Debounced.{row_of, written, debounce_serial}
use uarch_configure.Daq.Recording.Debounced.Filtered.{IsScan, debounce_serial-write_recording}
use uarch_configure.Daq.Recording.Traced.{traced, dump_watts_ddr4}
use uarch_configure.Daq.Recording.Traced.Found.{
  Marked, IsMarked, Found, points_of, dump_watts_ddr4-write_recording,
}

-- A whole scan of two channels, and half of the next one.
dump_loop_ends_example : dump_loop true 13 8 2 (replicate 12 1) ≢ unfinished
dump_loop_ends_example = dump_loop_ends true 13 8 2 (replicate 12 1) (omega arith) (omega arith)

abbrev header : ℕ → Header
header n = record {
  version = 0;
  start_sec = 1700000000;
  start_usec = 5;
  rate = 1000;
  num_channels = n;
}

header-IsHeader : (n : ℕ) → 0 < n → n ≤ 8 → IsHeader (header n)
header-IsHeader n pos le = record {
  version_lt = omega arith;
  start_sec_lt = omega arith;
  start_usec_lt = omega arith;
  rate_lt = omega arith;
  channels_pos = pos;
  channels_le = le;
}

abbrev scale : ℕ → ℕ → ℕ
scale c v = (v + c) % 4096

-- Two scans of two channels in the first half, one in the second.
abbrev halves : List Part
halves =
    record { scans = (1 ∷ 2 ∷ []) ∷ (3 ∷ 4 ∷ []) ∷ []; rest = 9 ∷ []; transferred = 4 }
    ∷ record { scans = (5 ∷ 6 ∷ []) ∷ []; rest = []; transferred = 2 }
    ∷ []

dump_binary-record_halves_example :
    (record_halves scale 2 (map samples_of halves) ≡ some (lines_of scale halves))
    × (dump_binary
          (suc (length (lines_of scale halves)))
          (write_recording (header 2) (lines_of scale halves) (1700000009, 7))
        ≡ dumped
            (header 2)
            (lines_of scale halves ++ ([] ∷ []))
            (record { stop_sec = some 1700000009; stop_usec = some 7 }))
dump_binary-record_halves_example =
    dump_binary-record_halves scale (header 2) halves 1700000009 7
      (λ c v. (omega arith, ground arith)) (header-IsHeader 2 (omega arith) (omega arith))
      (
        record {
          whole = (refl, (refl, tt));
          some_scan = omega arith;
          covered = omega arith;
          close = omega arith;
        },
        (
          record {
            whole = (refl, tt);
            some_scan = omega arith;
            covered = omega arith;
            close = omega arith;
          },
          tt,
        ),
      )
      (omega arith) (omega arith)

abbrev high_scan : Scan
high_scan = record { channels = 1 ∷ 2 ∷ 3 ∷ []; marker = positive 0x40a00000 }

abbrev low_scan : Scan
low_scan = record { channels = 4 ∷ 5 ∷ 6 ∷ []; marker = negative 0x40a00000 }

high-IsScan : IsScan high_scan
high-IsScan = record {
  three = (refl, ((omega arith, refl), ((omega arith, refl), ((omega arith, refl), tt))));
  number = (omega arith, omega arith);
}

low-IsScan : IsScan low_scan
low-IsScan = record {
  three = (refl, ((omega arith, refl), ((omega arith, refl), ((omega arith, refl), tt))));
  number = (omega arith, omega arith);
}

-- A high sample between two low ones is turned.
debounce_serial-write_recording_example :
    (debounce_serial 4 (
        write_recording
          (header 4)
          (map row_of (low_scan ∷ high_scan ∷ low_scan ∷ []))
          (1700000009, 7))
      ≡ written (
          write_recording
            (header 4)
            (map row_of (smooth minus_five (low_scan ∷ high_scan ∷ low_scan ∷ [])))
            (1700000009, 7)))
    × (dump_binary
          (suc (length (map row_of (smooth minus_five (low_scan ∷ high_scan ∷ low_scan ∷ [])))))
          (write_recording
            (header 4)
            (map row_of (smooth minus_five (low_scan ∷ high_scan ∷ low_scan ∷ [])))
            (1700000009, 7))
        ≡ dumped
            (header 4)
            (map row_of (smooth minus_five (low_scan ∷ high_scan ∷ low_scan ∷ [])) ++ ([] ∷ []))
            (record { stop_sec = some 1700000009; stop_usec = some 7 }))
debounce_serial-write_recording_example =
    debounce_serial-write_recording (header 4) low_scan (high_scan ∷ low_scan ∷ []) 1700000009 7
      (header-IsHeader 4 (omega arith) (omega arith)) refl
      (low-IsScan, (high-IsScan, (low-IsScan, tt))) (omega arith) (omega arith)

-- 5.0 and -5.0 on the marker channel.
abbrev high_marker : Marked
high_marker = record { channels = replicate 7 1; marker = 0x40a00000 }

abbrev low_marker : Marked
low_marker = record { channels = replicate 7 1; marker = 0xc0a00000 }

sevens-IsMarked : (m : ℕ) → IsPoint m → IsMarked 8 (record { channels = replicate 7 1; marker = m })
sevens-IsMarked m h =
    let one : IsPoint 1 = (omega arith, refl) in
    record { others = refl; points = (one, (one, (one, (one, (one, (one, (one, (h, tt)))))))) }

abbrev marked_scans : List Marked
marked_scans = high_marker ∷ high_marker ∷ low_marker ∷ low_marker ∷ high_marker ∷ []

dump_watts_ddr4-write_recording_example :
    (f : Finder) × (dump_watts_ddr4 6
        (write_recording (header 8) (map points_of marked_scans) (1700000009, 7))
      ≡ traced (header 8) f (record { stop_sec = some 1700000009; stop_usec = some 7 }))
    × Found 1000 marked_scans f
dump_watts_ddr4-write_recording_example =
    dump_watts_ddr4-write_recording (header 8) marked_scans 1700000009 7
      (header-IsHeader 8 (omega arith) (omega arith)) refl
      (
        sevens-IsMarked 0x40a00000 (omega arith, refl),
        (
          sevens-IsMarked 0x40a00000 (omega arith, refl),
          (
            sevens-IsMarked 0xc0a00000 (omega arith, refl),
            (
              sevens-IsMarked 0xc0a00000 (omega arith, refl),
              (sevens-IsMarked 0x40a00000 (omega arith, refl), tt),
            ),
          ),
        ),
      )
      (omega arith) (omega arith)
