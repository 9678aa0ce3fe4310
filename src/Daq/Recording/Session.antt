-- ===== src/Daq/Recording/Session.antt =====
-- A session of mc1208fs-plus/daqflex.c with -b: the halves of the buffer that are displayed are recorded,
-- and dump_binary.c reads the samples back.
use uarch_configure.Common.{
  ℕ, suc, ◌+◌, ◌^◌, ◌<◌, ◌≤◌, ◌≡◌, refl, ap, ap₂, subst, Option, none, some, List, [], ◌∷◌, ◌++◌,
  map, length, All,
}
use uarch_configure.Common.Digits.{All-append}
use uarch_configure.Daq.Display.{Displayed, rows, out_of_bounds, unfinished, display_and_write_data}
use uarch_configure.Daq.Display.Scans.{flatten, labelled, labelled_all, display_scans}
use uarch_configure.Daq.Recording.{Header, write_recording, dump_binary, dumped}
use uarch_configure.Daq.Recording.RoundTrip.{IsPoint, IsRow, IsHeader, dump_binary-write_recording}

-- `scale` is scaleAndCalibrateData: the pattern for a channel and a sample.
unfoldable pub scaled_row : (ℕ → ℕ → ℕ) → List (ℕ × ℕ) → List ℕ
scaled_row scale [] = []
scaled_row scale ((channel, sample) ∷ row) = scale channel sample ∷ scaled_row scale row

abbrev pub scaled : (ℕ → ℕ → ℕ) → List (List (ℕ × ℕ)) → List (List ℕ)
scaled scale rs = map (scaled_row scale) rs

unfoldable pub add_half : (ℕ → ℕ → ℕ) → Displayed → Option (List (List ℕ)) → Option (List (List ℕ))
add_half scale (rows rs) (some more) = some (scaled scale rs ++ more)
add_half scale (rows rs) none = none
add_half scale out_of_bounds more = none
add_half scale unfinished more = none

-- The lines of the halves that the main loop displays, each as the samples from its start to the end of
-- the array and how many of them are asked for; `none` where one does not end or leaves the array.
unfoldable pub record_halves : (ℕ → ℕ → ℕ) → ℕ → List (List ℕ × ℕ) → Option (List (List ℕ))
record_halves scale n [] = some []
record_halves scale n ((samples, transferred) ∷ halves) =
    add_half scale (display_and_write_data samples transferred n) (record_halves scale n halves)

-- A half as whole scans and what stands behind them.
pub record Part : Type 0 where
  pub scans : List (List ℕ)
  pub rest : List ℕ
  pub transferred : ℕ

pub record IsPart (n : ℕ) (h : Part) : Type 0 where
  pub whole : All (λ s. length s ≡ n) h.scans
  pub some_scan : 0 < length h.scans
  pub covered : h.transferred ≤ length (flatten h.scans)
  pub close : length (flatten h.scans) < h.transferred + n

abbrev pub samples_of : Part → List ℕ × ℕ
samples_of h = (flatten h.scans ++ h.rest, h.transferred)

-- The lines that are expected: each sample of each scan, scaled for its channel.
abbrev pub lines_of : (ℕ → ℕ → ℕ) → List Part → List (List ℕ)
lines_of scale [] = []
lines_of scale (h ∷ hs) = scaled scale (labelled_all h.scans) ++ lines_of scale hs

record_halves-lines :
    (scale : ℕ → ℕ → ℕ) (n : ℕ) (hs : List Part)
    → 0 < n
    → All (IsPart n) hs
    → record_halves scale n (map samples_of hs) ≡ some (lines_of scale hs)
unfolding record_halves add_half
record_halves-lines scale n [] pos h = refl
record_halves-lines scale n (x ∷ hs) pos h =
    ap₂ (add_half scale)
      (display_scans x.scans x.rest x.transferred n h.0.whole pos h.0.some_scan h.0.covered
        h.0.close)
      (record_halves-lines scale n hs pos h.1)

scaled_row-IsRow :
    (scale : ℕ → ℕ → ℕ)
    → ((c v : ℕ) → IsPoint (scale c v))
    → (c : ℕ) (s : List ℕ) → IsRow (length s) (scaled_row scale (labelled c s))
unfolding scaled_row
scaled_row-IsRow scale point c [] = (refl, tt)
scaled_row-IsRow scale point c (v ∷ s) =
    let (len, points) = scaled_row-IsRow scale point (c + 1) s in (ap suc len, (point c v, points))

scaled-IsRow :
    (scale : ℕ → ℕ → ℕ)
    → ((c v : ℕ) → IsPoint (scale c v))
    → (n : ℕ) (scans : List (List ℕ)) → All (λ s. length s ≡ n) scans
    → All (IsRow n) (scaled scale (labelled_all scans))
scaled-IsRow scale point n [] h = tt
scaled-IsRow scale point n (s ∷ scans) h = (
  subst (λ k. IsRow k (scaled_row scale (labelled 0 s))) h.0 (scaled_row-IsRow scale point 0 s),
  scaled-IsRow scale point n scans h.1,
)

lines_of-IsRow :
    (scale : ℕ → ℕ → ℕ)
    → ((c v : ℕ) → IsPoint (scale c v))
    → (n : ℕ) (hs : List Part) → All (IsPart n) hs
    → All (IsRow n) (lines_of scale hs)
lines_of-IsRow scale point n [] h = tt
lines_of-IsRow scale point n (x ∷ hs) h =
    All-append (IsRow n) (scaled scale (labelled_all x.scans)) (lines_of scale hs)
      (scaled-IsRow scale point n x.scans h.0.whole) (lines_of-IsRow scale point n hs h.1)

-- Where the halves that are displayed are whole scans, as `display_scans` needs them, and the scaling
-- gives finite numbers, a session records every sample of every scan, in order and scaled for its channel,
-- and dump_binary.c shows exactly these behind the header, then an empty line and the time of the end.
pub dump_binary-record_halves :
    (scale : ℕ → ℕ → ℕ) (header : Header) (hs : List Part) (sec usec : ℕ)
    → ((c v : ℕ) → IsPoint (scale c v))
    → IsHeader header
    → All (IsPart header.num_channels) hs
    → sec < 2 ^ 64
    → usec < 2 ^ 64
    → (record_halves scale header.num_channels (map samples_of hs) ≡ some (lines_of scale hs))
      × (dump_binary
            (suc (length (lines_of scale hs)))
            (write_recording header (lines_of scale hs) (sec, usec))
          ≡ dumped header
              (lines_of scale hs ++ ([] ∷ []))
              (record { stop_sec = some sec; stop_usec = some usec }))
dump_binary-record_halves scale header hs sec usec point w h a b = (
  record_halves-lines scale header.num_channels hs w.channels_pos h,
  dump_binary-write_recording header (lines_of scale hs) sec usec w
      (lines_of-IsRow scale point header.num_channels hs h) a b,
)
