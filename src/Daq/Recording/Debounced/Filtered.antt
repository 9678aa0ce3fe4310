-- ===== src/Daq/Recording/Debounced/Filtered.antt =====
-- What mc1208fs-plus/debounce_serial.c writes for a recording of four channels, and what dump_binary.c
-- shows of it.
use uarch_configure.Common.{
  ℕ, zero, suc, ◌+◌, ◌*◌, ◌/◌, ◌%◌, ◌^◌, ◌<◌, ◌≡◌, ◌⊎◌, refl, sym, ap, ap₂, subst, ◌∙◌, arith,
  if◌then◌else◌, Bool, true, false, inl, inr, some, List, [], ◌∷◌, ◌++◌, append-nil, length-append,
  map, length, All,
}
use uarch_configure.Common.Digits.{All-append}
use uarch_configure.Common.Text.{Text}
use native.Mathlib.Nat.{pow-suc}
use uarch_configure.Daq.Glitch.{
  Marker, negative, null, positive, minus_five, Scan, turned, turn, is_glitch,
}
use uarch_configure.Daq.Glitch.Smooth.{smooth, debounce-smooth}
use uarch_configure.Daq.Recording.{
  word, Header, infinity, write_rows, write_recording, rows, dump_loop, after_header, dump_binary,
  dumped,
}
use uarch_configure.Daq.Recording.Bytes.{read_word-word}
use uarch_configure.Daq.Recording.RoundTrip.{
  IsPoint, IsRow, IsHeader, dump_loop-write, read_header-write_header, dump_binary-write_recording,
}
use uarch_configure.Daq.Recording.Debounced.{
  marker_of, pattern_of, scan_of, first_scan, scans_of, row_of, read_over, copy_stop, written,
  write_scans, filter_rows, debounce_serial,
}

-- A number other than 0 below the sign.
abbrev IsMagnitude : ℕ → Type 0
IsMagnitude n = (0 < n) × (n < 0x7f800000)

-- A marker that is a number.
abbrev pub IsMarker : Marker → Type 0
IsMarker (negative n) = IsMagnitude n
IsMarker (null v) = (v ≡ 0) ⊎ (v ≡ 2 ^ 31)
IsMarker (positive n) = IsMagnitude n

pub record IsScan (s : Scan) : Type 0 where
  pub three : IsRow 3 s.channels
  pub number : IsMarker s.marker

marker_of-pattern_of : (m : Marker) → IsMarker m → marker_of (pattern_of m) ≡ m
unfolding marker_of pattern_of
marker_of-pattern_of (negative n) h =
    let below : (n + 2 ^ 31) % 2 ^ 31 ≡ n = omega (arith, h.1) in
    rw below (ground (arith, h.0, h.1))
marker_of-pattern_of (null v) (inl e) = rw e refl
marker_of-pattern_of (null v) (inr e) = rw e refl
marker_of-pattern_of (positive n) h =
    let below : n % 2 ^ 31 ≡ n = omega (arith, h.1) in rw below (ground (arith, h.0, h.1))

pattern_of-IsPoint : (m : Marker) → IsMarker m → IsPoint (pattern_of m)
unfolding pattern_of
pattern_of-IsPoint (negative n) h = (omega (arith, h.0, h.1), ground arith)
pattern_of-IsPoint (null v) (inl e) = (omega (arith, e), ground arith)
pattern_of-IsPoint (null v) (inr e) = (omega (arith, e), ground arith)
pattern_of-IsPoint (positive n) h = (omega (arith, h.0, h.1), ground arith)

turned-IsMarker : (m : Marker) → IsMarker m → IsMarker (turned m)
unfolding turned
turned-IsMarker (negative n) h = h
turned-IsMarker (null v) h = h
turned-IsMarker (positive n) h = h

scan_of-row_of :
    (channels : List ℕ) (m : Marker)
    → length channels ≡ 3
    → IsMarker m
    → scan_of (row_of (record { channels = channels; marker = m }))
      ≡ some (record { channels = channels; marker = m })
unfolding scan_of row_of
scan_of-row_of (a ∷ b ∷ c ∷ []) m l h =
    ap (λ k. some (record { channels = a ∷ b ∷ c ∷ []; marker = k })) (marker_of-pattern_of m h)
scan_of-row_of [] m l h = absurd (omega (arith, l))
scan_of-row_of (a ∷ []) m l h = absurd (omega (arith, l))
scan_of-row_of (a ∷ b ∷ []) m l h = absurd (omega (arith, l))
scan_of-row_of (a ∷ b ∷ c ∷ d ∷ r) m l h = absurd (omega (arith, l))

scans_of-row_of : (ss : List Scan) → All IsScan ss → scans_of (map row_of ss) ≡ some ss
unfolding scans_of
scans_of-row_of [] h = refl
scans_of-row_of (s ∷ ss) h =
    ap₂ first_scan (scan_of-row_of s.channels s.marker h.0.three.0 h.0.number)
      (scans_of-row_of ss h.1)

row_of-IsRow : (s : Scan) → IsScan s → IsRow 4 (row_of s)
unfolding row_of
row_of-IsRow s h = (
  length-append s.channels (pattern_of s.marker ∷ []) ∙ ap (λ k. k + 1) h.three.0,
  All-append IsPoint s.channels (pattern_of s.marker ∷ []) h.three.1
      (pattern_of-IsPoint s.marker h.number, tt),
)

rows_of-IsRow : (ss : List Scan) → All IsScan ss → All (IsRow 4) (map row_of ss)
rows_of-IsRow [] h = tt
rows_of-IsRow (s ∷ ss) h = (row_of-IsRow s h.0, rows_of-IsRow ss h.1)

turn-IsScan : (glitch : Bool) (s : Scan) → IsScan s → IsScan (if glitch then turn s else s)
unfolding turn
turn-IsScan true s h = record { three = h.three; number = turned-IsMarker s.marker h.number }
turn-IsScan false s h = h

smooth-IsScan : (m : Marker) (ss : List Scan) → All IsScan ss → All IsScan (smooth m ss)
smooth-IsScan m [] h = tt
smooth-IsScan m (s ∷ []) h = h
smooth-IsScan m (s ∷ t ∷ ss) h =
    (turn-IsScan (is_glitch m s.marker t.marker) s h.0, smooth-IsScan s.marker (t ∷ ss) h.1)

read_over-word : (n old v : ℕ) (s : Text) → v < 256 ^ n → read_over n old (word n v ++ s) ≡ v
unfolding read_over word
read_over-word zero old v s h = omega (arith, h)
read_over-word (suc n) old v s h =
    ap (λ k. v % 256 + 256 * k)
      (read_over-word n (old / 256) (v / 256) s (omega (arith, pow-suc 256 n)))
    ∙ omega arith

copy_stop-write :
    (old sec usec : ℕ)
    → sec < 2 ^ 64
    → usec < 2 ^ 64
    → copy_stop old (word 8 sec ++ word 8 usec) ≡ word 8 sec ++ word 8 usec
unfolding copy_stop
copy_stop-write old sec usec h l =
    rw
      (
        read_over-word 8 old sec (word 8 usec) (omega arith),
        read_word-word 8 sec (word 8 usec) (omega arith),
        sym (append-nil (word 8 usec)),
        read_over-word 8 sec usec [] (omega arith),
      )
      (ap (λ t. word 8 sec ++ t) (sym (append-nil (word 8 usec))))

length-rows : (ss : List Scan) → length (map row_of ss) ≡ length ss
length-rows [] = refl
length-rows (s ∷ ss) = ap suc (length-rows ss)

rows_read :
    (s : Scan) (ss : List Scan) (t : Text)
    → All IsScan (s ∷ ss)
    → dump_loop false
        (suc (length (s ∷ ss)))
        4
        4
        (write_rows (map row_of (s ∷ ss)) ++ (word 4 infinity ++ t))
      ≡ rows (map row_of (s ∷ ss)) t
rows_read s ss t h =
    ap
      (λ n.
        dump_loop false (suc n) 4 4 (write_rows (map row_of (s ∷ ss)) ++ (word 4 infinity ++ t)))
      (sym (length-rows (s ∷ ss)))
    ∙ dump_loop-write false 4 4 (map row_of (s ∷ ss)) t (omega arith) (omega arith)
        (rows_of-IsRow (s ∷ ss) h)
    ∙ ap (λ rs. rows rs t) (append-nil (map row_of (s ∷ ss)))

-- A recording of four channels with a scan or more, all of numbers, comes out as a recording: the header
-- and the time of the end are the same, and the scans are those of `smooth`, each marker judged by its
-- neighbours in the recording as it was. dump_binary.c then shows exactly these scans.
pub debounce_serial-write_recording :
    (h : Header) (s : Scan) (ss : List Scan) (sec usec : ℕ)
    → IsHeader h
    → h.num_channels ≡ 4
    → All IsScan (s ∷ ss)
    → sec < 2 ^ 64
    → usec < 2 ^ 64
    → (debounce_serial (suc (length (s ∷ ss))) (write_recording h (map row_of (s ∷ ss)) (sec, usec))
        ≡ written (write_recording h (map row_of (smooth minus_five (s ∷ ss))) (sec, usec)))
      × (dump_binary
            (suc (length (map row_of (smooth minus_five (s ∷ ss)))))
            (write_recording h (map row_of (smooth minus_five (s ∷ ss))) (sec, usec))
          ≡ dumped h
              (map row_of (smooth minus_five (s ∷ ss)) ++ ([] ∷ []))
              (record { stop_sec = some sec; stop_usec = some usec }))
unfolding debounce_serial write_recording after_header filter_rows write_scans
debounce_serial-write_recording h s ss sec usec w four p a b =
    let stop = word 8 sec ++ word 8 usec in
    let body = write_rows (map row_of (s ∷ ss)) ++ (word 4 infinity ++ stop) in
    (
      rw
          (
            read_header-write_header h body w,
            four,
            rows_read s ss stop p,
            scans_of-row_of (s ∷ ss) p,
            debounce-smooth s ss,
            copy_stop-write h.start_usec sec usec a b,
          )
          refl,
      dump_binary-write_recording h (map row_of (smooth minus_five (s ∷ ss))) sec usec w
          (subst (λ n. All (IsRow n) (map row_of (smooth minus_five (s ∷ ss)))) (sym four)
            (rows_of-IsRow (smooth minus_five (s ∷ ss)) (smooth-IsScan minus_five (s ∷ ss) p)))
          a b,
    )
