-- ===== src/Daq/Recording/Debounced.antt =====
-- `main` of mc1208fs-plus/debounce_serial.c: a recording is read, and written to the standard output with
-- the marker channel filtered.
pub mod Filtered
use uarch_configure.Common.{
  ℕ, zero, suc, ◌+◌, ◌*◌, ◌-◌, ◌/◌, ◌%◌, ◌^◌, ◌<◌, ◌≤◌, ◌≡◌, refl, sym, ap, subst, ◌∙◌, arith, ◌==◌,
  ltb, ◌||◌, if◌then◌else◌, Bool, true, false, Option, none, some, List, [], ◌∷◌, ◌++◌, map, length,
  All,
}
use uarch_configure.Common.Text.{Text}
use uarch_configure.Daq.Glitch.{
  Marker, negative, null, positive, minus_five, Scan, turned, turn, is_glitch, debounce,
}
use uarch_configure.Daq.Glitch.Smooth.{smooth, debounce-smooth}
use uarch_configure.Daq.Recording.{
  word, read_word, behind, Header, infinity, write_header, write_row, write_rows, write_recording,
  read_header, Rows, unfinished, out_of_bounds, rows, dump_loop, rounds, after_header,
}
use uarch_configure.Daq.Recording.Bytes.{read_word-word}
use uarch_configure.Daq.Recording.RoundTrip.{
  IsPoint, IsRow, IsHeader, dump_loop-write, read_header-write_header,
}

-- The marker of a pattern of 32 bits.
unfoldable pub marker_of : ℕ → Marker
marker_of v =
    if v % 2 ^ 31 == 0 || ltb 0x7f800000 (v % 2 ^ 31)
    then null v
    else if ltb v (2 ^ 31)
    then positive v
    else negative (v % 2 ^ 31)

unfoldable pub pattern_of : Marker → ℕ
pattern_of (negative n) = n + 2 ^ 31
pattern_of (null v) = v
pattern_of (positive n) = n

-- `points`, where all four channels are read; `none` where the marker was never set.
unfoldable pub scan_of : List ℕ → Option Scan
scan_of (a ∷ b ∷ c ∷ d ∷ []) = some (record { channels = a ∷ b ∷ c ∷ []; marker = marker_of d })
scan_of _ = none

abbrev pub first_scan : Option Scan → Option (List Scan) → Option (List Scan)
first_scan (some s) (some ss) = some (s ∷ ss)
first_scan _ _ = none

unfoldable pub scans_of : List (List ℕ) → Option (List Scan)
scans_of [] = some []
scans_of (r ∷ rs) = first_scan (scan_of r) (scans_of rs)

-- What `write(1,prev,4*sizeof(float))` writes.
unfoldable pub row_of : Scan → List ℕ
row_of s = s.channels ++ (pattern_of s.marker ∷ [])

-- `read(fd,&temp64,n)` where fewer bytes than `n` may be left: the others keep what they were.
unfoldable pub read_over : ℕ → ℕ → Text → ℕ
read_over zero old s = 0
read_over (suc n) old [] = old
read_over (suc n) old (c ∷ s) = c + 256 * read_over n (old / 256) s

-- The time at the end is copied.
unfoldable pub copy_stop : ℕ → Text → Text
copy_stop old s =
    let sec = read_over 8 old s in word 8 sec ++ word 8 (read_over 8 sec (behind (read_word 8 s)))

-- `unset`: a channel of `points` or `prev` is used that was never set.
pub data Output : Type 0 where
  cut_short endless overrun unset : Output
  written : Text → Output

unfoldable pub write_scans : Header → Text → Option (List Scan) → Output
write_scans h s none = unset
write_scans h s (some ss) = written (
    write_header h ++ (write_rows (map row_of ss) ++ (word 4 infinity ++ copy_stop h.start_usec s)))

unfoldable pub filter_rows : Header → Rows → Output
filter_rows h unfinished = endless
filter_rows h out_of_bounds = overrun
filter_rows h (rows rs s) =
    write_scans h s (elim (scans_of rs) [ none ↦ none | some ss ↦ debounce ss ])

-- `points` has 4 elements.
unfoldable pub debounce_serial : ℕ → Text → Output
debounce_serial fuel s =
    after_header cut_short (read_header s)
      λ h rest. filter_rows h (dump_loop false fuel 4 (rounds h.num_channels) rest)
