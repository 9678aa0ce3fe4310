-- ===== src/Daq/Glitch.antt =====
-- The filter of mc1208fs-plus/debounce_serial.c: a sample of the marker channel whose sign differs
-- from both its neighbours' is written with its sign turned. The header of the recording is copied.
pub mod Smooth
use uarch_configure.Common.{
  ℕ, ◌&&◌, ◌||◌, if◌then◌else◌, Bool, true, false, Option, none, some, List, [], ◌∷◌, ◌++◌,
}

-- A sample of the marker as the comparisons with 0.0 see it, with the bits below its sign, which the
-- program only copies; `null` is a zero or no number, with all its bits.
pub data Marker : Type 0 where
  negative : ℕ → Marker
  null : ℕ → Marker
  positive : ℕ → Marker

-- One `points` array: the first three channels, and the marker.
pub record Scan : Type 0 where
  pub channels : List ℕ
  pub marker : Marker

abbrev pub is_negative : Marker → Bool
is_negative (negative n) = true
is_negative _ = false

abbrev pub is_positive : Marker → Bool
is_positive (positive n) = true
is_positive _ = false

unfoldable pub turned : Marker → Marker
turned (negative n) = positive n
turned (null v) = null v
turned (positive n) = negative n

-- `prev[3]=-prev[3]`
unfoldable pub turn : Scan → Scan
unfolding turned
turn s = record s { marker = turned s.marker }

-- The conditions of `Glitch1` and `Glitch2`.
unfoldable pub is_glitch : Marker → Marker → Marker → Bool
is_glitch a b c =
    (is_negative a && is_positive b && is_negative c)
    || (is_positive a && is_negative b && is_positive c)

-- `last`, `prev` (`none` while `ticks` is 0) and what was written.
pub record Filter : Type 0 where
  pub last_0 : Marker
  pub last_1 : Marker
  pub prev : Option Scan
  pub written : List Scan

-- `if (ticks!=0) write(1,prev,...)`
unfoldable pub write_prev : Bool → Option Scan → List Scan → List Scan
write_prev glitch none written = written
write_prev glitch (some p) written = written ++ ((if glitch then turn p else p) ∷ [])

-- The body of the loop for the scan `points`.
unfoldable pub filter_scan : Filter → Scan → Filter
filter_scan f points = record {
  last_0 = f.last_1;
  last_1 = points.marker;
  prev = some points;
  written = write_prev (is_glitch f.last_0 f.last_1 points.marker) f.prev f.written;
}

unfoldable pub filter_all : Filter → List Scan → Filter
filter_all f [] = f
filter_all f (s ∷ ss) = filter_all (filter_scan f s) ss

-- The write behind the loop; `none` where `prev` was never set.
unfoldable pub write_last : Filter → Option (List Scan)
write_last f = elim f.prev [ none ↦ none | some p ↦ some (f.written ++ (p ∷ [])) ]

-- `-5.0`
abbrev pub minus_five : Marker
minus_five = negative 0x40a00000

-- `float last[2]={-5.0, -5.0}`
abbrev pub first_filter : Filter
first_filter = record { last_0 = minus_five; last_1 = minus_five; prev = none; written = [] }

unfoldable pub debounce : List Scan → Option (List Scan)
debounce ss = write_last (filter_all first_filter ss)
