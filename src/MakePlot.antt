-- ===== src/MakePlot.antt =====
-- wattsup/utils/make_plot.c: makes the points of a plot from a log with times of day.
pub mod Times
pub mod Points
mod Examples
use uarch_configure.Common.{
  ℕ, ◌+◌, ◌-◌, ◌*◌, ◌%◌, ◌^◌, ◌==◌, ltb, if◌then◌else◌, Bool, true, false, List, [], ◌∷◌, ◌++◌,
}
use uarch_configure.Common.Text.{Text}

-- `(*pointer)-'0'` as the pattern of an `int`; a `char` of 128 or more is negative.
abbrev pub digit : ℕ → ℕ
digit c = if ltb c 128 then (2 ^ 32 + c - 48) % 2 ^ 32 else (2 ^ 32 + c - 256 - 48) % 2 ^ 32

-- Two digits: `n+=...; n*=10; n+=...`
abbrev pub two_digits : ℕ → ℕ → ℕ
two_digits c d = (digit c * 10 + digit d) % 2 ^ 32

-- The result; `fault` where a byte behind the end of the text is read.
pub data Seconds : Type 0 where
  wrong fault : Seconds
  seconds : ℕ → Seconds

-- `(hours*60*60)+(minutes*60)+seconds`
unfoldable pub total_seconds : ℕ → ℕ → ℕ → ℕ
total_seconds h m s = (h * 60 * 60 + m * 60 + s) % 2 ^ 32

-- A character that must stand there, and the rest; the text has a 0 at its end, and nothing is known
-- of what stands behind.
abbrev pub expect : ℕ → Text → (Text → Seconds) → Seconds
expect c [] next = wrong
expect c (d ∷ s) next = if d == c then next s else wrong

-- Two characters that are taken as digits; behind the last one stands the 0, which the first may be.
-- Where the second is the 0, the next character is behind the text.
abbrev pub take_two : Text → (ℕ → Text → Seconds) → Seconds
take_two [] next = fault
take_two (c ∷ []) next = fault
take_two (c ∷ d ∷ s) next = next (two_digits c d) s

unfoldable pub convert_time_to_seconds : Text → Seconds
unfolding total_seconds
convert_time_to_seconds string = expect b'[' string λ s0. take_two s0 λ hours s1.
    expect b':' s1 λ s2. take_two s2 λ minutes s3.
      expect b':' s3 λ s4.
        take_two s4 λ secs s5. expect b']' s5 λ rest. seconds (total_seconds hours minutes secs)

-- The variables of `main`: `int`s as patterns, the first column of the points, and the seconds that each
-- power is multiplied by.
pub record Log : Type 0 where
  pub start_seconds : ℕ
  pub last_seconds : ℕ
  pub seconds : ℕ
  pub points : List ℕ
  pub intervals : List ℕ

abbrev pub minus32 : ℕ → ℕ → ℕ
minus32 a b = (2 ^ 32 + a - b) % 2 ^ 32

-- The body of the loop for a line with the time `now`; 0 stands for no time yet.
unfoldable pub log_line : Log → ℕ → Log
log_line l now =
    let start = if l.start_seconds == 0 then now else l.start_seconds in
    record {
      start_seconds = start;
      last_seconds = now;
      seconds = now;
      points = l.points ++ (minus32 now start ∷ []);
      intervals =
          if l.last_seconds == 0
          then l.intervals
          else l.intervals ++ (minus32 now l.last_seconds ∷ []);
    }

unfoldable pub log_lines : Log → List ℕ → Log
log_lines l [] = l
log_lines l (t ∷ ts) = log_lines (log_line l t) ts

abbrev pub empty_log : Log
empty_log = record { start_seconds = 0; last_seconds = 0; seconds = 0; points = []; intervals = [] }

-- `total_seconds=seconds-start_seconds` behind the loop
abbrev pub total_time : Log → ℕ
total_time l = minus32 l.seconds l.start_seconds
