-- ===== src/Daq/Display.antt =====
-- `displayAndWriteData` of mc1208fs-plus/daqflex.c: a line for each scan of the channels. What is
-- shown for a sample is kept as its channel and its raw value; the scaling is floating-point.
pub mod Scans
use uarch_configure.Common.{
  ℕ, zero, suc, ◌+◌, ltb, if◌then◌else◌, Bool, true, false, Option, none, some, List, [], ◌∷◌,
  get_elem?,
}

-- `unfinished`: the loop did not end within its fuel, as where there is no channel.
pub data Displayed : Type 0 where
  rows : List (List (ℕ × ℕ)) → Displayed
  out_of_bounds : Displayed
  unfinished : Displayed

-- The inner loop, `left` channels from `chan` on: the samples of a line from `current` on.
unfoldable pub show_channels : ℕ → ℕ → List ℕ → ℕ → Option (List (ℕ × ℕ))
show_channels zero chan samples current = some []
show_channels (suc left) chan samples current =
    let others = show_channels left (chan + 1) samples (current + 1) in
    elim (get_elem? samples current) [
      | none ↦ none
      | some sample ↦ elim others [ none ↦ none | some row ↦ some ((chan, sample) ∷ row) ]
    ]

abbrev pub add_row : List (ℕ × ℕ) → Displayed → Displayed
add_row row (rows rs) = rows (row ∷ rs)
add_row row out_of_bounds = out_of_bounds
add_row row unfinished = unfinished

-- The outer loop. `samples` is the array from `data` to its end.
unfoldable pub display_loop : ℕ → List ℕ → ℕ → ℕ → ℕ → Displayed
display_loop zero samples transferred num_channels current = unfinished
display_loop (suc fuel) samples transferred num_channels current =
    let others = display_loop fuel samples transferred num_channels (current + num_channels) in
    if ltb current transferred
    then (elim (show_channels num_channels 0 samples current) [
      | none ↦ out_of_bounds
      | some row ↦ add_row row others
    ])
    else rows []

-- Each line takes a sample at least.
unfoldable pub display_and_write_data : List ℕ → ℕ → ℕ → Displayed
display_and_write_data samples transferred num_channels =
    display_loop (transferred + 1) samples transferred num_channels 0
