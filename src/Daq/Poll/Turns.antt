-- ===== src/Daq/Poll/Turns.antt =====
-- What full transfers add: no collision, and each half displayed once in a turn of the buffer.
use uarch_configure.Common.{ℕ, ◌*◌, ◌<◌, ◌≡◌, arith, List, ◌∷◌, ◌⊎◌}
use uarch_configure.Daq.Poll.{
  Half, first_half, second_half, Acquisition, read_usb, ready_half, main_loop, num_samples,
}

-- The index is a whole number of transfers.
IsQuarter : ℕ → Acquisition → Type 0
IsQuarter q a =
    (a.buffer.num_points ≡ 4 * q)
    × ((a.buffer.curr_index ≡ 0)
        ⊎ (a.buffer.curr_index ≡ q)
        ⊎ (a.buffer.curr_index ≡ 2 * q)
        ⊎ (a.buffer.curr_index ≡ 3 * q))

-- One full transfer, after which the main loop looks at the buffer.
abbrev pub transfer_and_look : Acquisition → Acquisition
transfer_and_look a = main_loop (record a { buffer = read_usb (num_samples a.buffer) a.buffer })

-- If the main loop looks at the buffer after each full transfer, a turn of the buffer displays the
-- first half and then the second, once each, and ends where it started.
pub full_turn :
    (q : ℕ) (shown : List Half)
    → 0 < q
    → let a : Acquisition = record {
      buffer = record { curr_index = 0; num_points = 4 * q };
      last_half_read = second_half;
      displayed = shown;
    } in
      transfer_and_look (transfer_and_look (transfer_and_look (transfer_and_look a)))
      ≡ record a { displayed = second_half ∷ first_half ∷ shown }
unfolding main_loop ready_half read_usb num_samples
full_turn q shown pos = ground arith
