-- ===== src/Daq/Poll.antt =====
-- The circular buffer between `read_usb` of mc1208fs-plus/poll_thread.c and the main loop of
-- mc1208fs-plus/daqflex.c.
use uarch_configure.Common.{
  ℕ, zero, suc, ◌+◌, ◌-◌, ◌*◌, ◌/◌, ◌%◌, ◌≤◌, ◌<◌, ◌≡◌, refl, ap, arith, ltb, leb, if◌then◌else◌,
  ◌&&◌, Bool, true, false, List, [], ◌∷◌, ◌⊎◌, inl, inr, Option, none, some,
}
pub mod Safe
pub mod Turns

-- `struct dataBuffer_t`, without the samples. The array has `4 * num_points` bytes.
pub record DataBuffer : Type 0 where
  pub curr_index : ℕ
  pub num_points : ℕ

pub data Half : Type 0 where
  first_half : Half
  second_half : Half

-- The buffer, the main loop's `lastHalfRead`, and the halves that it has displayed, the last first.
pub record Acquisition : Type 0 where
  pub buffer : DataBuffer
  pub last_half_read : Half
  pub displayed : List Half

-- One turn of the loop in `read_usb`, for a transfer that reports `transferred` bytes. The 32-bit
-- sum does not overflow for the buffers of `main`.
unfoldable pub read_usb : ℕ → DataBuffer → DataBuffer
read_usb transferred b =
    let index = b.curr_index + transferred / 2 in
    record b { curr_index = if leb b.num_points index then index - b.num_points else index }

-- The bytes that a transfer may write: the first, and the one behind the last.
unfoldable pub transfer_range : ℕ → DataBuffer → ℕ × ℕ
transfer_range num_samples b = (b.curr_index * 2, b.curr_index * 2 + num_samples)

-- The bytes that `displayAndWriteData` is given for a half.
unfoldable pub half_range : Half → DataBuffer → ℕ × ℕ
half_range first_half b = (0, b.num_points / 2 * 2)
half_range second_half b = (b.num_points / 2 * 2, b.num_points / 2 * 2 * 2)

-- The half that the main loop displays next, if that half is ready.
unfoldable pub ready_half : Half → DataBuffer → Option Half
ready_half second_half b = if ltb (b.num_points / 2) b.curr_index then some first_half else none
ready_half first_half b = if ltb b.curr_index (b.num_points / 2) then some second_half else none

-- One turn of the main loop.
unfoldable pub main_loop : Acquisition → Acquisition
main_loop a = elim (ready_half a.last_half_read a.buffer) [
  | none ↦ a
  | some half ↦ record a { last_half_read = half; displayed = half ∷ a.displayed }
]

-- `startContinuousTransfer` asks for `numPoints/2` bytes at a time.
unfoldable pub num_samples : DataBuffer → ℕ
num_samples b = b.num_points / 2

-- The two threads in any order. A bulk transfer reports at most the bytes that it was asked for, and
-- all of them where every transfer is full.
pub data Step (full : Bool) : Acquisition → Acquisition → Type 0 where
  transfers :
      {a : Acquisition} (transferred : ℕ)
      → transferred ≤ num_samples a.buffer
      → (full ≡ true → transferred ≡ num_samples a.buffer)
      → Step full a (record a { buffer = read_usb transferred a.buffer })
  displays : {a : Acquisition} → Step full a (main_loop a)

unfoldable pub started : ℕ → Acquisition
started points = record {
  buffer = record { curr_index = 0; num_points = points };
  last_half_read = second_half;
  displayed = [];
}

pub data Reachable (full : Bool) (points : ℕ) : Acquisition → Type 0 where
  begins : Reachable full points (started points)
  goes_on : {a b : Acquisition} → Reachable full points a → Step full a b → Reachable full points b
