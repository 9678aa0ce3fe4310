-- ===== src/Daq/Device.antt =====
-- The descriptor scans and product tables of mc1208fs-plus/mccdevice.c.
use uarch_configure.Common.{
  ℕ, zero, suc, ◌+◌, ◌*◌, ◌%◌, ◌^◌, ◌==◌, leb, if◌then◌else◌, not, Bool, none, some, List, bit_and,
  bit_or, get_elem?,
}

-- How a scan ends: with a value, with a read past the end of the 64 bytes, or not within its fuel.
pub data Scan : Type 0 where
  value : ℕ → Scan
  out_of_bounds : Scan
  unfinished : Scan

-- `data[index]`, going on with the byte there.
unfoldable pub with_byte : List ℕ → ℕ → (ℕ → Scan) → Scan
with_byte bytes index go = elim (get_elem? bytes index) [ none ↦ out_of_bounds | some b ↦ go b ]

-- The loop of `getEndpointInAddress` and `getEndpointOutAddress`, which differ in the direction
-- bit that they take. A negative `data_length` ends it where 0 does.
unfoldable pub endpoint_loop : (is_wanted : ℕ → Bool) → ℕ → List ℕ → ℕ → ℕ → Scan
endpoint_loop is_wanted zero bytes data_length index = unfinished
endpoint_loop is_wanted (suc fuel) bytes data_length index =
    let next : ℕ → Scan =
      λ length. endpoint_loop is_wanted fuel bytes data_length (index + length) in
    with_byte bytes index (λ length. with_byte bytes (index + 1) (λ descriptor_type.
      if length == 0
      then value 0
      else if not (descriptor_type == 0x05)
      then (if leb data_length (index + length) then value 0 else next length)
      else with_byte bytes (index + 2) (λ address.
        if is_wanted address
        then value address
        else if leb data_length (index + length)
        then value 0
        else next length)))

unfoldable pub is_input : ℕ → Bool
is_input address = not (bit_and address 0x80 == 0)

unfoldable pub is_output : ℕ → Bool
is_output address = bit_and address 0x80 == 0

-- Every descriptor takes a byte at least, and the array has 64.
abbrev pub scan_fuel : ℕ
scan_fuel = 65

unfoldable pub get_endpoint_in_address : List ℕ → ℕ → Scan
get_endpoint_in_address bytes data_length = endpoint_loop is_input scan_fuel bytes data_length 0

unfoldable pub get_endpoint_out_address : List ℕ → ℕ → Scan
get_endpoint_out_address bytes data_length = endpoint_loop is_output scan_fuel bytes data_length 0

-- The loop of `getBulkPacketSize`, which does not look at the length.
unfoldable pub bulk_loop : ℕ → List ℕ → ℕ → Scan
bulk_loop zero bytes index = unfinished
bulk_loop (suc fuel) bytes index =
    let next : ℕ → Scan = λ length. bulk_loop fuel bytes (index + length) in
    with_byte bytes index (λ length. with_byte bytes (index + 1) (λ descriptor_type.
      if length == 0
      then value 0
      else if not (descriptor_type == 0x05)
      then next length
      else with_byte bytes (index + 2) (λ address.
        if not (bit_and address 0x80 == 0)
        then with_byte bytes (index + 5) (λ high.
          with_byte bytes (index + 4) (λ low. value (bit_or (high * 2 ^ 8 % 2 ^ 16) low)))
        else next length)))

unfoldable pub get_bulk_packet_size : List ℕ → Scan
get_bulk_packet_size bytes = bulk_loop scan_fuel bytes 0
