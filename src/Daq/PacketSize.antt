-- ===== src/Daq/PacketSize.antt =====
-- `getBulkPacketSize` of mc1208fs-plus/mccdevice.c on a sequence of descriptors, and the ends of the scans.
use uarch_configure.Common.{
  ℕ, zero, suc, ◌+◌, ◌*◌, ◌%◌, ◌^◌, ◌≤◌, ◌<◌, ◌≡◌, ap, sym, ◌∙◌, arith, ◌==◌, if◌then◌else◌, not,
  ◌&&◌, Bool, List, [], ◌∷◌, ◌++◌, append-nil, append_assoc, length-append, length, All, Bool-cases,
  inl, inr, bit_and, bit_or, ==→eq,
}
use uarch_configure.Common.Bits.{bit_or-shift}
use uarch_configure.Daq.Device.{
  Scan, value, out_of_bounds, with_byte, bulk_loop, get_bulk_packet_size,
}
use uarch_configure.Daq.Endpoints.{
  Descriptor, bytes, stream, head_or_zero, get_elem?-append, stream-at_least,
}

-- An endpoint descriptor has the low and the high byte of its packet size.
abbrev pub HasSize : Descriptor → Type 0
HasSize d =
    d.kind ≡ 5
    → (address attributes low high : ℕ) × (rest : List ℕ) × (d.body
        ≡ address ∷ attributes ∷ low ∷ high ∷ rest)
      × (low < 256)
      × (high < 256)

abbrev pub size_of : List ℕ → ℕ
size_of (address ∷ attributes ∷ low ∷ high ∷ rest) = high * 256 + low
size_of other = 0

abbrev pub is_input_endpoint : Descriptor → Bool
is_input_endpoint d = (d.kind == 5) && not (bit_and (head_or_zero d.body) 0x80 == 0)

-- The packet size of the first input endpoint, `absent` if there is none.
abbrev pub first_size : Scan → List Descriptor → Scan
first_size absent [] = absent
first_size absent (d ∷ ds) =
    if is_input_endpoint d then value (size_of d.body) else first_size absent ds

plus_zero : (n : ℕ) → n + 0 ≡ n
plus_zero n = omega arith

-- Behind `pre`, with `d` and then `rest` next.
bulk_loop-skip :
    (fuel : ℕ) (pre rest : List ℕ) (d : Descriptor)
    → HasSize d
    → bulk_loop (suc fuel) (pre ++ (bytes d ++ rest)) (length pre) ≡ (
        if is_input_endpoint d
        then value (size_of d.body)
        else bulk_loop fuel (pre ++ (bytes d ++ rest)) (length pre + (length d.body + 2)))
unfolding bulk_loop with_byte
bulk_loop-skip fuel pre rest d h = elim (Bool-cases (d.kind == 5)) [
  | inl endpoint ↦
      let (address, attributes, low, high, more, e, l, k) = h (==→eq _ _ endpoint) in
      ground (
        arith,
        get_elem?-append pre (bytes d ++ rest) 0,
        get_elem?-append pre (bytes d ++ rest) 1,
        get_elem?-append pre (bytes d ++ rest) 2,
        get_elem?-append pre (bytes d ++ rest) 4,
        get_elem?-append pre (bytes d ++ rest) 5,
        plus_zero (length pre),
        endpoint,
        e,
        size high low l k,
      )
  | inr other ↦ ground (
    arith,
    get_elem?-append pre (bytes d ++ rest) 0,
    get_elem?-append pre (bytes d ++ rest) 1,
    plus_zero (length pre),
    other,
  )
]
  where
    size :
        (high low : ℕ)
        → low < 256
        → high < 256
        → bit_or (high * 2 ^ 8 % 2 ^ 16) low ≡ high * 256 + low
    size high low l k =
        omega (arith, bit_or-shift 8 high low l, ap (λ t. bit_or t low) (in_range high k))
      where
        in_range : (high : ℕ) → high < 256 → high * 2 ^ 8 % 2 ^ 16 ≡ high * 2 ^ 8
        in_range high k = omega arith

bulk_loop-stream :
    (fuel : ℕ) (pre pad : List ℕ) (absent : Scan) (ds : List Descriptor)
    → ((fuel : ℕ) (pre : List ℕ) → bulk_loop (suc fuel) (pre ++ pad) (length pre) ≡ absent)
    → All HasSize ds
    → length ds < fuel
    → bulk_loop fuel (pre ++ (stream ds ++ pad)) (length pre) ≡ first_size absent ds
bulk_loop-stream zero pre pad absent ds ends h l = absurd (omega arith)
bulk_loop-stream (suc fuel) pre pad absent [] ends h l = ends fuel pre
bulk_loop-stream (suc fuel) pre pad absent (d ∷ ds) ends h l = ground (
  arith,
  ap (λ t. pre ++ t) (append_assoc (bytes d) (stream ds) pad),
  append_assoc pre (bytes d) (stream ds ++ pad),
  bulk_loop-skip fuel pre (stream ds ++ pad) d h.0,
  length-append pre (bytes d),
  bulk_loop-stream fuel (pre ++ bytes d) pad absent ds ends h.1 (omega arith),
)

ends_at_zero :
    (b : ℕ) (more : List ℕ) (fuel : ℕ) (pre : List ℕ)
    → bulk_loop (suc fuel) (pre ++ (0 ∷ b ∷ more)) (length pre) ≡ value 0
unfolding bulk_loop with_byte
ends_at_zero b more fuel pre = ground (
  arith,
  get_elem?-append pre (0 ∷ b ∷ more) 0,
  get_elem?-append pre (0 ∷ b ∷ more) 1,
  plus_zero (length pre),
)

ends_outside :
    (fuel : ℕ) (pre : List ℕ) → bulk_loop (suc fuel) (pre ++ []) (length pre) ≡ out_of_bounds
unfolding bulk_loop with_byte
ends_outside fuel pre = ground (arith, get_elem?-append pre [] 0, plus_zero (length pre))

-- The packet size is that of the first input endpoint. Without one, the scan returns 0 where a zero
-- byte stands behind the descriptors, and reads past the end of the array where they fill it.
pub bulk_packet_size :
    (ds : List Descriptor) (b : ℕ) (more : List ℕ)
    → All HasSize ds
    → length (stream ds) ≤ 64
    → (get_bulk_packet_size (stream ds ++ (0 ∷ b ∷ more)) ≡ first_size (value 0) ds)
      × (get_bulk_packet_size (stream ds) ≡ first_size out_of_bounds ds)
unfolding get_bulk_packet_size
bulk_packet_size ds b more h l = (
  bulk_loop-stream 65 [] (0 ∷ b ∷ more) (value 0) ds (ends_at_zero b more) h few,
  ap (λ t. bulk_loop 65 t 0) (sym (append-nil (stream ds)))
      ∙ bulk_loop-stream 65 [] [] out_of_bounds ds ends_outside h few,
)
  where
    few : length ds < 65
    few = omega (arith, stream-at_least ds)
