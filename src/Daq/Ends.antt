-- ===== src/Daq/Ends.antt =====
-- The descriptor scans of mc1208fs-plus/mccdevice.c end on every content of the array.
use uarch_configure.Common.{
  ℕ, zero, suc, ◌+◌, ◌≤◌, ◌<◌, ◌≡◌, ◌≢◌, refl, arith, ◌==◌, leb, if◌then◌else◌, not, get_elem?,
  Bool, true, false, some, List, [], ◌∷◌, length, Option-cases, inl, inr, ==→ne, bit_and,
}
use uarch_configure.Daq.Device.{
  Scan, value, unfinished, with_byte, endpoint_loop, is_input, is_output, bulk_loop,
  get_endpoint_in_address, get_endpoint_out_address, get_bulk_packet_size,
}

get_elem?-in_range : (xs : List ℕ) (i b : ℕ) → get_elem? xs i ≡ some b → i < length xs
get_elem?-in_range [] i b e = absurd (ground (arith, e))
get_elem?-in_range (x ∷ xs) zero b e = omega arith
get_elem?-in_range (x ∷ xs) (suc i) b e = omega (arith, get_elem?-in_range xs i b e)

ends_value : {n : ℕ} → value n ≢ unfinished
ends_value e = ground arith

with_byte-ends :
    (array : List ℕ) (i : ℕ) (go : ℕ → Scan)
    → ((b : ℕ) → i < length array → go b ≢ unfinished)
    → with_byte array i go ≢ unfinished
unfolding with_byte
with_byte-ends array i go f = elim (Option-cases (get_elem? array i)) [
  | inl e ↦ λ u. ground (arith, e, u)
  | inr (b, e) ↦ λ u. f b (get_elem?-in_range array i b e) (ground (arith, e, u))
]

if-ends :
    (b : Bool) (x y : Scan)
    → (b ≡ true → x ≢ unfinished)
    → (b ≡ false → y ≢ unfinished)
    → (if b then x else y) ≢ unfinished
if-ends true x y f g = f refl
if-ends false x y f g = g refl

endpoint_loop-ends :
    (w : ℕ → Bool) (fuel : ℕ) (array : List ℕ) (len i : ℕ)
    → 0 < fuel
    → length array < fuel + i
    → endpoint_loop w fuel array len i ≢ unfinished
unfolding endpoint_loop
endpoint_loop-ends w zero array len i p h = absurd (omega arith)
endpoint_loop-ends w (suc fuel) array len i p h = with_byte-ends array i _ (λ size here.
    with_byte-ends array (i + 1) _ (λ kind _.
      if-ends (size == 0) _ _ (λ _. ends_value)
        (λ n.
          let next =
            if-ends (leb len (i + size)) (value 0) (endpoint_loop w fuel array len (i + size))
              (λ _. ends_value)
              (λ _.
                endpoint_loop-ends w fuel array len (i + size) (omega arith)
                  (omega (arith, ==→ne _ _ n))) in
          if-ends (not (kind == 5)) _ _ (λ _. next)
            (λ _.
              with_byte-ends array (i + 2) _
                (λ address _. if-ends (w address) _ _ (λ _. ends_value) (λ _. next))))))

bulk_loop-ends :
    (fuel : ℕ) (array : List ℕ) (i : ℕ)
    → 0 < fuel
    → length array < fuel + i
    → bulk_loop fuel array i ≢ unfinished
unfolding bulk_loop
bulk_loop-ends zero array i p h = absurd (omega arith)
bulk_loop-ends (suc fuel) array i p h = with_byte-ends array i _ (λ size here.
    with_byte-ends array (i + 1) _ (λ kind _.
      if-ends (size == 0) _ _ (λ _. ends_value)
        (λ n.
          let next =
            bulk_loop-ends fuel array (i + size) (omega arith) (omega (arith, ==→ne _ _ n)) in
          if-ends (not (kind == 5)) _ _ (λ _. next)
            (λ _. with_byte-ends array (i + 2) _ (λ address _.
              if-ends (not (bit_and address 0x80 == 0)) _ _
                (λ _.
                  with_byte-ends array (i + 5) _
                    (λ high _. with_byte-ends array (i + 4) _ (λ low _. ends_value)))
                (λ _. next))))))

-- On every content of the array of 64 bytes, and every length that the device reports, the three
-- scans end: with a value, or with a read outside the array.
pub scans_end :
    (array : List ℕ) (len : ℕ)
    → length array ≤ 64
    → (get_endpoint_in_address array len ≢ unfinished)
      × (get_endpoint_out_address array len ≢ unfinished)
      × (get_bulk_packet_size array ≢ unfinished)
unfolding get_endpoint_in_address get_endpoint_out_address get_bulk_packet_size
scans_end array len h = (
  endpoint_loop-ends is_input 65 array len 0 (omega arith) (omega arith),
  endpoint_loop-ends is_output 65 array len 0 (omega arith) (omega arith),
  bulk_loop-ends 65 array 0 (omega arith) (omega arith),
)
