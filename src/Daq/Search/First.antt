-- ===== src/Daq/Search/First.antt =====
-- Which device MCCDevice_init of mc1208fs-plus/mccdevice.c finds.
use uarch_configure.Common.{
  ℕ, suc, not, ◌+◌, ◌≤◌, ◌≡◌, refl, ap, ◌∙◌, arith, ◌==◌, ◌&&◌, if◌then◌else◌, Bool, true, false,
  some, List, [], ◌∷◌, ◌++◌, All, length,
}
use uarch_configure.Daq.Device.{
  value, is_input, is_output, get_endpoint_in_address, get_endpoint_out_address,
  get_bulk_packet_size,
}
use uarch_configure.Daq.Endpoints.{
  Descriptor, stream, HasAddress, first_address, endpoint_addresses,
}
use uarch_configure.Daq.PacketSize.{HasSize, first_size, bulk_packet_size}
use uarch_configure.Daq.Search.{
  UsbDevice, mcc_vendor_id, is_mcc_product, initialized, init_device, get_scan_params, search,
  mcc_device_init,
}

-- A device that the search passes by: another one, or one that opens and cannot be claimed.
abbrev pub passed_by : ℕ → UsbDevice → Bool
passed_by id d =
    if d.id_vendor == mcc_vendor_id && d.id_product == id
    then (if d.opens then not d.claims else false)
    else true

search-step :
    (id i : ℕ) (d : UsbDevice) (ds : List UsbDevice)
    → passed_by id d ≡ true
    → search id i (d ∷ ds) ≡ search id (suc i) ds
unfolding search
search-step id i d ds h = ground (arith, h)

search-passed :
    (id i : ℕ) (ds : List UsbDevice) (more : List UsbDevice)
    → All (λ d. passed_by id d ≡ true) ds
    → search id i (ds ++ more) ≡ search id (i + length ds) more
search-passed id i [] more h = ap (λ k. search id k more) (omega arith)
search-passed id i (d ∷ ds) more h =
    search-step id i d (ds ++ more) h.0
    ∙ search-passed id (suc i) ds more h.1
    ∙ ap (λ k. search id k more) (omega arith)

-- A device of the product that opens and can be claimed.
abbrev pub IsReady : ℕ → UsbDevice → Type 0
IsReady id d =
    (d.id_vendor ≡ mcc_vendor_id) × (d.id_product ≡ id) × (d.opens ≡ true) × (d.claims ≡ true)

search-ready :
    (id i : ℕ) (d : UsbDevice) (more : List UsbDevice)
    → IsReady id d
    → search id i (d ∷ more) ≡ get_scan_params id i d.descriptors
unfolding search
search-ready id i d more (v, p, o, c) = ground (arith, v, p, o, c)

scan_params :
    (id handle : ℕ) (bytes : List ℕ) (n a o s : ℕ)
    → get_endpoint_in_address bytes n ≡ value a
    → get_endpoint_out_address bytes n ≡ value o
    → get_bulk_packet_size bytes ≡ value s
    → get_scan_params id handle (some (bytes, n))
      ≡ initialized (record {
        handle = handle;
        endpoint_in = a;
        endpoint_out = o;
        bulk_packet_size = s;
        id_product = id;
        max_counts = init_device id;
      })
unfolding get_scan_params
scan_params id handle bytes n a o s x y z = rw (x, y, z) refl

pub mcc_device_init_first :
    (id : ℕ) (before after : List UsbDevice) (d : UsbDevice) (e : Descriptor) (es : List Descriptor)
    (b size : ℕ) (more : List ℕ)
    → is_mcc_product id ≡ true
    → All (λ x. passed_by id x ≡ true) before
    → IsReady id d
    → d.descriptors ≡ some (stream (e ∷ es) ++ (0 ∷ b ∷ more), length (stream (e ∷ es)))
    → All HasAddress (e ∷ es)
    → All HasSize (e ∷ es)
    → length (stream (e ∷ es)) ≤ 64
    → first_size (value 0) (e ∷ es) ≡ value size
    → mcc_device_init id (some (before ++ (d ∷ after)))
      ≡ initialized (record {
        handle = length before;
        endpoint_in = first_address is_input (e ∷ es);
        endpoint_out = first_address is_output (e ∷ es);
        bulk_packet_size = size;
        id_product = id;
        max_counts = init_device id;
      })
unfolding mcc_device_init
mcc_device_init_first id before after d e es b size more known passed ready sent has_address
      has_size fits packet =
    rw known (
      search-passed id 0 before (d ∷ after) passed
      ∙ ap (λ k. search id k (d ∷ after)) (omega arith)
      ∙ search-ready id (length before) d after ready
      ∙ ap (get_scan_params id (length before)) sent
      ∙ scan_params id (length before) _ (length (stream (e ∷ es))) _ _ size
          (endpoint_addresses e es (0 ∷ b ∷ more) has_address fits).0
          (endpoint_addresses e es (0 ∷ b ∷ more) has_address fits).1
          ((bulk_packet_size (e ∷ es) b more has_size fits).0 ∙ packet))
