-- ===== src/Daq/Search.antt =====
-- MCCDevice_init of mc1208fs-plus/mccdevice.c: the search for the device on the bus. What libusb gives
-- is an argument: the devices of its list, and what its calls return for each.
pub mod First
use uarch_configure.Common.{
  ℕ, suc, ◌==◌, ◌&&◌, not, if◌then◌else◌, Bool, true, false, Option, none, some, List, [], ◌∷◌,
  one_of,
}
use uarch_configure.Daq.Device.{
  Scan, value, out_of_bounds, unfinished, get_endpoint_in_address, get_endpoint_out_address,
  get_bulk_packet_size,
}

-- `opens` and `claims`: whether `libusb_open` and `libusb_claim_interface` return 0. `descriptors` are
-- the 64 bytes that `libusb_control_transfer` fills, and how many it transferred; `none` for an error.
pub record UsbDevice : Type 0 where
  pub id_vendor : ℕ
  pub id_product : ℕ
  pub opens : Bool
  pub claims : Bool
  pub descriptors : Option (List ℕ × ℕ)

abbrev pub mcc_vendor_id : ℕ
mcc_vendor_id = 0x09db

unfoldable pub is_mcc_product : ℕ → Bool
is_mcc_product id_product =
    one_of id_product (0xF9 ∷ 0xF2 ∷ 0xF0 ∷ 0xE8 ∷ 0xEA ∷ 0x111 ∷ 0x112 ∷ [])

-- The fields of `struct MCCDevice_t`; `max_counts` is `none` where it was not set. `handle` is the
-- place of the device in the list.
pub record MccDevice : Type 0 where
  pub handle : ℕ
  pub endpoint_in : ℕ
  pub endpoint_out : ℕ
  pub bulk_packet_size : ℕ
  pub id_product : ℕ
  pub max_counts : Option ℕ

-- `failure` is -1; `fault` a read outside the descriptors, or of bytes that were never filled.
pub data Init : Type 0 where
  failure fault : Init
  initialized : MccDevice → Init

unfoldable pub init_device : ℕ → Option ℕ
init_device id =
    if one_of id (0xF2 ∷ 0xEA ∷ [])
    then some 0xFFFF
    else if one_of id (0xF0 ∷ 0xE8 ∷ [])
    then some 0xFFF
    else none

-- A value of a scan, and what follows.
abbrev pub scanned : Scan → (ℕ → Init) → Init
scanned (value v) next = next v
scanned out_of_bounds next = fault
scanned unfinished next = fault

-- `getScanParams`, and what `MCCDevice_init` sets afterwards.
unfoldable pub get_scan_params : ℕ → ℕ → Option (List ℕ × ℕ) → Init
get_scan_params id handle none = fault
get_scan_params id handle (some (bytes, transferred)) =
    scanned (get_endpoint_in_address bytes transferred) λ endpoint_in.
      scanned (get_endpoint_out_address bytes transferred) λ endpoint_out.
        scanned (get_bulk_packet_size bytes) λ size. initialized (record {
          handle = handle;
          endpoint_in = endpoint_in;
          endpoint_out = endpoint_out;
          bulk_packet_size = size;
          id_product = id;
          max_counts = init_device id;
        })

-- The loop over the list, from place `i` on.
unfoldable pub search : ℕ → ℕ → List UsbDevice → Init
search id i [] = failure
search id i (d ∷ ds) =
    let rest = search id (suc i) ds in
    if d.id_vendor == mcc_vendor_id && d.id_product == id
    then (if d.opens
        then (if d.claims then get_scan_params id i d.descriptors else rest)
        else failure)
    else rest

-- `bus` is `none` where `libusb_init` fails.
unfoldable pub mcc_device_init : ℕ → Option (List UsbDevice) → Init
mcc_device_init id bus =
    if is_mcc_product id then (elim bus [ none ↦ failure | some ds ↦ search id 0 ds ]) else failure
