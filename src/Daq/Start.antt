-- ===== src/Daq/Start.antt =====
-- main of mc1208fs-plus/daqflex.c from its options up to the start of the thread.
pub mod Runs
use uarch_configure.Common.{
  ℕ, ◌+◌, ◌%◌, ◌^◌, ◌-◌, if◌then◌else◌, Bool, true, false, Option, none, some, List, [], ◌∷◌,
}
use uarch_configure.Common.Text.{Text, codes, atoi}
use uarch_configure.Daq.Sizes.{Sizes, buffer_sizes}
use uarch_configure.Daq.Search.{
  UsbDevice, MccDevice, Init, failure, fault, initialized, mcc_device_init,
}
use uarch_configure.Daq.Messages.{Link, flush_input_data, configure}

-- What a call of `getopt` gives; `unknown_option` is any other option, also one without its argument.
pub data DaqOption : Type 0 where
  binary_option differential_option single_ended_option help_option version_option : DaqOption
  unknown_option : DaqOption
  channels_option rate_option output_option : Text → DaqOption

-- The variables that they set, as patterns of 32 bits.
pub record DaqOptions : Type 0 where
  pub binary_output : Bool
  pub high_channel : ℕ
  pub single_ended : Bool
  pub filename : Text
  pub rate : ℕ

abbrev pub default_options : DaqOptions
default_options = record {
  binary_output = false;
  high_channel = 3;
  single_ended = false;
  filename = codes "testfile.csv";
  rate = 1000;
}

-- `stopped` is the end of `main` or `exit`, with the status; `crash` a store or a read out of bounds, an
-- overflow or a division by zero; `starts` has what the thread and the main loop go on with.
pub data DaqStart : Type 0 where
  stopped : ℕ → DaqStart
  crash waiting : DaqStart
  starts : DaqOptions → Sizes → MccDevice → Link → DaqStart

unfoldable pub parse_daq_options : List DaqOption → DaqOptions → (DaqOptions → DaqStart) → DaqStart
unfolding atoi
parse_daq_options [] o next = next o
parse_daq_options (binary_option ∷ opts) o next =
    parse_daq_options opts (record o { binary_output = true }) next
parse_daq_options (differential_option ∷ opts) o next =
    parse_daq_options opts (record o { single_ended = false }) next
parse_daq_options (single_ended_option ∷ opts) o next =
    parse_daq_options opts (record o { single_ended = true }) next
parse_daq_options (help_option ∷ opts) o next = stopped 0
parse_daq_options (version_option ∷ opts) o next = stopped 0
parse_daq_options (unknown_option ∷ opts) o next = stopped 255
parse_daq_options (channels_option arg ∷ opts) o next =
    parse_daq_options opts (record o { high_channel = (atoi arg + (2 ^ 32 - 1)) % 2 ^ 32 }) next
parse_daq_options (rate_option arg ∷ opts) o next =
    parse_daq_options opts (record o { rate = atoi arg }) next
parse_daq_options (output_option arg ∷ opts) o next =
    parse_daq_options opts (record o { filename = arg }) next

-- What the calls give: whether the output opens ("-" is the standard output), whether the handler of
-- SIGINT is set, the devices, whether `calloc` succeeds, the bulk transfers and the answers to messages.
pub record DaqSystem : Type 0 where
  pub opens : Text → Bool
  pub handles : Bool
  pub devices : Option (List UsbDevice)
  pub allocates : Bool
  pub transfers : List (ℕ × ℕ)
  pub link : Link

-- `low_channel` is 0.
abbrev pub num_channels : DaqOptions → ℕ
num_channels o = (o.high_channel + 1) % 2 ^ 32

abbrev pub configured : DaqOptions → Sizes → MccDevice → Option Link → DaqStart
configured o sizes device none = crash
configured o sizes device (some l) = starts o sizes device l

abbrev pub flushed : Option (List (ℕ × ℕ)) → DaqStart → DaqStart
flushed none next = waiting
flushed (some rest) next = next

abbrev pub with_device : Init → (MccDevice → DaqStart) → DaqStart
with_device failure next = stopped 255
with_device fault next = crash
with_device (initialized device) next = next device

abbrev pub with_sizes : Option Sizes → (Sizes → DaqStart) → DaqStart
with_sizes none next = crash
with_sizes (some sizes) next = next sizes

unfoldable pub start_daq : DaqSystem → DaqOptions → DaqStart
start_daq y o = with_sizes (buffer_sizes (num_channels o) o.rate) λ sizes.
    if y.opens o.filename
    then (if y.handles
        then with_device (mcc_device_init 0xE8 y.devices) (λ device.
          if y.allocates
          then flushed (flush_input_data y.transfers)
              (configured o sizes device (configure o.single_ended o.high_channel o.rate y.link))
          else stopped 255)
        else stopped 255)
    else stopped 255

unfoldable pub daqflex_main : DaqSystem → List DaqOption → DaqStart
daqflex_main y opts = parse_daq_options opts default_options (start_daq y)
