-- ===== src/Daq/Examples.antt =====
-- The theorems on mc1208fs-plus at concrete inputs.
use uarch_configure.Common.{
  ◌*◌, ◌/◌, ◌%◌, ◌≤◌, ◌<◌, ◌≡◌, refl, arith, true, false, some, none, [], ◌∷◌, ◌++◌, replicate,
}
use uarch_configure.Common.Text.{codes}
use uarch_configure.Daq.Device.{is_input, is_output}
use uarch_configure.Daq.Endpoints.{Descriptor, stream}
use uarch_configure.Daq.Sizes.{Sizes}
use uarch_configure.Daq.Poll.{
  Acquisition, first_half, second_half, Reachable, begins, goes_on, started, transfers, displays,
  read_usb, main_loop, transfer_range, ready_half, num_samples,
}
use uarch_configure.Daq.Poll.Safe.{Alternates, acquisition_safe}
use uarch_configure.Daq.Poll.Turns.{transfer_and_look, full_turn}
use uarch_configure.Daq.Search.{
  UsbDevice, initialized, is_mcc_product, init_device, mcc_device_init,
}
use uarch_configure.Daq.Search.First.{mcc_device_init_first}
use uarch_configure.Daq.Messages.{answer, Link, setup_messages, flush_input_data}
use uarch_configure.Daq.Messages.Sent.{messages, texts}
use uarch_configure.Common.Text.{atoi}
use uarch_configure.Daq.Start.{
  channels_option, single_ended_option, binary_option, DaqOptions, default_options, DaqSystem,
  starts, parse_daq_options, daqflex_main,
}
use uarch_configure.Daq.Start.Runs.{IsReady, daqflex_main-starts}

-- A configuration descriptor, an output endpoint 2 and an input endpoint 0x86 with 64-byte packets.
abbrev configuration : Descriptor
configuration = record { kind = 2; body = 32 ∷ 0 ∷ [] }

abbrev output_endpoint : Descriptor
output_endpoint = record { kind = 5; body = 2 ∷ 2 ∷ 64 ∷ 0 ∷ 0 ∷ [] }

abbrev input_endpoint : Descriptor
input_endpoint = record { kind = 5; body = 0x86 ∷ 2 ∷ 64 ∷ 0 ∷ 0 ∷ [] }

-- One short transfer, and a look of the main loop.
abbrev once_around : Acquisition
once_around = main_loop (record (started 128) { buffer = read_usb 60 (started 128).buffer })

once_around-Reachable : Reachable false 128 once_around
unfolding started num_samples read_usb main_loop ready_half
once_around-Reachable =
    goes_on (goes_on begins (transfers 60 (omega arith) (λ e. absurd (cc)))) displays

acquisition_safe_example :
    (once_around.buffer.num_points ≡ 128)
    × (once_around.buffer.curr_index < 128)
    × ((transfer_range (num_samples once_around.buffer) once_around.buffer).1 ≤ 512)
    × Alternates once_around.last_half_read once_around.displayed
acquisition_safe_example = acquisition_safe (omega arith) once_around-Reachable

-- Three full transfers, after which the first half is ready.
abbrev three_transfers : Acquisition
three_transfers = record (started 128) {
  buffer = read_usb 64 (read_usb 64 (read_usb 64 (started 128).buffer));
}

full_turn_example :
    transfer_and_look (transfer_and_look (transfer_and_look (transfer_and_look (started 128))))
    ≡ record (started 128) { displayed = second_half ∷ first_half ∷ [] }
unfolding started
full_turn_example = full_turn 32 [] (omega arith)

-- A hub, and a device with an output endpoint 2 and an input endpoint 0x86.
abbrev hub : UsbDevice
hub = record {
  id_vendor = 0x1d6b;
  id_product = 2;
  opens = false;
  claims = false;
  descriptors = none;
}

abbrev sized_output : Descriptor
sized_output = record { kind = 5; body = 2 ∷ 2 ∷ 64 ∷ 0 ∷ 0 ∷ [] }

abbrev meter : UsbDevice
meter = record {
  id_vendor = 0x09db;
  id_product = 0xE8;
  opens = true;
  claims = true;
  descriptors = some (stream (sized_output ∷ input_endpoint ∷ []) ++ (0 ∷ 0 ∷ []), 14);
}

-- One channel, where the device answers every message.
abbrev link : Link
link = record { replies = replicate 13 (answer (codes "OK")); sent = [] }

meter_found :
    mcc_device_init 0xE8 (some (meter ∷ []))
    ≡ initialized (record {
      handle = 0;
      endpoint_in = 0x86;
      endpoint_out = 2;
      bulk_packet_size = 64;
      id_product = 0xE8;
      max_counts = init_device 0xE8;
    })
unfolding is_input is_output is_mcc_product
meter_found =
    mcc_device_init_first 0xE8 [] [] meter sized_output (input_endpoint ∷ []) 0 64 [] refl tt
      (refl, refl, refl, refl) refl ((λ _. omega arith), ((λ _. omega arith), tt))
      (
        (λ _. (2, 2, 64, 0, 0 ∷ [], refl, omega arith, omega arith)),
        ((λ _. (0x86, 2, 64, 0, 0 ∷ [], refl, omega arith, omega arith)), tt),
      )
      (omega arith) refl

abbrev lab : DaqSystem
lab = record {
  opens = λ name. true;
  handles = true;
  devices = some (meter ∷ []);
  allocates = true;
  transfers = (0, 64) ∷ (1, 0) ∷ [];
  link = link;
}

-- daqflex -b -s -c 1
abbrev one_channel : DaqOptions
one_channel = record default_options { binary_output = true; single_ended = true; high_channel = 0 }

lab-IsReady : IsReady lab one_channel (record {
  handle = 0;
  endpoint_in = 0x86;
  endpoint_out = 2;
  bulk_packet_size = 64;
  id_product = 0xE8;
  max_counts = init_device 0xE8;
})
unfolding setup_messages flush_input_data
lab-IsReady = record {
  opened = refl;
  handled = refl;
  found = meter_found;
  allocated = refl;
  rest = [];
  emptied = refl;
  answers = tt;
}

daqflex_main-starts_example :
    (s : Sizes) × (m : Link) × (daqflex_main lab
        (binary_option ∷ single_ended_option ∷ channels_option (codes "1") ∷ [])
      ≡ starts one_channel s
          (record {
            handle = 0;
            endpoint_in = 0x86;
            endpoint_out = 2;
            bulk_packet_size = 64;
            id_product = 0xE8;
            max_counts = init_device 0xE8;
          })
          m)
    × (1000 ≤ s.points)
    × (s.buffer_size ≡ 4 * s.points)
    × (s.points / 2 % 64 ≡ 0)
    × (texts m ≡ texts link ++ messages true 0 1000)
unfolding parse_daq_options atoi
daqflex_main-starts_example =
    daqflex_main-starts lab (binary_option ∷ single_ended_option ∷ channels_option (codes "1") ∷ [])
      one_channel _ 1 (λ next. refl) refl (omega arith) (omega arith) (omega arith) (omega arith)
      lab-IsReady
