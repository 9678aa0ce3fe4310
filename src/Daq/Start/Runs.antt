-- ===== src/Daq/Start/Runs.antt =====
-- The start of mc1208fs-plus/daqflex.c where all calls succeed.
use uarch_configure.Common.{
  ℕ, ◌+◌, ◌*◌, ◌/◌, ◌%◌, ◌^◌, ◌<◌, ◌≤◌, ◌≡◌, refl, ◌∙◌, arith, true, some, List, ◌++◌, length,
}
use uarch_configure.Daq.Sizes.{Sizes, wanted_points, buffer_sizes_fit}
use uarch_configure.Daq.Search.{MccDevice, initialized, mcc_device_init}
use uarch_configure.Daq.Messages.{Link, flush_input_data}
use uarch_configure.Daq.Messages.Sent.{Answers, messages, texts, configure-sends}
use uarch_configure.Daq.Start.{
  DaqOption, DaqOptions, default_options, DaqStart, starts, DaqSystem, parse_daq_options, start_daq,
  daqflex_main,
}

-- `opts` are options that set `o`, from the defaults on.
abbrev pub Sets : List DaqOption → DaqOptions → Type 0
Sets opts o = (next : DaqOptions → DaqStart) → parse_daq_options opts default_options next ≡ next o

pub record IsReady (y : DaqSystem) (o : DaqOptions) (device : MccDevice) : Type 0 where
  pub opened : y.opens o.filename ≡ true
  pub handled : y.handles ≡ true
  pub found : mcc_device_init 0xE8 y.devices ≡ initialized device
  pub allocated : y.allocates ≡ true
  pub rest : List (ℕ × ℕ)
  pub emptied : flush_input_data y.transfers ≡ some rest
  pub answers : Answers (length (messages o.single_ended o.high_channel o.rate)) y.link.replies

-- With 1 to 16 channels and a rate whose sizes fit, where the output opens, the device is found and
-- answers each message, `main` comes to the start of the thread: the buffer holds twice the points of a
-- second, a half of them is a whole number of 64-byte transfers, and the device was sent the setup of the
-- options, the questions for the constants of each channel and the start, in order.
pub daqflex_main-starts :
    (y : DaqSystem) (opts : List DaqOption) (o : DaqOptions) (device : MccDevice) (c : ℕ)
    → Sets opts o
    → c ≡ o.high_channel + 1
    → o.high_channel < 16
    → 0 < c * o.rate
    → c * o.rate < 2 ^ 28
    → wanted_points (c * o.rate) * 4 / c / 2 * 100000 < 2 ^ 31
    → IsReady y o device
    → (s : Sizes) × (m : Link) × (daqflex_main y opts ≡ starts o s device m)
      × (c * o.rate ≤ s.points)
      × (s.buffer_size ≡ 4 * s.points)
      × (s.points / 2 % 64 ≡ 0)
      × (texts m ≡ texts y.link ++ messages o.single_ended o.high_channel o.rate)
unfolding daqflex_main start_daq
daqflex_main-starts y opts o device c set e high pos few fits w =
    let (s, sized, enough, close, bytes, whole, delay) = buffer_sizes_fit c o.rate pos few fits in
    let (m, sent, said) =
      configure-sends o.single_ended o.high_channel o.rate y.link high w.answers in
    let channels : (o.high_channel + 1) % 2 ^ 32 ≡ c = omega (arith, e, high) in
    (
      s,
      m,
      set (start_daq y)
          ∙ rw (channels, sized, w.opened, w.handled, w.found, w.allocated, w.emptied, sent) refl,
      enough,
      bytes,
      whole,
      said,
    )
