-- ===== src/Lib.antt =====
-- Verification of uarch-configure: small programs that read and set up power meters, performance
-- features and sensors of a machine. Modelled are the ones with logic of their own:
--   wattsup/wattsup.c: reads a Watts Up? power meter over a serial line. Modules under Wattsup.
--     struct wu_packet is the record Packet. wu_write is Format (the text) and Device.wu_write,
--     parse_packet is Parse, wu_read is Device.wu_read. The requests wu_show_header and the like, and
--     wu_start_log, wu_stop_log and wu_clear are Commands; wu_read_data is ReadData; wu_write_interval,
--     wu_store_user and the like are Settings; the tables wu_options and wu_fields and parse_args
--     are Options, and main is Main. All commands go through wu_write and wu_read, and each works on
--     a Device: the script of what the coming select, read and write calls give, and what was sent
--     and printed. Open is open_device and the flags of the serial line, on what the system gives.
--     Print is the text that a packet is printed as, Print.Settings the options for it. Whole is main
--     from the arguments on, with all of these.
--   wattsup/wattsup-better.c: a copy of wattsup.c. Wattsup.Better has what differs: wu_clear, and with it
--     wu_read_data and main; its open_device and its flags are in Wattsup.Open.
--   intel-prefetch/intel-prefetch-disable.c: turns hardware prefetchers off and on. Prefetch has the
--     machine (cores with registers, behind /dev/cpu/N/msr) and open_msr, read_msr and write_msr;
--     Prefetch.Cores the loops over the cores and the choice that main makes. Prefetch.Core2 has the
--     two earlier programs of core2-prefetch, on the same machine.
--     Prefetch.Start is main from its options and /proc/cpuinfo on.
--   rapl-read/rapl-read.c: Packages is its detect_packages, which rapl-read/rapl-plot.c and
--     amd-apm-read/apm-read.c have too. Rapl has the model switch of detect_cpu and the feature switch
--     of rapl_msr, Rapl.Fields the fields of the registers that rapl_msr lists, Rapl.Reads all its
--     reads in order, Rapl.Scan the reading of /proc/cpuinfo by detect_cpu, Rapl.Sysfs rapl_sysfs,
--     and Rapl.Choice the options and the choice of interface of main, also of rapl-plot.c. Rapl.Plot
--     is the plot loop of rapl-plot.c, Rapl.Plot.Sysfs its rapl_sysfs, and Rapl.Plot.Cpu its detect_cpu
--     and its reads of registers. Rapl.Perf is the perf_event interface of both programs.
--   amd-apm-read/apm-read.c: Apm decodes the processor signature, Apm.Power is the power accumulator,
--     Apm.Tdp the TDP report, and Apm.Run main with its two measurements.
--   mc1208fs-plus: Daq.Device is the scan of USB descriptors in mccdevice.c, Daq.Sizes the sizes that
--     main of daqflex.c computes, and Daq.Poll the circular buffer that the thread of poll_thread.c
--     fills and the main loop of daqflex.c displays, as a step relation with both in any order;
--     Daq.Display is displayAndWriteData. Daq.Search is MCCDevice_init and what it calls.
--     Daq.Start is main of daqflex.c up to the start of the thread, and Daq.Messages has sendMessage,
--     flushInputData, fillCalConstants and the messages of the setup.
--     Daq.Traces is the trace finder of dump_watts_ddr4.c, and Daq.Glitch the filter of
--     debounce_serial.c. Daq.Recording has the binary recordings that daqflex.c writes and dump_binary.c
--     reads, Daq.Recording.Session the lines of a whole session, and Daq.Recording.Debounced and
--     Daq.Recording.Traced are debounce_serial.c, and dump_watts_ddr4.c with dump_watts_ddr3.c, on the
--     bytes of a recording; Daq.Recording.Watts is dump_watts.c.
--   rasp-pi-serial: RaspPi.Board is rpi_version and the table of boards, RaspPi.Flow set_rts_cts and
--     RaspPi.Main main of rpirtscts.c; RaspPi.Pins and RaspPi.Uart are what dump_serial_regs.c shows,
--     RaspPi.Monitor is the loop of monitor_rts_cts.c, RaspPi.Watch all of it and of
--     dump_rts_cts.c, and RaspPi.Toggle has toggle_rts.c, toggle_dtr.c and pulse_rts.c.
--   wattsup/wattsup-simple.c: Simple.Read is the buffer of wu_read and the search for the watts in it,
--     Simple.Meter wu_read, the two commands and main.
--   wattsup/utils/make_plot.c: MakePlot is the time conversion and the loop over the lines of main.
--   rasp-pi-pmu/rasp-pi-pmu.c: Pmu adds up the counters and starts them.
--   rdpmc-bench/rdpmc-module.c: Rdpmc is measure_overheads with the benchmarks it runs, and the choice of
--     registers of mymodule_init.
--   cortex-a9-cache, cortex-a9-config, cortex-a9-prefetch, rasp-pi-brpred, rasp-pi2-cortexA7-disable: Arm
--     has the registers, the changes and the reports of these kernel modules, Arm.Level2 the steps of
--     cortex-a9-l2-prefetch-main.c with its cache controller.
-- Common has what these share: Boolean tests on numbers, lists, bits, C strings with atoi, strtol and
-- the printing of numbers.
--
-- Numbers are native natural numbers; C's widths are written out where a result can reach them (an
-- unsigned product is taken modulo 2 ^ 32, a long long is its 64-bit pattern). A store or a load
-- outside an array, a NULL that is followed, a division by zero and an overflow of a signed number
-- are values of their own (out_of_bounds, fault, none).
--
-- Fuel: the reading loop of wattsup.c takes one unit for each wu_read; more than the script of the
-- device has events are enough. The scans of USB descriptors take 65 for the 64 bytes of their array.
-- The loops over cores count C's rounds, 1025 and 1024. For the endless loop of wu_clear in
-- wattsup-better.c no fuel is enough. The loop over a recording takes one for each byte and one more.
--
-- The loops of wattsup-simple.c and of the scans of texts go along the script or the text.
--
-- Not modelled: messages, beyond the packets, lines and flags that they show; the calls of the terminal
-- interface, of libusb and of perf_event, whose results are arguments; getopt and getopt_long, whose
-- results are arguments; floating-point arithmetic (RAPL energies, power and calibration of
-- samples); the tools that only read kernel memory or crash on purpose (kmem, koops), the single
-- register write of r12k-brpred, and the loops in assembly of rasp-pi-pmu.
pub mod Common
pub mod Wattsup
pub mod Prefetch
pub mod Packages
pub mod Apm
pub mod Daq
pub mod Rapl
pub mod RaspPi
pub mod Simple
pub mod MakePlot
pub mod Pmu
pub mod Rdpmc
pub mod Arm
