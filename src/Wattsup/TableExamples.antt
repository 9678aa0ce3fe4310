-- ===== src/Wattsup/TableExamples.antt =====
-- The settings, the tables and whole runs of wattsup/wattsup.c at concrete inputs.
use uarch_configure.Common.{◌≢◌, arith, true, none, some, [], ◌∷◌}
use uarch_configure.Common.Text.{Text, codes}
use uarch_configure.Wattsup.Device.{Device, wrote, timed_out, exhausted}
use uarch_configure.Wattsup.Open.{sysfs, directory, character_device, System}
use uarch_configure.Wattsup.Options.{
  long_option, wu_options, wu_fields, enable_long_option, enable_all_fields,
}
use uarch_configure.Wattsup.Whole.{WuCall, runs, wattsup}
use uarch_configure.Wattsup.Whole.Guards.{wattsup_ends}

-- A device that takes one write whole.
abbrev writable : Device
writable = record { reads = []; writes = wrote 40 ∷ []; sent = []; printed = [] }

-- A meter that answers the first request and then waits.
abbrev answering : Device
answering = record writable { reads = timed_out ∷ timed_out ∷ [] }

abbrev tree : System
tree = record {
  cwd_opens = true;
  enters = λ d. true;
  kind = λ d. elim d [ sysfs ↦ some directory | _ ↦ some character_device ];
  writable = λ d. true;
  opens = λ d. some 3;
}

-- wattsup --no-data ttyUSB0
abbrev call : WuCall
call = record {
  getopts = long_option 17 none ∷ [];
  arguments = codes "ttyUSB0" ∷ [];
  system = tree;
  gets_attributes = λ fd. true;
  sets_attributes = λ fd. true;
  behind_file = λ fd. answering;
}

wattsup_ends_example :
    wattsup 3 call
    ≢ runs 3 (enable_long_option 17 none wu_options) (enable_all_fields wu_fields) exhausted
wattsup_ends_example =
    wattsup_ends 3 call 3 (enable_long_option 17 none wu_options) (enable_all_fields wu_fields)
      (λ fd. omega arith)
