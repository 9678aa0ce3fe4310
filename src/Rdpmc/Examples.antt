-- ===== src/Rdpmc/Examples.antt =====
-- A run of the model of rdpmc-bench/rdpmc-module.c on a processor of model 6.
use uarch_configure.Common.{◌+◌}
use uarch_configure.Rdpmc.{MsrIndex, Registers, Setup, intel, mymodule_init}

abbrev numbers : MsrIndex
numbers = record {
  p6_evntsel0 = 0x186;
  p6_perfctr0 = 0xC1;
  p4_cru_escr0 = 0x3B8;
  p4_iq_cccr0 = 0x36C;
  k7_evntsel0 = 0xC0010000;
  k7_perfctr0 = 0xC0010004;
  core_perf_fixed_ctr_ctrl = 0x38D;
}

abbrev p6 : Setup
p6 = mymodule_init numbers intel 6

abbrev filled : Registers
filled k = k + 1
