-- ===== src/Rapl.antt =====
-- rapl-read/rapl-read.c: which processors it knows, what it takes them to have, and the fields and
-- reads of its access through /dev/cpu/N/msr.
pub mod Models
pub mod Fields
pub mod Reads
pub mod Sysfs
pub mod Choice
pub mod Plot
pub mod Scan
pub mod Perf
mod Examples
mod PlotExamples
use uarch_configure.Common.{
  ℕ, zero, suc, ◌+◌, ◌==◌, ltb, if◌then◌else◌, ◌||◌, Bool, true, false, Option, none, some, List,
  [], ◌∷◌, one_of,
}

-- `msr_rapl_units`, `msr_pkg_energy_status` and `msr_pp0_energy_status`.
pub record Msrs : Type 0 where
  pub rapl_units : ℕ
  pub pkg_energy_status : ℕ
  pub pp0_energy_status : ℕ

-- What `detect_cpu` finds in /proc/cpuinfo. `other` stands for a vendor line that is neither's, or none.
pub data Vendor : Type 0 where
  intel amd other : Vendor

abbrev pub cpu_amd_fam17h : ℕ
cpu_amd_fam17h = 0xc000

abbrev pub no_msrs : Msrs
no_msrs = record { rapl_units = 0; pkg_energy_status = 0; pp0_energy_status = 0 }

abbrev pub intel_msrs : Msrs
intel_msrs = record { rapl_units = 0x606; pkg_energy_status = 0x611; pp0_energy_status = 0x639 }

abbrev pub amd_msrs : Msrs
amd_msrs = record {
  rapl_units = 0xc0010299;
  pkg_energy_status = 0xc001029B;
  pp0_energy_status = 0xc001029A;
}

-- The models that its `switch` names.
abbrev pub known_models : List ℕ
known_models =
    42 ∷ 45 ∷ 58 ∷ 62 ∷ 60 ∷ 69 ∷ 70 ∷ 63 ∷ 61 ∷ 71 ∷ 79 ∷ 78 ∷ 94 ∷ 85 ∷ 158 ∷ 142 ∷ 87 ∷ 133 ∷ 92
    ∷ 122 ∷ 95 ∷ []

-- The end of `detect_cpu`: the model that it returns, `none` for -1, and the registers that it sets.
-- `model` is `none` where no line held one.
unfoldable pub select_model : Vendor → ℕ → Option ℕ → Option ℕ × Msrs
select_model intel family model =
    if family == 6
    then (elim model [
      | none ↦ (none, intel_msrs)
      | some m ↦ if one_of m known_models then (some m, intel_msrs) else (none, intel_msrs)
    ])
    else (none, no_msrs)
select_model amd family model =
    if family == 23 then (some cpu_amd_fam17h, amd_msrs) else (none, amd_msrs)
select_model other family model = (model, no_msrs)

pub record Features : Type 0 where
  pub pp0_avail : Bool
  pub pp1_avail : Bool
  pub dram_avail : Bool
  pub different_units : Bool
  pub psys_avail : Bool

abbrev pub features : Bool → Bool → Bool → Bool → Bool → Features
features pp0 pp1 dram different psys = record {
  pp0_avail = pp0;
  pp1_avail = pp1;
  dram_avail = dram;
  different_units = different;
  psys_avail = psys;
}

-- The `switch` of `rapl_msr`, `none` where it has no case.
unfoldable pub feature_case : ℕ → Option Features
feature_case m =
    if one_of m (45 ∷ 62 ∷ [])
    then some (features true false true false false)
    else if one_of m (63 ∷ 79 ∷ 85 ∷ [])
    then some (features true false true true false)
    else if one_of m (87 ∷ 133 ∷ [])
    then some (features false false true true false)
    else if one_of m (42 ∷ 58 ∷ [])
    then some (features true true false false false)
    else if one_of m (60 ∷ 69 ∷ 70 ∷ 61 ∷ 71 ∷ 92 ∷ 122 ∷ 95 ∷ [])
    then some (features true true true false false)
    else if one_of m (78 ∷ 94 ∷ 158 ∷ 142 ∷ [])
    then some (features true true true false true)
    else if m == cpu_amd_fam17h
    then some (features true false false false false)
    else none

-- The flags behind the `switch`; all are 0 without a case.
unfoldable pub features_of : ℕ → Features
features_of m = elim (feature_case m) [ none ↦ features false false false false false | some f ↦ f ]
