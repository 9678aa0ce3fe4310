-- ===== src/Rapl/Plot/Cpu/Columns.antt =====
-- Which columns rapl-read/rapl-plot.c prints and which registers it reads.
use uarch_configure.Common.{
  ℕ, ◌≡◌, refl, arith, ◌==◌, ◌&&◌, ◌||◌, not, Bool, true, false, [], ◌∷◌, All, one_of,
}
use uarch_configure.Rapl.{features_of, feature_case, intel_msrs}
use uarch_configure.Rapl.Models.{one_of-All}
use uarch_configure.Rapl.Reads.{listing_reads, before_reads}
use uarch_configure.Rapl.Plot.Cpu.{
  plot_models, plot_available, plot_listing_reads, plot_energy_reads, has_uncore, has_dram,
  has_psys,
}

-- Whether every column that is printed is read.
abbrev pub all_read : ℕ → Bool
all_read m =
    (not (plot_available m).uncore_bit || has_uncore m)
    && (not (plot_available m).dram_bit || has_dram m)
    && (not (plot_available m).psys_bit || has_psys m)

columns_table : All (λ m. all_read m ≡ one_of m (58 ∷ 63 ∷ 78 ∷ 94 ∷ 142 ∷ 158 ∷ [])) plot_models
unfolding plot_available
columns_table = (
  refl,
  (
    refl,
    (
      refl,
      (refl, (refl, (refl, (refl, (refl, (refl, (refl, (refl, (refl, (refl, (refl, tt))))))))))),
    ),
  ),
)

-- Of the models that it accepts, only for 58, 63, 78, 94, 142 and 158 the energies that are printed are
-- all read; for the others a column is printed that nothing writes.
pub plot_columns :
    (m : ℕ)
    → one_of m plot_models ≡ true
    → all_read m ≡ one_of m (58 ∷ 63 ∷ 78 ∷ 94 ∷ 142 ∷ 158 ∷ [])
plot_columns m h =
    one_of-All (λ m. all_read m ≡ one_of m (58 ∷ 63 ∷ 78 ∷ 94 ∷ 142 ∷ 158 ∷ [])) plot_models m
      columns_table h

-- The registers that the two programs read of a package: `energy` is what is read for the energies, and
-- `listing` what is read for the list of its parameters.
abbrev pub AgreeOn : ℕ → Type 0
AgreeOn m =
    ((m == 87) ≡ false → plot_energy_reads m ≡ before_reads intel_msrs (features_of m))
    × (has_psys m ≡ false → plot_listing_reads m ≡ listing_reads intel_msrs m)

reads_table : All AgreeOn plot_models
unfolding plot_energy_reads before_reads features_of feature_case plot_listing_reads listing_reads
reads_table = (
  (λ _. refl, λ _. refl),
  (
    (λ _. refl, λ _. refl),
    (
      (λ _. refl, λ _. refl),
      (
        (λ _. refl, λ _. refl),
        (
          (λ _. refl, λ _. refl),
          (
            (λ _. refl, λ _. refl),
            (
              (λ _. refl, λ _. refl),
              (
                (λ _. refl, λ _. refl),
                (
                  (λ _. refl, λ h. absurd (ground (arith, h))),
                  (
                    (λ _. refl, λ h. absurd (ground (arith, h))),
                    (
                      (λ _. refl, λ _. refl),
                      (
                        (λ _. refl, λ h. absurd (ground (arith, h))),
                        (
                          (λ _. refl, λ h. absurd (ground (arith, h))),
                          ((λ h. absurd (ground (arith, h)), λ _. refl), tt),
                        ),
                      ),
                    ),
                  ),
                ),
              ),
            ),
          ),
        ),
      ),
    ),
  ),
)

-- For every model that it accepts but 87 (Knights Landing), rapl-plot.c reads the energy registers that
-- rapl-read.c reads, and for those without a platform domain its list reads the same registers too.
pub plot_reads-reads : (m : ℕ) → one_of m plot_models ≡ true → AgreeOn m
plot_reads-reads m h = one_of-All AgreeOn plot_models m reads_table h

-- For 87, rapl-plot.c reads PP0, which is not there, and not DRAM; rapl-read.c reads DRAM.
pub knights_landing_reads :
    (plot_energy_reads 87 ≡ 0x611 ∷ 0x639 ∷ [])
    × (before_reads intel_msrs (features_of 87) ≡ 0x611 ∷ 0x619 ∷ [])
unfolding plot_energy_reads before_reads features_of feature_case
knights_landing_reads = (refl, refl)
