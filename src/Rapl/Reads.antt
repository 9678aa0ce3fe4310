-- ===== src/Rapl/Reads.antt =====
-- The registers that `rapl_msr` of rapl-read/rapl-read.c reads, in order.
use uarch_configure.Common.{
  ℕ, ◌==◌, ◌≡◌, refl, ap, arith, if◌then◌else◌, ◌||◌, ◌&&◌, not, Bool, true, false, List, [], ◌∷◌,
  ◌++◌, map, one_of, passes_below, passes_below-at, Bool-cases, ==→eq, inl, inr,
}
use uarch_configure.Rapl.{
  Msrs, Features, features, features_of, feature_case, known_models, cpu_amd_fam17h,
}
use uarch_configure.Rapl.Models.{known-small}

abbrev pub when : Bool → List ℕ → List ℕ
when b rs = if b then rs else []

-- The body of the first loop over the packages, which lists their parameters.
unfoldable pub listing_reads : Msrs → ℕ → List ℕ
listing_reads msrs m =
    (msrs.rapl_units ∷ [])
    ++ (when (not (m == cpu_amd_fam17h)) (0x614 ∷ 0x610 ∷ [])
        ++ (when (one_of m (45 ∷ 62 ∷ [])) (0x613 ∷ [])
            ++ (when (one_of m (45 ∷ 62 ∷ [])) (0x63B ∷ 0x63A ∷ [])
                ++ when (features_of m).pp1_avail (0x642 ∷ []))))

-- The body of the second loop, before the second of sleep.
unfoldable pub before_reads : Msrs → Features → List ℕ
before_reads msrs f =
    (msrs.pkg_energy_status ∷ [])
    ++ (when f.pp0_avail (msrs.pp0_energy_status ∷ [])
        ++ (when f.pp1_avail (0x641 ∷ [])
            ++ (when f.dram_avail (0x619 ∷ []) ++ when f.psys_avail (0x64d ∷ []))))

-- The body of the third loop, after it.
unfoldable pub after_reads : Msrs → Features → List ℕ
after_reads msrs f =
    (msrs.pkg_energy_status ∷ msrs.pp0_energy_status ∷ [])
    ++ (when f.pp1_avail (0x641 ∷ [])
        ++ (when f.dram_avail (0x619 ∷ []) ++ when f.psys_avail (0x64d ∷ [])))

-- A loop over the packages, whose cores are in `package_map`: the core's file and the register.
abbrev pub on_each : List ℕ → List ℕ → List (ℕ × ℕ)
on_each [] rs = []
on_each (core ∷ cores) rs = map (λ r. (core, r)) rs ++ on_each cores rs

-- All reads of `rapl_msr`, for a model that is not negative.
unfoldable pub rapl_msr_reads : Msrs → ℕ → List ℕ → List (ℕ × ℕ)
unfolding listing_reads before_reads after_reads
rapl_msr_reads msrs m cores =
    on_each cores (listing_reads msrs m)
    ++ (on_each cores (before_reads msrs (features_of m))
        ++ on_each cores (after_reads msrs (features_of m)))

pp0_table :
    passes_below 256 (λ m.
      not (one_of m known_models)
      || ((features_of m).pp0_avail && not (one_of m (87 ∷ 133 ∷ [])))
      || (not (features_of m).pp0_avail && one_of m (87 ∷ 133 ∷ [])))
    ≡ true
unfolding passes_below features_of feature_case
pp0_table = refl

known-pp0 :
    (m : ℕ)
    → one_of m known_models ≡ true
    → (features_of m).pp0_avail ≡ not (one_of m (87 ∷ 133 ∷ []))
known-pp0 m h = ground (arith, passes_below-at 256 _ pp0_table m (known-small m h), h)

-- For a model that `detect_cpu` accepts from Intel, the two measurements read the same registers
-- for all but the models 87 and 133 (Knights Landing and Knights Mill).
pub before-after_same :
    (msrs : Msrs) (m : ℕ)
    → one_of m known_models ≡ true
    → one_of m (87 ∷ 133 ∷ []) ≡ false
    → before_reads msrs (features_of m) ≡ after_reads msrs (features_of m)
unfolding before_reads after_reads
before-after_same msrs m h n = ground (arith, known-pp0 m h, n)

knights_features :
    (m : ℕ) → one_of m (87 ∷ 133 ∷ []) ≡ true → features_of m ≡ features false false true true false
unfolding features_of feature_case
knights_features m h = elim (Bool-cases (m == 87)) [
  | inl e ↦ ap (λ t. features_of t) (==→eq m 87 e)
  | inr n ↦ ap (λ t. features_of t) (==→eq m 133 (ground (arith, h, n)))
]

-- For these two, which have no PP0, the second measurement reads the energy of PP0 all the same,
-- and the first one did not.
pub before-after_differ :
    (msrs : Msrs) (m : ℕ)
    → one_of m (87 ∷ 133 ∷ []) ≡ true
    → (before_reads msrs (features_of m) ≡ msrs.pkg_energy_status ∷ 0x619 ∷ [])
      × (after_reads msrs (features_of m)
          ≡ msrs.pkg_energy_status ∷ msrs.pp0_energy_status ∷ 0x619 ∷ [])
unfolding before_reads after_reads
before-after_differ msrs m h =
    (ap (before_reads msrs) (knights_features m h), ap (after_reads msrs) (knights_features m h))
