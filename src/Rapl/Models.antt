-- ===== src/Rapl/Models.antt =====
-- The two `switch` statements of rapl-read/rapl-read.c agree on the models.
use uarch_configure.Common.{
  ℕ, ◌==◌, ◌<◌, ◌≡◌, refl, sym, arith, ltb, ◌||◌, ◌&&◌, ltb→lt, not, Bool, true, false, Option,
  none, some, List, [], ◌∷◌, All, passes_below, passes_below-at, Bool-cases, inl, inr, ==→eq,
  Option-cases, one_of, ◌≢◌, ap, ◌∙◌, subst,
}
use uarch_configure.Rapl.{
  Vendor, intel, amd, other, select_model, known_models, feature_case, Features, features,
  cpu_amd_fam17h,
}

abbrev has_case : ℕ → Bool
has_case m = elim (feature_case m) [ none ↦ false | some f ↦ true ]

known_table : passes_below 256 (λ m. not (one_of m known_models) || has_case m) ≡ true
unfolding passes_below feature_case
known_table = refl

abbrev all_small : List ℕ → Bool
all_small [] = true
all_small (k ∷ ks) = ltb k 256 && all_small ks

all_small-All : (ks : List ℕ) → all_small ks ≡ true → All (λ k. k < 256) ks
all_small-All [] h = tt
all_small-All (k ∷ ks) h = elim (Bool-cases (ltb k 256)) [
  | inl below ↦ (ltb→lt k 256 below, all_small-All ks (ground (arith, h, below)))
  | inr above ↦ absurd (ground (arith, h, above))
]

-- A property of each of the models of a list.
pub one_of-All {ℓ} : (P : ℕ → Type ℓ) (ks : List ℕ) (m : ℕ) → All P ks → one_of m ks ≡ true → P m
one_of-All P [] m h e = absurd (ground arith)
one_of-All P (k ∷ ks) m h e = elim (Bool-cases (m == k)) [
  | inl y ↦ subst P (sym (==→eq m k y)) h.0
  | inr n ↦ one_of-All P ks m h.1 (ground (arith, n))
]

pub known-small : (m : ℕ) → one_of m known_models ≡ true → m < 256
known-small m h = one_of-All (λ k. k < 256) known_models m (all_small-All known_models refl) h

known-has_case : (m : ℕ) → one_of m known_models ≡ true → (f : Features) × (feature_case m ≡ some f)
known-has_case m h = elim (Option-cases (feature_case m)) [
  | inl missing ↦
      absurd (ground (arith, passes_below-at 256 _ known_table m (known-small m h), h, missing))
  | inr found ↦ found
]

amd_case : feature_case cpu_amd_fam17h ≡ some (features true false false false false)
unfolding feature_case
amd_case = refl

-- For Intel and AMD, each model that `detect_cpu` returns has a case in the `switch` of `rapl_msr`,
-- so that none is measured with flags that nothing set.
pub select_model-has_case :
    (v : Vendor) (family m : ℕ) (model : Option ℕ)
    → v ≢ other
    → (select_model v family model).0 ≡ some m
    → (f : Features) × (feature_case m ≡ some f)
unfolding select_model
select_model-has_case other family m model n e = absurd (n refl)
select_model-has_case amd family m model n e = elim (Bool-cases (family == 23)) [
  | inl f ↦
      let same : m ≡ cpu_amd_fam17h = ground (arith, e, f) in
      (features true false false false false, ap feature_case same ∙ amd_case)
  | inr f ↦ absurd (ground (arith, e, f))
]
select_model-has_case intel family m none n e = absurd (ground (arith, e))
select_model-has_case intel family m (some k) n e = elim (Bool-cases (one_of k known_models)) [
  | inl f ↦
      let same : k ≡ m = ground (arith, e, f) in
      known-has_case m (subst (λ t. one_of t known_models ≡ true) same f)
  | inr f ↦ absurd (ground (arith, e, f))
]
