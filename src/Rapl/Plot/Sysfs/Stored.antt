-- ===== src/Rapl/Plot/Sysfs/Stored.antt =====
-- Which energies rapl_sysfs of rapl-read/rapl-plot.c stores.
use uarch_configure.Common.{
  ℕ, ◌≡◌, refl, sym, ap, ap₂, ◌∙◌, arith, ◌==◌, ==→eq, ◌&&◌, Bool-cases, inl, inr, if◌then◌else◌,
  Bool, true, false, Option, none, some, List, [], ◌∷◌,
}
use uarch_configure.Common.Text.{Text, codes, equal_text}
use uarch_configure.Rapl.Scan.{starts_with}
use uarch_configure.Rapl.Plot.Sysfs.{PackageEnergies, is_package, assign_energy, assign_package}

-- The value of the last domain whose name passes a test, or the value before.
abbrev latest : (Text → Bool) → List (Option Text) → List (Option ℕ) → Option ℕ → Option ℕ
latest test (some name ∷ names) (b ∷ bs) old = latest test names bs (if test name then b else old)
latest test (none ∷ names) (b ∷ bs) old = latest test names bs old
latest test _ _ old = old

equal_text-eq : (word name : Text) → equal_text word name ≡ true → word ≡ name
unfolding equal_text
equal_text-eq [] [] h = refl
equal_text-eq [] (d ∷ t) h = absurd (ground arith)
equal_text-eq (c ∷ s) [] h = absurd (ground arith)
equal_text-eq (c ∷ s) (d ∷ t) h =
    let first : (c == d) ≡ true = ground arith in
    let rest : equal_text s t ≡ true = ground arith in
    ap₂ (λ x y. x ∷ y) (==→eq c d first) (equal_text-eq s t rest)

-- A name that is one word fails each test that the word fails.
only :
    (test : Text → Bool) (word name : Text)
    → test word ≡ false
    → (test name && equal_text word name) ≡ false
only test word name h = elim (Bool-cases (equal_text word name)) [
  | inl e ↦ rw (sym (equal_text-eq word name e), h) refl
  | inr e ↦ ground arith
]

-- One of four choices, on each of the four values.
abbrev stored : Bool → Bool → Bool → Bool → Option ℕ → PackageEnergies → PackageEnergies
stored p c u d b e = record {
  package_energy = if p then b else e.package_energy;
  cores_energy = if c then b else e.cores_energy;
  uncore_energy = if u then b else e.uncore_energy;
  dram_energy = if d then b else e.dram_energy;
}

chosen :
    (p c u d : Bool) (b : Option ℕ) (e : PackageEnergies)
    → (p && c) ≡ false
    → (p && u) ≡ false
    → (p && d) ≡ false
    → (c && u) ≡ false
    → (c && d) ≡ false
    → (u && d) ≡ false
    → (if p
        then record e { package_energy = b }
        else if c
        then record e { cores_energy = b }
        else if u
        then record e { uncore_energy = b }
        else if d
        then record e { dram_energy = b }
        else e)
      ≡ stored p c u d b e
chosen true true u d b e pc pu pd cu cd ud = absurd (ground arith)
chosen true false true d b e pc pu pd cu cd ud = absurd (ground arith)
chosen true false false true b e pc pu pd cu cd ud = absurd (ground arith)
chosen true false false false b e pc pu pd cu cd ud = refl
chosen false true true d b e pc pu pd cu cd ud = absurd (ground arith)
chosen false true false true b e pc pu pd cu cd ud = absurd (ground arith)
chosen false true false false b e pc pu pd cu cd ud = refl
chosen false false true true b e pc pu pd cu cd ud = absurd (ground arith)
chosen false false true false b e pc pu pd cu cd ud = refl
chosen false false false true b e pc pu pd cu cd ud = refl
chosen false false false false b e pc pu pd cu cd ud = refl

assign_energy-stored :
    (name : Text) (b : Option ℕ) (e : PackageEnergies)
    → assign_energy name b e
      ≡ stored
          (is_package name)
          (equal_text (codes "core") name)
          (equal_text (codes "uncore") name)
          (equal_text (codes "dram") name)
          b
          e
unfolding assign_energy starts_with equal_text
assign_energy-stored name b e =
    chosen (is_package name) (equal_text (codes "core") name) (equal_text (codes "uncore") name)
      (equal_text (codes "dram") name) b e (only is_package (codes "core") name refl)
      (only is_package (codes "uncore") name refl) (only is_package (codes "dram") name refl)
      (only (equal_text (codes "core")) (codes "uncore") name refl)
      (only (equal_text (codes "core")) (codes "dram") name refl)
      (only (equal_text (codes "uncore")) (codes "dram") name refl)

-- Each of the four energies of a package is the value of the last domain with its name that is there,
-- and the value before where there is none.
pub assign_package-latest :
    (names : List (Option Text)) (bs : List (Option ℕ)) (e : PackageEnergies)
    → assign_package names bs e ≡ record {
      package_energy = latest is_package names bs e.package_energy;
      cores_energy = latest (equal_text (codes "core")) names bs e.cores_energy;
      uncore_energy = latest (equal_text (codes "uncore")) names bs e.uncore_energy;
      dram_energy = latest (equal_text (codes "dram")) names bs e.dram_energy;
    }
unfolding assign_package
assign_package-latest [] bs e = refl
assign_package-latest (none ∷ names) [] e = refl
assign_package-latest (some name ∷ names) [] e = refl
assign_package-latest (none ∷ names) (b ∷ bs) e = assign_package-latest names bs e
assign_package-latest (some name ∷ names) (b ∷ bs) e =
    ap (assign_package names bs) (assign_energy-stored name b e) ∙ assign_package-latest names bs _
