-- ===== src/Packages/Map.antt =====
-- What `detect_packages` of rapl-read/rapl-read.c finds.
use uarch_configure.Common.{
  ℕ, zero, suc, ◌+◌, ◌≤◌, ◌<◌, ◌≡◌, refl, ap, sym, ◌∙◌, arith, Option, none, some, ◌==◌,
  if◌then◌else◌, Bool-cases, ==→eq, ==→ne,
}
use uarch_configure.Common.{
  List, [], ◌∷◌, get_elem?, set, replicate, length, length-set, get_elem?-set_self,
  get_elem?-set_ne, get_elem?-IsSome, get_elem?-replicate, get_elem?-none, ◌++◌, inl, inr, All,
  take,
}
use uarch_configure.Packages.{Packages, place, detect_loop, detect_packages, max_cpus, max_packages}

-- The first core of a package, the cores counted from `i`.
abbrev pub first_core : ℕ → ℕ → List ℕ → Option ℕ
first_core p i [] = none
first_core p i (q ∷ qs) = if q == p then some i else first_core p (i + 1) qs

abbrev pub known : List (Option ℕ) → ℕ
known [] = 0
known (none ∷ ps) = known ps
known (some i ∷ ps) = suc (known ps)

abbrev pub or_else : Option ℕ → Option ℕ → Option ℕ
or_else none o = o
or_else (some i) o = some i

known-set :
    (m : List (Option ℕ)) (p i : ℕ)
    → get_elem? m p ≡ some none
    → known (set m p (some i)) ≡ known m + 1
known-set [] p i e = cc
known-set (none ∷ m) zero i e = omega arith
known-set (some j ∷ m) zero i e = cc
known-set (none ∷ m) (suc p) i e = known-set m p i e
known-set (some j ∷ m) (suc p) i e = omega (arith, known-set m p i e)

lt_of_some : {A : Type 0} (xs : List A) (i : ℕ) {x : A} → get_elem? xs i ≡ some x → i < length xs
lt_of_some [] i e = cc
lt_of_some (y ∷ xs) zero e = omega arith
lt_of_some (y ∷ xs) (suc i) e = omega (arith, lt_of_some xs i e)

-- The loop's state: the map has its sixteen entries, and counts them.
pub record IsCounted (st : Packages) : Type 0 where
  pub sized : length st.package_map ≡ max_packages
  pub counted : st.total_packages ≡ known st.package_map

-- One round keeps the state, and adds the core where its package is new.
place_lem :
    (i p : ℕ) (st : Packages)
    → IsCounted st
    → p < max_packages
    → (st' : Packages) × (place i p st ≡ some st')
      × IsCounted st'
      × ((q : ℕ)
          → (old : Option ℕ) → get_elem? st.package_map q ≡ some old
          → get_elem? st'.package_map q ≡ some (or_else old (if p == q then some i else none)))
unfolding place
place_lem i p st c h = go (get_elem?-IsSome st.package_map p (omega arith))
  where
    go :
        (x : Option ℕ) × (get_elem? st.package_map p ≡ some x)
        → (st' : Packages) × (place i p st ≡ some st')
          × IsCounted st'
          × ((q : ℕ)
              → (old : Option ℕ) → get_elem? st.package_map q ≡ some old
              → get_elem? st'.package_map q ≡ some (or_else old (if p == q then some i else none)))
    go (none, e) = (
      record st {
        total_packages = st.total_packages + 1;
        package_map = set st.package_map p (some i);
      },
      ground arith,
      record {
        sized = omega (arith, length-set st.package_map p (some i));
        counted = omega (arith, known-set st.package_map p i e);
      },
      λ q old eq. elim (Bool-cases (p == q)) [
        | inl same ↦ ground (
          arith,
          ==→eq p q same,
          get_elem?-set_self st.package_map p (some i) (lt_of_some st.package_map p e),
        )
        | inr diff ↦ ground (arith, get_elem?-set_ne st.package_map p q (some i) (==→ne p q diff))
      ],
    )
    go (some first, e) = (st, ground arith, c, λ q old eq. ground (arith, ==→eq p q))

-- The state at the end of the loop over the cores from `i` on.
pub record Detected (i : ℕ) (ps : List ℕ) (st st' : Packages) : Type 0 where
  pub valid : IsCounted st'
  pub cores : st'.total_cores ≡ i + length ps
  pub firsts :
      (q : ℕ) (old : Option ℕ)
      → get_elem? st.package_map q ≡ some old
      → get_elem? st'.package_map q ≡ some (or_else old (first_core q i ps))

or_else-none : (o : Option ℕ) → or_else o none ≡ o
or_else-none none = refl
or_else-none (some i) = refl

or_else_assoc : (a b c : Option ℕ) → or_else (or_else a b) c ≡ or_else a (or_else b c)
or_else_assoc none b c = refl
or_else_assoc (some i) b c = refl

first_core-cons :
    (q i p : ℕ) (ps : List ℕ)
    → or_else (if p == q then some i else none) (first_core q (i + 1) ps) ≡ first_core q i (p ∷ ps)
first_core-cons q i p ps = ground arith

detect_loop-Detected :
    (rounds i : ℕ) (ps : List ℕ) (st : Packages)
    → IsCounted st
    → All (λ p. p < max_packages) ps
    → (st' : Packages) × (detect_loop rounds i ps st ≡ some st')
      × Detected i (take rounds ps) st st'
unfolding detect_loop
detect_loop-Detected zero i ps st c h = (
  record st { total_cores = i },
  refl,
  record {
    valid = record { sized = c.sized; counted = c.counted };
    cores = omega arith;
    firsts = λ q old e. e ∙ ap some (sym (or_else-none old));
  },
)
detect_loop-Detected (suc rounds) i [] st c h = (
  record st { total_cores = i },
  refl,
  record {
    valid = record { sized = c.sized; counted = c.counted };
    cores = omega arith;
    firsts = λ q old e. e ∙ ap some (sym (or_else-none old));
  },
)
detect_loop-Detected (suc rounds) i (p ∷ ps) st c h =
    let (st₁, run₁, c₁, firsts₁) = place_lem i p st c h.0 in
    let (st₂, run₂, d) = detect_loop-Detected rounds (i + 1) ps st₁ c₁ h.1 in
    (
      st₂,
      ground arith,
      record {
        valid = d.valid;
        cores = omega (arith, d.cores);
        firsts = λ q old e.
            d.firsts q (or_else old (if p == q then some i else none)) (firsts₁ q old e)
            ∙ ap some (
                or_else_assoc old (if p == q then some i else none)
                  (first_core q (i + 1) (take rounds ps))
                ∙ ap (or_else old) (first_core-cons q i p (take rounds ps)));
      },
    )

abbrev fresh : Packages
fresh = record { total_cores = 0; total_packages = 0; package_map = replicate max_packages none }

fresh-IsCounted : IsCounted fresh
fresh-IsCounted = record { sized = refl; counted = refl }

place_fault : (i p : ℕ) (st : Packages) → IsCounted st → max_packages ≤ p → place i p st ≡ none
unfolding place
place_fault i p st c h = ground (arith, get_elem?-none st.package_map p (omega (arith, c.sized)))

-- What the program knows of the machine: how many of the at most 1024 files there were, which core
-- is the first of each package, and how many packages have one.
pub record IsDetected (ps : List ℕ) (st : Packages) : Type 0 where
  pub all_cores : st.total_cores ≡ length (take max_cpus ps)
  pub first_cores :
      (q : ℕ)
      → q < max_packages
      → get_elem? st.package_map q ≡ some (first_core q 0 (take max_cpus ps))
  pub packages : st.total_packages ≡ known st.package_map

-- Where every core's package number is below 16 the detection succeeds, and gives these three.
pub detect_packages-IsDetected :
    (ps : List ℕ)
    → All (λ p. p < max_packages) ps
    → (st : Packages) × (detect_packages ps ≡ some st) × IsDetected ps st
unfolding detect_packages
detect_packages-IsDetected ps h =
    let (st, run, d) = detect_loop-Detected max_cpus 0 ps fresh fresh-IsCounted h in
    (
      st,
      run,
      record {
        all_cores = omega (arith, d.cores);
        first_cores = λ q l. d.firsts q none (get_elem?-replicate max_packages q none l);
        packages = d.valid.counted;
      },
    )

detect_loop_fault :
    (p : ℕ) (rest : List ℕ)
    → max_packages ≤ p
    → (rounds i : ℕ) (front : List ℕ) (st : Packages) → IsCounted st
    → All (λ q. q < max_packages) front
    → length front < rounds
    → detect_loop rounds i (front ++ (p ∷ rest)) st ≡ none
unfolding detect_loop
detect_loop_fault p rest b zero i front st c h l = absurd (omega arith)
detect_loop_fault p rest b (suc rounds) i [] st c h l = ground (arith, place_fault i p st c b)
detect_loop_fault p rest b (suc rounds) i (q ∷ front) st c h l =
    let (st₁, run₁, c₁, _) = place_lem i q st c h.0 in
    ground (arith, run₁, detect_loop_fault p rest b rounds (i + 1) front st₁ c₁ h.1 (omega arith))

-- A core among the first 1024 whose package number is 16 or more leads to a fault: the number is
-- used as an index of `package_map` unchecked.
pub detect_packages_fault :
    (front : List ℕ) (p : ℕ) (rest : List ℕ)
    → All (λ q. q < max_packages) front
    → length front < max_cpus
    → max_packages ≤ p
    → detect_packages (front ++ (p ∷ rest)) ≡ none
unfolding detect_packages
detect_packages_fault front p rest h l b =
    detect_loop_fault p rest b max_cpus 0 front fresh fresh-IsCounted h l
