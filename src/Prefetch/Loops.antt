-- ===== src/Prefetch/Loops.antt =====
-- What the loops over the cores of intel-prefetch/intel-prefetch-disable.c leave behind.
use uarch_configure.Common.{
  ℕ, zero, suc, ◌+◌, ◌≤◌, ◌<◌, ◌≡◌, refl, ap, ◌∙◌, sym, arith, Bool, true, false, none, some,
}
use uarch_configure.Common.{
  List, [], ◌∷◌, ◌++◌, append_assoc, append-nil, length, length-snoc, get_elem?, get_elem?-middle,
  set-middle, get_elem?_behind, set, All, eq→==, bit_and, bit_or, ◌%◌, ◌^◌, if◌then◌else◌,
}
use uarch_configure.Common.Text.{Text}
use uarch_configure.Prefetch.{
  Core, Report, Machine, returns, exits, exit_code, open_msr, read_msr, write_msr, store,
}
use uarch_configure.Prefetch.Cores.{
  core2_mask, core2_unmask, core2_flags, nhm_flags, change_core, change_cores, for_cores,
  disable_prefetch_core2, enable_prefetch_core2, disable_prefetch_nhm, enable_prefetch_nhm,
  run_prefetch,
}

abbrev pub IsUsable : Core → Type 0
IsUsable c = (c.readable ≡ true) × (c.writable ≡ true)

module _ (m : Machine) (core : ℕ) {c : Core} (found : get_elem? m.cores core ≡ some c) where
  open_lem : open_msr core m ≡ returns c m
  unfolding open_msr
  open_lem = ground arith

  read_lem : (which : ℕ) → c.readable ≡ true → read_msr core which m ≡ returns (c.regs which) m
  unfolding read_msr
  read_lem which h = ground arith

  write_lem :
      (which value : ℕ)
      → c.writable ≡ true
      → write_msr core which value m
        ≡ returns tt (record m { cores = set m.cores core (store which value c) })
  unfolding write_msr
  write_lem which value h = ground arith

-- A stored value is read back.
store_self : (which value : ℕ) (c : Core) → (store which value c).regs which ≡ value
store_self which value c = rw (eq→== which which refl)

module _ (which : ℕ) (flags : ℕ → Text) (new : ℕ → ℕ) where
  -- A core after its round.
  abbrev pub changed : Core → Core
  changed c = store which (new (c.regs which)) c

  -- The two lines of a round.
  abbrev pub lines : ℕ → Core → List Report
  lines core c =
      record { core = core; flags = flags (c.regs which) }
      ∷ record { core = core; flags = flags (new (c.regs which)) }
      ∷ []

  abbrev pub changed_all : List Core → List Core
  changed_all [] = []
  changed_all (c ∷ cs) = changed c ∷ changed_all cs

  abbrev pub lines_all : ℕ → List Core → List Report
  lines_all core [] = []
  lines_all core (c ∷ cs) = lines core c ++ lines_all (core + 1) cs

  change_core_lem :
      (m : Machine) (before after : List Core) (c : Core)
      → IsUsable c
      → m.cores ≡ before ++ (c ∷ after)
      → change_core which flags new (length before) m
        ≡ returns tt (record m {
          cores = before ++ (changed c ∷ after);
          reports = m.reports ++ lines (length before) c;
        })
  unfolding change_core
  change_core_lem m before after c (r, w) e =
      let n = length before in
      let found : get_elem? m.cores n ≡ some c =
        ap (λ l. get_elem? l n) e ∙ get_elem?-middle before c after in
      let stored : set m.cores n (changed c) ≡ before ++ (changed c ∷ after) =
        ap (λ l. set l n (changed c)) e ∙ set-middle before c after (changed c) in
      let m₁ : Machine = record m {
        reports = m.reports ++ (record { core = n; flags = flags (c.regs which) } ∷ []);
      } in
      let m₂ : Machine = record m₁ { cores = before ++ (changed c ∷ after) } in
      ground (
        arith,
        open_lem m n found,
        read_lem m n found which r,
        write_lem m₁ n found which (new (c.regs which)) w,
        stored,
        read_lem m₂ n (get_elem?-middle before (changed c) after) which r,
        store_self which (new (c.regs which)) c,
        append_assoc m.reports (record { core = n; flags = flags (c.regs which) } ∷ [])
            (record { core = n; flags = flags (new (c.regs which)) } ∷ []),
      )

  change_core_missing :
      (m : Machine) → change_core which flags new (length m.cores) m ≡ exits (exit_code m.missing) m
  unfolding change_core open_msr
  change_core_missing m = ground (arith, get_elem?_behind m.cores)

  change_cores_lem :
      (after before : List Core) (rounds : ℕ) (m : Machine)
      → All IsUsable after
      → m.cores ≡ before ++ after
      → length after < rounds
      → change_cores rounds (length before) (change_core which flags new) m
        ≡ exits (exit_code m.missing) (record m {
          cores = before ++ changed_all after;
          reports = m.reports ++ lines_all (length before) after;
        })
  unfolding change_cores
  change_cores_lem after before zero m u e h = absurd (omega arith)
  change_cores_lem [] before (suc rounds) m u e h =
      ground (arith, change_core_missing m, append-nil before, append-nil m.reports)
  change_cores_lem (c ∷ after) before (suc rounds) m u e h =
      let n = length before in
      let m' : Machine = record m {
        cores = before ++ (changed c ∷ after);
        reports = m.reports ++ lines n c;
      } in
      ground (
        arith,
        change_core_lem m before after c u.0 e,
        change_cores_lem after (before ++ (changed c ∷ [])) rounds m' u.1
            (sym (append_assoc before (changed c ∷ []) after)) (omega arith),
        append_assoc before (changed c ∷ []) (changed_all after),
        append_assoc m.reports (lines n c) (lines_all (n + 1) after),
        length-snoc before (changed c),
      )

  -- With no core given and at most 1024 of them, all usable: the loop changes the register of every
  -- core and no other, reports its old and new flags, and then always ends in the `exit` of the
  -- first missing core.
  pub for_cores_every :
      (m : Machine)
      → All IsUsable m.cores
      → length m.cores ≤ 1024
      → for_cores none (change_core which flags new) m
        ≡ exits
            (exit_code m.missing)
            (record m { cores = changed_all m.cores; reports = m.reports ++ lines_all 0 m.cores })
  unfolding for_cores
  for_cores_every m u h = change_cores_lem m.cores [] 1025 m u refl (omega arith)

  -- A core given by its number, and usable: only its register is changed, and the loop returns.
  pub for_cores_one :
      (m : Machine) (before after : List Core) (c : Core)
      → IsUsable c
      → m.cores ≡ before ++ (c ∷ after)
      → for_cores (some (length before)) (change_core which flags new) m
        ≡ returns tt (record m {
          cores = before ++ (changed c ∷ after);
          reports = m.reports ++ lines (length before) c;
        })
  unfolding for_cores change_cores
  for_cores_one m before after c u e = ground (arith, change_core_lem m before after c u e)

-- What the four functions do to a register: which one, what is shown of it, and its new value.
abbrev pub prefetch_msr : Bool → ℕ
prefetch_msr core2 = if core2 then 0x1a0 else 0x1a4

abbrev pub prefetch_flags : Bool → ℕ → Text
prefetch_flags true r = core2_flags r
prefetch_flags false r = nhm_flags (r % 2 ^ 32)

abbrev pub prefetch_value : Bool → Bool → ℕ → ℕ
prefetch_value true true r = bit_or r core2_mask
prefetch_value true false r = 0xf
prefetch_value false true r = bit_and r core2_unmask
prefetch_value false false r = 0

-- On a supported model, with no core given and at most 1024 of them, all usable, `main` changes the
-- prefetcher register of every core as the model and the direction ask, reports each, and always
-- ends in the `exit` for the first missing core, never in the return of its function.
pub run_prefetch_every :
    (disable core2 : Bool) (m : Machine)
    → All IsUsable m.cores
    → length m.cores ≤ 1024
    → run_prefetch disable none (some core2) m
      ≡ exits (exit_code m.missing) (record m {
        cores =
            changed_all
              (prefetch_msr core2)
              (prefetch_flags core2)
              (prefetch_value disable core2)
              m.cores;
        reports =
            m.reports
            ++ lines_all
                (prefetch_msr core2)
                (prefetch_flags core2)
                (prefetch_value disable core2)
                0
                m.cores;
      })
unfolding run_prefetch
run_prefetch_every true true m u h =
    unfold disable_prefetch_core2 in
    ground (arith, for_cores_every 0x1a0 core2_flags (λ r. bit_or r core2_mask) m u h)
run_prefetch_every true false m u h =
    unfold disable_prefetch_nhm in
    ground (arith, for_cores_every 0x1a4 (λ r. nhm_flags (r % 2 ^ 32)) (λ _. 0xf) m u h)
run_prefetch_every false true m u h =
    unfold enable_prefetch_core2 in
    ground (arith, for_cores_every 0x1a0 core2_flags (λ r. bit_and r core2_unmask) m u h)
run_prefetch_every false false m u h =
    unfold enable_prefetch_nhm in
    ground (arith, for_cores_every 0x1a4 (λ r. nhm_flags (r % 2 ^ 32)) (λ _. 0) m u h)
