-- ===== src/Pmu/Counts.antt =====
-- The totals of rasp-pi-pmu/rasp-pi-pmu.c against the true counts.
use uarch_configure.Common.{
  ℕ, ◌+◌, ◌-◌, ◌*◌, ◌/◌, ◌%◌, ◌^◌, ◌≤◌, ◌<◌, ◌≡◌, refl, ap, ◌∙◌, arith, List, [], ◌∷◌, map,
}
use uarch_configure.Common.{bit_or}
use uarch_configure.Common.Bits.{bit_and-mask, bit_or-shift}
use uarch_configure.Pmu.{
  Reading, Counter, Pmu, delta, update_counter, overflow, update_counters, control_word,
  rasp_pi_pmu_init, updates,
}

-- What the counters of 32 bits show of the true counts.
abbrev pub shown : Reading → Reading
shown t = record {
  cycles = t.cycles % 2 ^ 32;
  count1 = t.count1 % 2 ^ 32;
  count2 = t.count2 % 2 ^ 32;
}

-- A count grows by less than 2 ^ 32 from one update to the next.
abbrev pub Grows : ℕ → ℕ → Type 0
Grows t u = (t ≤ u) × (u < t + 2 ^ 32)

abbrev pub GrowsBy : Reading → List Reading → Type 0
GrowsBy t [] = Unit
GrowsBy t (u ∷ us) =
    Grows t.cycles u.cycles × (Grows t.count1 u.count1 × (Grows t.count2 u.count2 × GrowsBy u us))

abbrev pub last : Reading → List Reading → Reading
last t [] = t
last t (u ∷ us) = last u us

abbrev pub Follows : ℕ → Counter → Type 0
Follows t c = (c.old ≡ t % 2 ^ 32) × (c.total ≡ t % 2 ^ 64)

-- The turns of a counter of 32 bits.
abbrev pub turns : Reading → ℕ
turns t = t.cycles / 2 ^ 32 + t.count1 / 2 ^ 32 + t.count2 / 2 ^ 32

abbrev pub Shows : Reading → Pmu → Type 0
Shows t p =
    Follows t.cycles p.cycle_counter
    × (Follows t.count1 p.counter1
        × (Follows t.count2 p.counter2 × (p.overflows ≡ turns t % 2 ^ 32)))

delta_lem : (t u : ℕ) → Grows t u → delta (t % 2 ^ 32) (u % 2 ^ 32) ≡ u - t
unfolding delta
delta_lem t u (g, h) = ground arith

total_lem : (t u : ℕ) → t ≤ u → (t % 2 ^ 64 + (u - t)) % 2 ^ 64 ≡ u % 2 ^ 64
total_lem t u g = omega arith

update_counter-Follows :
    (t u : ℕ) (c : Counter) → Grows t u → Follows t c → Follows u (update_counter c (u % 2 ^ 32))
unfolding update_counter
update_counter-Follows t u c (g, h) (old, total) =
    (refl, rw (old, total, delta_lem t u (g, h)) (total_lem t u g))

-- A counter turns over as often as its true count passes a multiple of 2 ^ 32.
overflow_lem :
    (t u : ℕ) (c : Counter) (n m : ℕ)
    → Grows t u
    → Follows t c
    → n ≡ (m + t / 2 ^ 32) % 2 ^ 32
    → overflow c (u % 2 ^ 32) n ≡ (m + u / 2 ^ 32) % 2 ^ 32
unfolding overflow
overflow_lem t u c n m (g, h) (old, total) e = ground arith

update_counters-Shows :
    (t u : Reading) (us : List Reading) (p : Pmu)
    → GrowsBy t (u ∷ us)
    → Shows t p
    → Shows u (update_counters p (shown u))
unfolding update_counters
update_counters-Shows t u us p (g, (g1, (g2, _))) (c, (c1, (c2, n))) =
    let p' = update_counters p (shown u) in
    let after_cycles = overflow p.cycle_counter (u.cycles % 2 ^ 32) p.overflows in
    let first =
      overflow_lem t.cycles u.cycles p.cycle_counter p.overflows
        (t.count1 / 2 ^ 32 + t.count2 / 2 ^ 32) g c (n ∙ ap (λ k. k % 2 ^ 32) (omega arith)) in
    let second =
      overflow_lem t.count1 u.count1 p.counter1 after_cycles (u.cycles / 2 ^ 32 + t.count2 / 2 ^ 32)
        g1 c1 (first ∙ ap (λ k. k % 2 ^ 32) (omega arith)) in
    let third =
      overflow_lem t.count2 u.count2 p.counter2 _ (u.cycles / 2 ^ 32 + u.count1 / 2 ^ 32) g2 c2
        (second ∙ ap (λ k. k % 2 ^ 32) (omega arith)) in
    (
      update_counter-Follows t.cycles u.cycles p.cycle_counter g c,
      (
        update_counter-Follows t.count1 u.count1 p.counter1 g1 c1,
        (update_counter-Follows t.count2 u.count2 p.counter2 g2 c2, third),
      ),
    )

updates-Shows :
    (t : Reading) (us : List Reading) (p : Pmu)
    → GrowsBy t us
    → Shows t p
    → Shows (last t us) (updates p (map shown us))
unfolding updates
updates-Shows t [] p g s = s
updates-Shows t (u ∷ us) p g s =
    updates-Shows u us (update_counters p (shown u)) g.1.1.1 (update_counters-Shows t u us p g s)

abbrev pub zero_counts : Reading
zero_counts = record { cycles = 0; count1 = 0; count2 = 0 }

-- Where each true count grows by less than 2 ^ 32 between two updates, the totals are the true counts,
-- as 64 bits, after any number of updates, and `overflows` is the number of times that the three
-- counters of 32 bits turned over, as 32 bits.
pub updates-counts :
    (event1 event2 : ℕ) (us : List Reading)
    → GrowsBy zero_counts us
    → Shows (last zero_counts us) (updates (rasp_pi_pmu_init event1 event2) (map shown us))
unfolding rasp_pi_pmu_init
updates-counts event1 event2 us g =
    updates-Shows zero_counts us (rasp_pi_pmu_init event1 event2) g
      ((refl, refl), ((refl, refl), ((refl, refl), refl)))

joined :
    (a b : ℕ)
    → a < 2 ^ 8
    → b < 2 ^ 8
    → bit_or (bit_or (bit_or (bit_or (a * 2 ^ 20) (b * 2 ^ 12)) 4) 2) 1
      ≡ a * 2 ^ 20 + b * 2 ^ 12 + 7
joined a b h l =
    ap (λ t. bit_or (bit_or (bit_or t 4) 2) 1)
      (bit_or-shift 20 a (b * 2 ^ 12) (omega arith) ∙ omega arith)
    ∙ ap (λ t. bit_or (bit_or t 2) 1)
        (bit_or-shift 12 (a * 2 ^ 8 + b) 4 (omega arith) ∙ omega arith)
    ∙ ap (λ t. bit_or t 1)
        (bit_or-shift 2 ((a * 2 ^ 8 + b) * 2 ^ 10 + 1) 2 (omega arith) ∙ omega arith)
    ∙ bit_or-shift 1 ((a * 2 ^ 8 + b) * 2 ^ 11 + 3) 1 (omega arith)
    ∙ omega arith

-- The word that `rasp_pi_pmu_init` starts the counters with: the low bytes of the two events at bits 20
-- and 12, and the three lowest bits.
pub control_word_lem :
    (event1 event2 : ℕ)
    → control_word event1 event2 ≡ event1 % 2 ^ 8 * 2 ^ 20 + event2 % 2 ^ 8 * 2 ^ 12 + 7
unfolding control_word
control_word_lem event1 event2 =
    rw (bit_and-mask 8 event1, bit_and-mask 8 event2)
      (joined (event1 % 2 ^ 8) (event2 % 2 ^ 8) (omega arith) (omega arith))
