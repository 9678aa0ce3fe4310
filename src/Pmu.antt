-- ===== src/Pmu.antt =====
-- rasp-pi-pmu/rasp-pi-pmu.c: a kernel module that adds up the performance counters of a Raspberry Pi,
-- which turn over at 32 bits. What the counters hold is an argument.
pub mod Counts
mod Examples
use uarch_configure.Common.{
  ℕ, ◌+◌, ◌-◌, ◌*◌, ◌%◌, ◌^◌, ltb, if◌then◌else◌, Bool, List, [], ◌∷◌, bit_and, bit_or,
}

-- What `read_counters` reads.
pub record Reading : Type 0 where
  pub cycles : ℕ
  pub count1 : ℕ
  pub count2 : ℕ

-- `old_cycles` and `total_cycles`, and the like: an `unsigned int` and a `long long` as its pattern.
pub record Counter : Type 0 where
  pub old : ℕ
  pub total : ℕ

-- The other variables of the file; `overflows` is an `int` as its pattern.
pub record Pmu : Type 0 where
  pub control : ℕ
  pub cycle_counter : Counter
  pub counter1 : Counter
  pub counter2 : Counter
  pub overflows : ℕ

-- `(0xffffffff-old_cycles)+cycles+1` or `cycles-old_cycles`
unfoldable pub delta : ℕ → ℕ → ℕ
delta old now = if ltb now old then (0xffffffff - old + now + 1) % 2 ^ 32 else now - old

unfoldable pub update_counter : Counter → ℕ → Counter
update_counter c now = record { old = now; total = (c.total + delta c.old now) % 2 ^ 64 }

-- `overflows++` where the counter turned over.
unfoldable pub overflow : Counter → ℕ → ℕ → ℕ
overflow c now n = if ltb now c.old then (n + 1) % 2 ^ 32 else n

unfoldable pub update_counters : Pmu → Reading → Pmu
update_counters p r = record p {
  cycle_counter = update_counter p.cycle_counter r.cycles;
  counter1 = update_counter p.counter1 r.count1;
  counter2 = update_counter p.counter2 r.count2;
  overflows =
      overflow p.counter2 r.count2
        (overflow p.counter1 r.count1 (overflow p.cycle_counter r.cycles p.overflows));
}

-- The word that starts the counters.
unfoldable pub control_word : ℕ → ℕ → ℕ
control_word event1 event2 =
    bit_or
      (bit_or
        (bit_or (bit_or (bit_and event1 0xff * 2 ^ 20) (bit_and event2 0xff * 2 ^ 12)) (2 ^ 2))
        (2 ^ 1))
      (2 ^ 0)

-- `rasp_pi_pmu_init`: the totals are set; the old values are 0 from the start.
unfoldable pub rasp_pi_pmu_init : ℕ → ℕ → Pmu
rasp_pi_pmu_init event1 event2 = record {
  control = control_word event1 event2;
  cycle_counter = record { old = 0; total = 0 };
  counter1 = record { old = 0; total = 0 };
  counter2 = record { old = 0; total = 0 };
  overflows = 0;
}

-- The updates of the timer, and of `rasp_pi_pmu_exit` at the end.
unfoldable pub updates : Pmu → List Reading → Pmu
updates p [] = p
updates p (r ∷ rs) = updates (update_counters p r) rs
