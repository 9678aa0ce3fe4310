-- ===== src/Apm/Power.antt =====
-- The power accumulator of amd-apm-read/apm-read.c (`ApmPwrReporting`).
use uarch_configure.Common.{
  ℕ, ◌+◌, ◌-◌, ◌*◌, ◌/◌, ◌%◌, ◌^◌, ◌==◌, ltb, if◌then◌else◌, Option, none, some, bit_and,
  Bool-cases, inl, inr,
}
use uarch_configure.Common.{◌≡◌, ◌<◌, refl, ap, ◌∙◌, arith}
use native.Mathlib.Nat.{mod-eq_of_lt}
use uarch_configure.Apm.Word.{signed_lt, sub64, signed_div, signed_div_small, signed_div_zero}

-- The file's global variables.
pub record Apm : Type 0 where
  pub n : ℕ
  pub j_max : ℕ
  pub tx : ℕ
  pub jx : ℕ
  pub ty : ℕ
  pub jy : ℕ
  pub j_delta : ℕ
  pub t_delta : ℕ
  pub tsc_size : ℕ

-- The registers of the CPUID leaves that `init_apm_pwr_reporting` asks for.
pub record Cpuid : Type 0 where
  pub ecx_80000007 : ℕ
  pub edx_80000007 : ℕ
  pub ecx_80000001 : ℕ
  pub ecx_80000008 : ℕ

-- `switch ((ecx>>16)&3)`
unfoldable pub tsc_bits : ℕ → ℕ
tsc_bits ecx =
    let size = bit_and (ecx / 2 ^ 16) 3 in
    if size == 0 then 40 else if size == 1 then 48 else if size == 2 then 56 else 64

-- The state where it returns 0, `none` where it returns -1. `j_max` is what reading
-- MaxCpuSwPwrAcc gives, or `none` if the file of core 0 does not open.
unfoldable pub init_apm_pwr_reporting : Cpuid → Option ℕ → Apm → Option Apm
unfolding tsc_bits
init_apm_pwr_reporting c j_max s =
    if bit_and c.edx_80000007 (2 ^ 12) == 0
    then none
    else if bit_and c.ecx_80000001 (2 ^ 27) == 0
    then none
    else elim j_max [
      | none ↦ none
      | some max ↦
          some (record s { n = c.ecx_80000007; tsc_size = tsc_bits c.ecx_80000008; j_max = max })
    ]

-- `j` and `t` are what reading CpuSwPwrAcc and the time stamp counter gives.
unfoldable pub start_apm_pwr_reporting : ℕ → ℕ → Apm → Apm
start_apm_pwr_reporting j t s = record s { jx = j; tx = t }

unfoldable pub power_delta : ℕ → ℕ → ℕ → ℕ
power_delta j_max jx jy = if signed_lt jy jx then sub64 ((jy + j_max) % 2 ^ 64) jx else sub64 jy jx

-- `none` for `1ULL << tsc_size` where that shift is too wide for C.
unfoldable pub time_delta : ℕ → ℕ → ℕ → ℕ → Option ℕ
time_delta family tsc_size tx ty =
    if signed_lt ty tx
    then (if family == 0x16
        then some (sub64 ((ty + 2 ^ 24) % 2 ^ 64) tx)
        else if ltb tsc_size 64
        then some (sub64 ((ty + 2 ^ tsc_size) % 2 ^ 64) tx)
        else none)
    else some (sub64 ty tx)

-- The average in milliwatts, and the state; `none` where the code faults.
unfoldable pub stop_apm_pwr_reporting : ℕ → ℕ → ℕ → Apm → Option (ℕ × Apm)
stop_apm_pwr_reporting family j t s =
    let j_delta = power_delta s.j_max s.jx j in
    elim (time_delta family s.tsc_size s.tx t) [
      | none ↦ none
      | some t_delta ↦ elim (signed_div (s.n * j_delta % 2 ^ 64) t_delta) [
        | none ↦ none
        | some average ↦
            some (average, record s { jy = j; ty = t; j_delta = j_delta; t_delta = t_delta })
      ]
    ]

-- A counter that turns over at `m`, read `d` counts later.
abbrev pub later : ℕ → ℕ → ℕ → ℕ
later m x d = if ltb (x + d) m then x + d else x + d - m

power_delta_lem : (m x d : ℕ) → m < 2 ^ 62 → x < m → d < m → power_delta m x (later m x d) ≡ d
unfolding power_delta
power_delta_lem m x d hm hx hd = ground arith

-- The turn of the time stamp counter that the code allows for.
abbrev pub time_turn : ℕ → ℕ → ℕ
time_turn family tsc_size = if family == 0x16 then 2 ^ 24 else 2 ^ tsc_size

time_delta_lem :
    (family tsc_size m x d : ℕ)
    → m ≡ time_turn family tsc_size
    → m < 2 ^ 62
    → tsc_size < 64
    → x < m
    → d < m
    → time_delta family tsc_size x (later m x d) ≡ some d
unfolding time_delta
time_delta_lem family tsc_size m x d e hm hw hx hd = elim (Bool-cases (family == 0x16)) [
  | inl f ↦ ground arith
  | inr f ↦ ground arith
]

stop_apm_lem :
    (family j t : ℕ) (s : Apm) {dt q : ℕ}
    → time_delta family s.tsc_size s.tx t ≡ some dt
    → signed_div (s.n * power_delta s.j_max s.jx j % 2 ^ 64) dt ≡ some q
    → stop_apm_pwr_reporting family j t s
      ≡ some (q, record s { jy = j; ty = t; j_delta = power_delta s.j_max s.jx j; t_delta = dt })
unfolding stop_apm_pwr_reporting
stop_apm_lem family j t s e d = ground arith

-- What the code computes is the average power of the interval: where each counter turned over at
-- most once, the accumulator gained `dj` and the time stamp counter `dt`, it is `n * dj / dt`.
pub stop_apm_average :
    (family dj dt : ℕ) (s : Apm)
    → s.j_max < 2 ^ 62
    → s.jx < s.j_max
    → dj < s.j_max
    → time_turn family s.tsc_size < 2 ^ 62
    → s.tsc_size < 64
    → s.tx < time_turn family s.tsc_size
    → dt < time_turn family s.tsc_size
    → 0 < dt
    → s.n * dj < 2 ^ 63
    → stop_apm_pwr_reporting family
        (later s.j_max s.jx dj)
        (later (time_turn family s.tsc_size) s.tx dt)
        s
      ≡ some (
        s.n * dj / dt,
        record s {
          jy = later s.j_max s.jx dj;
          ty = later (time_turn family s.tsc_size) s.tx dt;
          j_delta = dj;
          t_delta = dt;
        },
      )
stop_apm_average family dj dt s hj hx hdj ht hw htx hdt pos fits =
    stop_apm_lem family (later s.j_max s.jx dj) (later (time_turn family s.tsc_size) s.tx dt) s
      (time_delta_lem family s.tsc_size (time_turn family s.tsc_size) s.tx dt refl ht hw htx hdt)
      (ap (λ k. signed_div (s.n * k % 2 ^ 64) dt) accumulated ∙ divided (s.n * dj) fits)
    ∙ ap
        (λ k. some (
          s.n * dj / dt,
          record s {
            jy = later s.j_max s.jx dj;
            ty = later (time_turn family s.tsc_size) s.tx dt;
            j_delta = k;
            t_delta = dt;
          },
        ))
        accumulated
  where
    accumulated : power_delta s.j_max s.jx (later s.j_max s.jx dj) ≡ dj
    accumulated = power_delta_lem s.j_max s.jx dj hj hx hdj

    divided : (a : ℕ) → a < 2 ^ 63 → signed_div (a % 2 ^ 64) dt ≡ some (a / dt)
    divided a h =
        ap (λ k. signed_div k dt) (mod-eq_of_lt {n = a} {m = 2 ^ 64} (omega arith))
        ∙ signed_div_small a dt h (omega arith) pos

time_delta_same : (family tsc_size x : ℕ) → time_delta family tsc_size x x ≡ some 0
unfolding time_delta
time_delta_same family tsc_size x = ground arith

-- If the time stamp counter has not moved between the two reads, the division faults.
pub stop_apm_no_time : (family j : ℕ) (s : Apm) → stop_apm_pwr_reporting family j s.tx s ≡ none
unfolding stop_apm_pwr_reporting
stop_apm_no_time family j s = ground (
  arith,
  time_delta_same family s.tsc_size s.tx,
  signed_div_zero (s.n * power_delta s.j_max s.jx j % 2 ^ 64),
)
