-- ===== src/MakePlot/Points.antt =====
-- The points and intervals that main of wattsup/utils/make_plot.c makes of the times of a log.
use uarch_configure.Common.{
  ℕ, ◌+◌, ◌-◌, ◌^◌, ◌<◌, ◌≤◌, ◌≡◌, sym, ap, ap₂, ◌∙◌, arith, List, [], ◌∷◌, ◌++◌, map, append_assoc,
  append-nil,
}
use uarch_configure.MakePlot.{Log, minus32, log_line, log_lines, empty_log, total_time}

-- Times that do not fall, from one on.
abbrev pub Rises : ℕ → List ℕ → Type 0
Rises t [] = t < 2 ^ 31
Rises t (u ∷ us) = (t ≤ u) × Rises u us

abbrev pub last_of : ℕ → List ℕ → ℕ
last_of t [] = t
last_of t (u ∷ us) = last_of u us

abbrev pub sum : List ℕ → ℕ
sum [] = 0
sum (n ∷ ns) = n + sum ns

abbrev gaps : ℕ → List ℕ → List ℕ
gaps t [] = []
gaps t (u ∷ us) = (u - t) ∷ gaps u us

-- The variables after the line with the time `t`.
abbrev logged : ℕ → ℕ → List ℕ → List ℕ → Log
logged start t ps is = record {
  start_seconds = start;
  last_seconds = t;
  seconds = t;
  points = ps;
  intervals = is;
}

Rises-lt : (t : ℕ) (us : List ℕ) → Rises t us → t < 2 ^ 31
Rises-lt t [] h = h
Rises-lt t (u ∷ us) h = omega (arith, h.0, Rises-lt u us h.1)

Rises-le : (t : ℕ) (us : List ℕ) → Rises t us → t ≤ last_of t us
Rises-le t [] h = omega arith
Rises-le t (u ∷ us) h = omega (arith, h.0, Rises-le u us h.1)

last-lt : (t : ℕ) (us : List ℕ) → Rises t us → last_of t us < 2 ^ 31
last-lt t [] h = h
last-lt t (u ∷ us) h = last-lt u us h.1

minus32_lem : (a b : ℕ) → b ≤ a → a < 2 ^ 31 → minus32 a b ≡ a - b
minus32_lem a b h l = omega arith

log_line-logged :
    (start t u : ℕ) (ps is : List ℕ)
    → 0 < start
    → start ≤ t
    → t ≤ u
    → u < 2 ^ 31
    → log_line (logged start t ps is) u
      ≡ logged start u (ps ++ ((u - start) ∷ [])) (is ++ ((u - t) ∷ []))
unfolding log_line
log_line-logged start t u ps is a b c d =
    ground (arith, minus32_lem u start (omega arith) d, minus32_lem u t c d)

log_lines-logged :
    (start t : ℕ) (us ps is : List ℕ)
    → 0 < start
    → start ≤ t
    → Rises t us
    → log_lines (logged start t ps is) us
      ≡ logged start (last_of t us) (ps ++ map (λ u. u - start) us) (is ++ gaps t us)
unfolding log_lines
log_lines-logged start t [] ps is a b h =
    ap₂ (λ p i. logged start t p i) (sym (append-nil ps)) (sym (append-nil is))
log_lines-logged start t (u ∷ us) ps is a b h =
    ap (λ l. log_lines l us) (log_line-logged start t u ps is a b h.0 (Rises-lt u us h.1))
    ∙ log_lines-logged start u us _ _ a (omega (arith, h.0)) h.1
    ∙ ap₂ (λ p i. logged start (last_of u us) p i)
        (append_assoc ps ((u - start) ∷ []) (map (λ u. u - start) us))
        (append_assoc is ((u - t) ∷ []) (gaps u us))

sum-gaps : (t : ℕ) (us : List ℕ) → Rises t us → sum (gaps t us) + t ≡ last_of t us
sum-gaps t [] h = omega arith
sum-gaps t (u ∷ us) h = omega (arith, h.0, sum-gaps u us h.1)

-- For a log of one day that does not begin at midnight, the points have the seconds since the first
-- line, and the intervals that the powers are multiplied by add up to the total time.
pub log_lines-total :
    (t : ℕ) (us : List ℕ)
    → 0 < t
    → Rises t us
    → ((log_lines empty_log (t ∷ us)).points ≡ map (λ u. u - t) (t ∷ us))
      × (sum (log_lines empty_log (t ∷ us)).intervals ≡ total_time (log_lines empty_log (t ∷ us)))
      × (total_time (log_lines empty_log (t ∷ us)) + t ≡ last_of t us)
log_lines-total t us h r = (
  ap (λ l. l.points) whole,
  ap (λ l. sum l.intervals) whole ∙ omega (arith, time, gap),
  omega (arith, time, Rises-le t us r),
)
  where
    first : log_line empty_log t ≡ logged t t (0 ∷ []) []
    first = unfold log_line in ground (arith, minus32_lem t t (omega arith) (Rises-lt t us r))

    whole :
        log_lines empty_log (t ∷ us)
        ≡ logged t (last_of t us) (map (λ u. u - t) (t ∷ us)) (gaps t us)
    whole =
        unfold log_lines in
        (ap (λ l. log_lines l us) first
          ∙ log_lines-logged t t us (0 ∷ []) [] h (omega arith) r
          ∙ ap (λ n. logged t (last_of t us) (n ∷ map (λ u. u - t) us) (gaps t us)) (omega arith))

    time : total_time (log_lines empty_log (t ∷ us)) ≡ last_of t us - t
    time = ap total_time whole ∙ minus32_lem (last_of t us) t (Rises-le t us r) (last-lt t us r)

    gap : sum (gaps t us) + t ≡ last_of t us
    gap = sum-gaps t us r
