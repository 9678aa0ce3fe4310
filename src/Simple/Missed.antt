-- ===== src/Simple/Missed.antt =====
-- The count of missed samples of wattsup/wattsup-simple.c.
use uarch_configure.Common.{
  ℕ, ◌≡◌, ◌∙◌, arith, Bool, true, false, not, if◌then◌else◌, Option, none, some, List, [], ◌∷◌,
  ◌==◌, length,
}
use uarch_configure.Common.Text.{Text, first}
use uarch_configure.Simple.Read.{
  Read, buffer, first_read, filled, overrun, waiting, Filled, Watts, watts, unset, outside,
  find_watts, has_end,
}
use uarch_configure.Simple.Meter.{
  Meter, Outcome, returns, fault, waits, Write, wrote, write_failed, count_missed, print_sample,
  after_fill, read_line, after_first, M, return, wu_read, send, run, main, wu_start_external_log,
  wu_stop_external_log, start_text, stop_text, ◌>>=◌, ◌>>◌,
}

-- Where the outcome is a result, the count stands at `n`.
abbrev pub Counts {ℓ} : {A : Type ℓ} → ℕ → Outcome A → Type 0
Counts n (returns a m) = m.missed_samples ≡ n
Counts n fault = Unit {0}
Counts n waits = Unit {0}

count_missed_zero : (now missed : ℕ) → count_missed 0 now missed ≡ missed
unfolding count_missed
count_missed_zero now missed = ground arith

print_sample-Counts :
    (n time : ℕ) (w : Watts) (m : Meter) → m.missed_samples ≡ n → Counts n (print_sample time w m)
print_sample-Counts n time (watts t) m e = e
print_sample-Counts n time unset m e = tt
print_sample-Counts n time outside m e = tt

after_fill-Counts :
    (n now : ℕ) (times : List ℕ) (f : Filled) (m : Meter)
    → m.missed_samples ≡ n
    → Counts n (after_fill now times f m)
after_fill-Counts n now times (filled string rs) m e =
    print_sample-Counts n now (find_watts string) _ (count_missed_zero now m.missed_samples ∙ e)
after_fill-Counts n now times overrun m e = tt
after_fill-Counts n now times waiting m e = tt

read_line-Counts :
    (n : ℕ) (bytes : Text) (times : List ℕ) (m : Meter)
    → m.missed_samples ≡ n
    → Counts n (read_line bytes times m)
unfolding read_line
read_line-Counts n bytes [] m e = tt
read_line-Counts n bytes (now ∷ times) m e = after_fill-Counts n now times _ m e

if-Counts {ℓ} :
    {A : Type ℓ} (n : ℕ) (b : Bool) (x y : Outcome A)
    → Counts n x
    → Counts n y
    → Counts n (if b then x else y)
if-Counts n true x y p q = p
if-Counts n false x y p q = q

after_first-Counts :
    (n : ℕ) (o : Option (Text × List Read)) (m : Meter)
    → m.missed_samples ≡ n
    → Counts n (after_first o m)
after_first-Counts n none m e = tt
after_first-Counts n (some (bytes, rs)) m e =
    let m' : Meter = record m { reads = rs } in
    let wrong : Outcome ℕ = if has_end (buffer bytes) then returns (length bytes) m' else fault in
    if-Counts n (first bytes == b'#') (read_line bytes m.times m') wrong
      (read_line-Counts n bytes m.times m' e)
      (if-Counts n (has_end (buffer bytes)) (returns (length bytes) m') fault e tt)

wu_read-Counts : (n : ℕ) (m : Meter) → m.missed_samples ≡ n → Counts n (wu_read m)
unfolding wu_read
wu_read-Counts n m e = after_first-Counts n (first_read m.reads) m e

send-Counts :
    (n : ℕ) (t : Text) (ws : List Write) (m : Meter) → m.missed_samples ≡ n → Counts n (send t ws m)
send-Counts n t [] m e = tt
send-Counts n t (wrote k ∷ ws) m e = e
send-Counts n t (write_failed ∷ ws) m e = e

-- An outcome that keeps the count, and a rest that does.
then-Counts {ℓ κ} :
    {A : Type ℓ} {B : Type κ} (n : ℕ) (x : Outcome A) (k : A → M B) (s : Meter)
    → Counts n x
    → ((a : A) (m : Meter) → m.missed_samples ≡ n → Counts n (k a m))
    → Counts n (((λ _. x) >>= k) s)
then-Counts n (returns a m) k s p q = q a m p
then-Counts n fault k s p q = tt
then-Counts n waits k s p q = tt

run-Counts : (n : ℕ) (done : List Bool) (m : Meter) → m.missed_samples ≡ n → Counts n (run done m)
unfolding run
run-Counts n [] m e = tt
run-Counts n (true ∷ later) m e =
    then-Counts n (wu_read m) (λ _. return tt) m (wu_read-Counts n m e) (λ a m' e'. e')
run-Counts n (false ∷ later) m e =
    then-Counts n (wu_read m) (λ _. run later) m (wu_read-Counts n m e)
      (λ a m' e'. run-Counts n later m' e')

abbrev rest_of_main : List Bool → Bool → M ℕ
rest_of_main done started =
    if not started then return 0 else do run done; wu_stop_external_log; return 0

rest_of_main-Counts :
    (n : ℕ) (done : List Bool) (started : Bool) (m : Meter)
    → m.missed_samples ≡ n
    → Counts n (rest_of_main done started m)
unfolding wu_stop_external_log
rest_of_main-Counts n done false m e = e
rest_of_main-Counts n done true m e =
    then-Counts n (run done m) (λ _. wu_stop_external_log >>= λ _. return 0) m
      (run-Counts n done m e)
      (λ u m' e'.
        then-Counts n (wu_stop_external_log m') (λ _. return 0) m'
          (send-Counts n stop_text m'.writes m' e') (λ b m'' e''. e''))

-- Whatever the meter sends and however long it takes, no sample counts as missed: the number that
-- `main` prints at its end is the one it started with.
pub main-Counts :
    (n : ℕ) (done : List Bool) (m : Meter) → m.missed_samples ≡ n → Counts n (main done m)
unfolding main wu_start_external_log
main-Counts n done m e =
    then-Counts n (wu_start_external_log 1 m) (rest_of_main done) m
      (send-Counts n (start_text 1) m.writes m e) (rest_of_main-Counts n done)
