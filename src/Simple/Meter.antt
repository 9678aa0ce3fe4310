-- ===== src/Simple/Meter.antt =====
-- wu_read, the two commands and main of wattsup/wattsup-simple.c, on a script of what the system gives.
use uarch_configure.Common.{
  ℕ, suc, ◌+◌, ◌-◌, ◌==◌, ltb, not, ◌&&◌, if◌then◌else◌, Bool, true, false, Option, none, some,
  List, [], ◌∷◌, ◌++◌, length, take,
}
use uarch_configure.Common.Text.{Text, codes, first, print_int}
use uarch_configure.Simple.Read.{
  Read, string_size, buffer, first_read, Filled, filled, overrun, waiting, fill, Watts, watts,
  unset, outside, has_end, find_watts,
}

pub data Write : Type 0 where
  wrote : ℕ → Write
  write_failed : Write

-- `times` are the coming times of `gettimeofday` in microseconds; `printed` has each time with the
-- text that `atof` reads.
pub record Meter : Type 0 where
  pub reads : List Read
  pub writes : List Write
  pub times : List ℕ
  pub sent : List Text
  pub printed : List (ℕ × Text)
  pub missed_samples : ℕ

-- `fault`: what C defines is left. `waits`: the script has no more.
pub data Outcome {ℓ} (A : Type ℓ) : Type ℓ where
  returns : A → Meter → Outcome A
  fault waits : Outcome A

abbrev pub M {ℓ} : Type ℓ → Type ℓ
M A = Meter → Outcome A

infixl 5 ◌>>=◌ ◌>>◌
abbrev pub ◌>>=◌ {ℓ κ} : {A : Type ℓ} {B : Type κ} → M A → (A → M B) → M B
◌>>=◌ m f s = elim (m s) [ returns a s' ↦ f a s' | fault ↦ fault | waits ↦ waits ]

abbrev pub ◌>>◌ {ℓ κ} : {A : Type ℓ} {B : Type κ} → M A → M B → M B
m >> k = m >>= λ _. k

abbrev pub return {ℓ} : {A : Type ℓ} → A → M A
return a s = returns a s

-- The last part of `wu_read`, with the watts of the filled buffer.
abbrev pub print_sample : ℕ → Watts → M ℕ
print_sample time (watts w) m = returns 0 (record m { printed = m.printed ++ ((time, w) ∷ []) })
print_sample time unset m = fault
print_sample time outside m = fault

-- `prev_time=double_time` comes before `double_time` is set, and both are new in each call.
unfoldable pub count_missed : ℕ → ℕ → ℕ → ℕ
count_missed double_time now missed =
    let prev_time = double_time in
    if ltb (prev_time + 1200000) now && not (prev_time == 0) then suc missed else missed

-- From the filled buffer on; `now` is the time that was taken before.
abbrev pub after_fill : ℕ → List ℕ → Filled → M ℕ
after_fill now times (filled string rs) m =
    print_sample now (find_watts string)
      (record m { reads = rs; times = times; missed_samples = count_missed 0 now m.missed_samples })
after_fill now times overrun m = fault
after_fill now times waiting m = waits

unfoldable pub read_line : Text → List ℕ → M ℕ
read_line bytes [] m = waits
read_line bytes (now ∷ times) m =
    after_fill now times (fill (string_size - length bytes) (length bytes) (buffer bytes) m.reads) m

-- The result of a protocol error is the number of bytes; the message prints the buffer up to its 0.
abbrev pub after_first : Option (Text × List Read) → M ℕ
after_first none m = waits
after_first (some (bytes, rs)) m =
    if first bytes == b'#'
    then read_line bytes m.times (record m { reads = rs })
    else if has_end (buffer bytes)
    then returns (length bytes) (record m { reads = rs })
    else fault

unfoldable pub wu_read : M ℕ
unfolding read_line
wu_read m = after_first (first_read m.reads) m

-- `"#L,W,3,E,1,%d;"`
unfoldable pub start_text : ℕ → Text
start_text interval = codes "#L,W,3,E,1," ++ (print_int interval ++ (b';' ∷ []))

abbrev pub stop_text : Text
stop_text = codes "#L,R,0;"

-- The command is sent; true where all of it was written, and otherwise the function returns -1.
abbrev pub send : Text → List Write → M Bool
send text [] m = waits
send text (write_failed ∷ ws) m = returns false (record m { writes = ws })
send text (wrote n ∷ ws) m =
    returns (n == length text) (record m { writes = ws; sent = m.sent ++ (take n text ∷ []) })

unfoldable pub wu_start_external_log : ℕ → M Bool
unfolding start_text
wu_start_external_log interval m = send (start_text interval) m.writes m

unfoldable pub wu_stop_external_log : M Bool
wu_stop_external_log m = send stop_text m.writes m

-- The loop of `main`; the list has what `done_running` is after each round. The result of `wu_read` is
-- not looked at.
unfoldable pub run : List Bool → M (Unit {0})
run [] = λ m. waits
run (done ∷ later) = do wu_read; elim done [ true ↦ return tt | false ↦ run later ]

-- `main` once the device is open and set up; 0 is returned in every case.
unfoldable pub main : List Bool → M ℕ
unfolding run wu_start_external_log wu_stop_external_log
main done = do
  started ← wu_start_external_log 1
  if not started then return 0 else do run done; wu_stop_external_log; return 0
